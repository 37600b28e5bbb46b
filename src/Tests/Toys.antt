-- ===== src/Tests/Toys.antt =====
-- Concrete stand-ins for the cryptography and for JSON, with the laws that are asked of them.
use Prim.Native.Char.{Char, char, code}
use Prim.Native.String.{◌++◌ as glue}
use text.Mathlib.TextEquality.{Char-path}
use justi_key.Common.{
  ℕ, zero, suc, ◌+◌, ◌≡◌, ◌≢◌, refl, sym, ap, ◌∙◌, true, String, [], ◌∷◌, ◌++◌, Option, none, some,
  ◌==◌, if◌then◌else◌, bind_option, arith, codes, length, take, drop, str_eq, str_eq_iff,
  str_eq_refl, Bool-cases, inl, inr, take-append, drop-append,
}
use justi_key.Disclosure.{Fields}
use justi_key.Kem.{Bytes, Crypto}
use justi_key.Sealing.{Bound, Json}

abbrev one : Char
one = char 49 tt

abbrev nought : Char
nought = char 48 tt

-- a number as so many ones and a nought, before a text
abbrev ones : ℕ → String → String
ones zero s = String.◌∷◌ nought s
ones (suc n) s = String.◌∷◌ one (ones n s)

-- bytes as a text, and back
abbrev pub encode : Bytes → String
encode [] = ""
encode (b ∷ raw) = ones b (encode raw)

abbrev decode_from : ℕ → String → Option Bytes
decode_from n String.[] = some []
decode_from n (String.◌∷◌ c s) =
    if code c == 49
    then decode_from (n + 1) s
    else bind_option (decode_from 0 s) (λ raw. some (n ∷ raw))

abbrev pub decode : String → Option Bytes
decode s = decode_from 0 s

decode-ones :
    (n b : ℕ) (s : String)
    → decode_from n (ones b s) ≡ bind_option (decode_from 0 s) (λ raw. some ((n + b) ∷ raw))
decode-ones n zero s = let e : n + 0 ≡ n = omega arith in rw e refl
decode-ones n (suc b) s =
    let e : n + 1 + b ≡ n + suc b = omega arith in decode-ones (n + 1) b s ∙ rw e refl

pub decode-encode : (raw : Bytes) → decode (encode raw) ≡ some raw
decode-encode [] = refl
decode-encode (b ∷ raw) =
    let e : 0 + b ≡ b = omega arith in decode-ones 0 b (encode raw) ∙ rw (decode-encode raw, e) refl

codes_inj : (s t : String) → codes s ≡ codes t → s ≡ t
codes_inj String.[] String.[] h = refl
codes_inj String.[] (String.◌∷◌ d t) h = cc
codes_inj (String.◌∷◌ c s) String.[] h = cc
codes_inj (String.◌∷◌ c s) (String.◌∷◌ d t) h =
    let heads : code c ≡ code d = cc in
    let tails : codes s ≡ codes t = cc in
    let first : c ≡ d = Char-path c d heads in let rest : s ≡ t = codes_inj s t tails in cc

pub encode_inj : (a b : Bytes) → encode a ≡ encode b → a ≡ b
encode_inj a b h =
    let e : some a ≡ some b = sym (decode-encode a) ∙ ap decode h ∙ decode-encode b in cc

-- lists of numbers, one after another, each with its length
abbrev pack : Bytes → Bytes → Bytes
pack a b = length a ∷ a ++ b

pack_inj : (a b c d : Bytes) → pack a b ≡ pack c d → (a ≡ c) × (b ≡ d)
pack_inj a b c d h =
    let n : length a ≡ length c = cc in
    let t : a ++ b ≡ c ++ d = cc in
    (
      sym (take-append a b (length a) refl)
          ∙ ap (take (length a)) t
          ∙ take-append c d (length a) (sym n),
      sym (drop-append a b (length a) refl)
          ∙ ap (drop (length a)) t
          ∙ drop-append c d (length a) (sym n),
    )

abbrev optional : Option String → Bytes
optional none = []
optional (some s) = 1 ∷ codes s

optional_inj : (a b : Option String) → optional a ≡ optional b → a ≡ b
optional_inj none none h = refl
optional_inj none (some t) h = cc
optional_inj (some s) none h = cc
optional_inj (some s) (some t) h = let same : codes s ≡ codes t = cc in ap some (codes_inj s t same)

abbrev pub flat : Bound → Bytes
flat b = pack (codes b.v) (
    pack (optional b.kid) (
      pack (optional b.uid) (
        pack (codes b.captured_at)
          (pack (codes b.camera_id) (pack (codes b.index) (optional b.kem))))))

pub flat_inj : (a b : Bound) → flat a ≡ flat b → a ≡ b
flat_inj a b h =
    let (v, h1) = pack_inj (codes a.v) _ (codes b.v) _ h in
    let (kid, h2) = pack_inj (optional a.kid) _ (optional b.kid) _ h1 in
    let (uid, h3) = pack_inj (optional a.uid) _ (optional b.uid) _ h2 in
    let (captured, h4) = pack_inj (codes a.captured_at) _ (codes b.captured_at) _ h3 in
    let (camera, h5) = pack_inj (codes a.camera_id) _ (codes b.camera_id) _ h4 in
    let (index, kem) = pack_inj (codes a.index) _ (codes b.index) _ h5 in
    let v' = codes_inj a.v b.v v in
    let kid' = optional_inj a.kid b.kid kid in
    let uid' = optional_inj a.uid b.uid uid in
    let captured' = codes_inj a.captured_at b.captured_at captured in
    let camera' = codes_inj a.camera_id b.camera_id camera in
    let index' = codes_inj a.index b.index index in
    let kem' = optional_inj a.kem b.kem kem in
    λ i. record {
      v = v' i;
      kid = kid' i;
      uid = uid' i;
      captured_at = captured' i;
      camera_id = camera' i;
      index = index' i;
      kem = kem' i;
    }

-- the ciphertext holds the associated data
abbrev pub toy_decrypt : Bytes → String → Option Bytes
toy_decrypt [] aad = none
toy_decrypt (n ∷ raw) aad =
    if str_eq (encode (take n raw)) (encode (codes aad)) then some (drop n raw) else none

abbrev pub toy_crypto : Crypto
toy_crypto = record {
  b64encode = encode;
  b64decode = decode;
  p256_point = λ raw. true;
  x25519_point = λ raw. true;
  p256_scalar = λ raw. true;
  x25519_scalar = λ raw. true;
  p256_public = λ raw. raw;
  x25519_public = λ raw. raw;
  p256_exchange = λ a b. (length a + length b) ∷ [];
  x25519_exchange = λ a b. some ((length a + length b) ∷ []);
  hkdf = λ secret info. secret;
  sha256_bytes = λ text raw. glue text (encode raw);
  aes_encrypt = λ key nonce raw aad. pack (codes aad) raw;
  aes_decrypt = λ key nonce raw aad. toy_decrypt raw aad;
}

abbrev pub sample_fields : Fields
sample_fields = record { plate = some "ABC123"; location = some "Main St" }

abbrev pub toy_json : Json
toy_json = record {
  dumps_bound = λ b. encode (flat b);
  dumps_fields = λ f. 7 ∷ [];
  loads_fields = λ raw. some sample_fields;
}

pub toy_opens : (raw : Bytes) (aad : String) → toy_decrypt (pack (codes aad) raw) aad ≡ some raw
toy_opens raw aad = rw (take-append (codes aad) raw (length (codes aad)) refl) (
    rw (str_eq_refl (encode (codes aad)))
      (ap some (drop-append (codes aad) raw (length (codes aad)) refl)))

pub toy_binds :
    (raw : Bytes) (aad aad' : String) → aad ≢ aad' → toy_decrypt (pack (codes aad) raw) aad' ≡ none
toy_binds raw aad aad' other =
    rw (take-append (codes aad) raw (length (codes aad)) refl)
      (elim (Bool-cases (str_eq (encode (codes aad)) (encode (codes aad')))) [
        | inl same ↦ absurd (
            other (
              codes_inj aad aad' (
                encode_inj (codes aad) (codes aad')
                  ((str_eq_iff (encode (codes aad)) (encode (codes aad'))).0 same))))
        | inr differs ↦ rw differs refl
      ])
