-- ===== src/Audit/Tamper.antt =====
-- What the hashes of the ledger bind: the hashed text of every row, but not how that text is divided
-- into columns.
use text.Mathlib.TextLemmas.{append_assoc}
use Prim.Native.String.{◌++◌ as glue}
use justi_key.Common.{
  ℕ, ◌+◌, suc, ◌≡◌, ◌≢◌, ◌⊎◌, inl, inr, arith, Bool-cases, str_eq, str_eq_iff, refl, sym, ap, ◌∙◌,
  String, List, [], ◌∷◌, ◌++◌ as append, length, map,
}
use justi_key.Library.{Library, decimal}
use justi_key.Audit.{
  Entry, Ledger, genesis_hash, intact, entry_payload, payload_of, entry_hash, verify_from,
  verify_chain,
}
use justi_key.Audit.Chain.{IsChain, verify_chain_iff}

-- texts with a bar between each two
unfoldable bars : List String → String
bars [] = ""
bars (s ∷ []) = s
bars (s ∷ t ∷ rest) = glue s (glue "|" (bars (t ∷ rest)))

-- the columns of a row, but for its hash
abbrev pub columns : Entry → List String
columns e = decimal e.seq ∷ e.timestamp ∷ e.event_type ∷ e.actor ∷ e.details ∷ e.prev_hash ∷ []

abbrev pub joined : Entry → String
unfolding bars
joined e = bars (columns e)

payload_of-joined : (e : Entry) → payload_of e ≡ joined e
unfolding entry_payload joined
payload_of-joined e = simp (append_assoc) refl

-- Two rows, at one place of the two ledgers, have joined columns that differ and yet have one digest.
abbrev pub Collide : (String → String) → Ledger → Ledger → Type 0
Collide digest [] ys = ⊥
Collide digest (x ∷ xs) [] = ⊥
Collide digest (x ∷ xs) (y ∷ ys) =
    ((joined x ≢ joined y) × (digest (joined x) ≡ digest (joined y))) ⊎ Collide digest xs ys

module _ (lib : Library) where
  open lib use {sha256}

  hash-joined :
      (x y : Entry)
      → x.hash ≡ sha256 (payload_of x)
      → y.hash ≡ sha256 (payload_of y)
      → x.hash ≡ y.hash
      → sha256 (joined x) ≡ sha256 (joined y)
  hash-joined x y h k same =
      ap sha256 (sym (payload_of-joined x)) ∙ sym h ∙ same ∙ k ∙ ap sha256 (payload_of-joined y)

  chain-joined :
      (prev prev' : String) (seq : ℕ) (xs ys : Ledger)
      → IsChain lib prev seq xs
      → IsChain lib prev' seq ys
      → map (λ (e : Entry). e.hash) xs ≡ map (λ (e : Entry). e.hash) ys
      → (map joined xs ≡ map joined ys) ⊎ Collide sha256 xs ys
  chain-joined prev prev' seq [] [] h k same = inl refl
  chain-joined prev prev' seq [] (y ∷ ys) h k same = cc
  chain-joined prev prev' seq (x ∷ xs) [] h k same = cc
  chain-joined prev prev' seq (x ∷ xs) (y ∷ ys) h k same =
      let heads : x.hash ≡ y.hash = cc in
      let tails : map (λ (e : Entry). e.hash) xs ≡ map (λ (e : Entry). e.hash) ys = cc in
      elim (Bool-cases (str_eq (joined x) (joined y))) [
        | inl eq ↦
            let first : joined x ≡ joined y = (str_eq_iff (joined x) (joined y)).0 eq in
            elim (chain-joined x.hash y.hash (seq + 1) xs ys h.3 k.3 tails) [
              | inl others ↦ inl cc
              | inr found ↦ inr (inr found)
            ]
        | inr other ↦
            let differ : joined x ≢ joined y =
              λ e. absurd (ground (arith, (str_eq_iff (joined x) (joined y)).1 e)) in
            inr (inl (differ, hash-joined x y h.2 k.2 heads))
      ]

  -- The hashes are evidence of what was recorded. If two ledgers both verify and bear the same hashes, then
  -- row by row they bear the same columns joined by bars (the number, the time, the type, the actor, the
  -- details and the previous hash), or at some place their joined columns are two different texts with one
  -- digest.
  pub verify_chain_payloads :
      (xs ys : Ledger) (n m : ℕ)
      → verify_chain lib xs ≡ intact n
      → verify_chain lib ys ≡ intact m
      → map (λ (e : Entry). e.hash) xs ≡ map (λ (e : Entry). e.hash) ys
      → (map joined xs ≡ map joined ys) ⊎ Collide sha256 xs ys
  verify_chain_payloads xs ys n m h k same =
      chain-joined genesis_hash genesis_hash 1 xs ys ((verify_chain_iff lib xs n).0 h).1
        ((verify_chain_iff lib ys m).0 k).1 same

  verify_from-recolumned :
      (total : ℕ) (prev : String) (seq : ℕ) (before after : Ledger) (d e : Entry)
      → d.seq ≡ e.seq
      → d.prev_hash ≡ e.prev_hash
      → d.hash ≡ e.hash
      → payload_of d ≡ payload_of e
      → verify_from lib total prev seq (append before (d ∷ after))
        ≡ verify_from lib total prev seq (append before (e ∷ after))
  unfolding verify_from
  verify_from-recolumned total prev seq [] after d e s p q t =
      let digests : entry_hash lib d ≡ entry_hash lib e = ap sha256 t in
      simp (s, p, q, digests) refl
  verify_from-recolumned total prev seq (b ∷ before) after d e s p q t =
      rw (verify_from-recolumned total b.hash (seq + 1) before after d e s p q t) refl

entry_payload_shift :
    (seq : ℕ) (timestamp event_type actor moved details prev_hash : String)
    → entry_payload seq timestamp event_type (glue actor (glue "|" moved)) details prev_hash
      ≡ entry_payload seq timestamp event_type actor (glue moved (glue "|" details)) prev_hash
unfolding entry_payload
entry_payload_shift seq timestamp event_type actor moved details prev_hash =
    simp (append_assoc) refl

same_size :
    {A : Type 0} (before after : List A) (d e : A)
    → length (append before (d ∷ after)) ≡ length (append before (e ∷ after))
same_size [] after d e = refl
same_size (b ∷ before) after d e = ap suc (same_size before after d e)

-- What the hashes do not bind: the text that is hashed joins its columns with "|", so moving the part
-- of a row's actor that follows a "|" to the front of the row's details, without touching any hash,
-- never changes what `verify_chain` answers.
pub verify_chain_shift :
    (lib : Library) (before after : Ledger) (e : Entry) (actor moved : String)
    → e.actor ≡ glue actor (glue "|" moved)
    → verify_chain lib (append before (e ∷ after))
      ≡ verify_chain lib (
          append before
            (record e { actor = actor; details = glue moved (glue "|" e.details) } ∷ after))
unfolding verify_chain
verify_chain_shift lib before after e actor moved h =
    let e' : Entry = record e { actor = actor; details = glue moved (glue "|" e.details) } in
    rw (same_size before after e e') (
      verify_from-recolumned lib (length (append before (e' ∷ after))) genesis_hash 1 before after e
        e' refl refl refl
        (ap (λ a. entry_payload e.seq e.timestamp e.event_type a e.details e.prev_hash) h
          ∙ entry_payload_shift e.seq e.timestamp e.event_type actor moved e.details e.prev_hash))
