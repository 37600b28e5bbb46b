-- ===== src/Enclave/Ending.antt =====
-- The loop of `_children` (justikey/enclave.py) on arbitrary bytes: it ends, and its fuel is enough.
use justi_key.Common.{
  ℕ, zero, suc, ◌+◌, ◌<◌, ◌≤◌, ◌≡◌, ◌≢◌, refl, ◌∷◌, ok, raise, arith, ltb, length, raise_if,
  Bool-cases, Result, Result-cases, ap, ◌∙◌, ◌>>=◌, inl, inr, >>=-eq-ok, >>-eq-ok,
}
use justi_key.Kem.{Bytes}
use justi_key.Enclave.{
  EnclaveError, byte_at, truncated, past_end, unfinished, read_length, read_tlv, children_from,
  children,
}

read_length-start :
    (raw : Bytes) (offset length_byte size start : ℕ)
    → read_length raw offset length_byte ≡ ok (size, start)
    → offset ≤ start
unfolding read_length
read_length-start raw offset length_byte size start h = ground arith

read_length-raise :
    (raw : Bytes) (offset length_byte : ℕ) → read_length raw offset length_byte ≢ raise unfinished
unfolding read_length
read_length-raise raw offset length_byte h = ground arith

-- An element takes at least two bytes, and ends within the bytes.
pub read_tlv-le :
    (raw body : Bytes) (offset tag next : ℕ)
    → read_tlv raw offset ≡ ok (tag, body, next)
    → (offset + 2 ≤ next) × (next ≤ length raw)
unfolding read_tlv
read_tlv-le raw body offset tag next h =
    let (_, h1) = >>-eq-ok (raise_if (ltb (length raw) (offset + 2)) truncated) _ h in
    let ((size, start), read, h2) =
      >>=-eq-ok (read_length raw (offset + 2) (byte_at raw (offset + 1))) _ h1 in
    let (fits, h3) = >>-eq-ok (raise_if (ltb (length raw) (start + size)) past_end) _ h2 in
    let behind = read_length-start raw (offset + 2) (byte_at raw (offset + 1)) size start read in
    let last : start + size ≡ next = ground arith in
    let inside : start + size ≤ length raw = ground arith in
    (omega (arith, behind, last), omega (arith, inside, last))

read_tlv-raise : (raw : Bytes) (offset : ℕ) → read_tlv raw offset ≢ raise unfinished
unfolding read_tlv
read_tlv-raise raw offset h =
    elim (Result-cases (read_length raw (offset + 2) (byte_at raw (offset + 1)))) [
      | inl (e, failed) ↦
          let other : e ≢ unfinished = λ same.
            read_length-raise raw (offset + 2) (byte_at raw (offset + 1))
              (failed ∙ ap raise same) in
          ground (arith, other)
      | inr ((size, start), read) ↦ ground arith
    ]

same_error :
    {A B : Type 0} {e e' : EnclaveError}
    → Path (Result EnclaveError A) (raise e) (raise e')
    → Path (Result EnclaveError B) (raise e) (raise e')
same_error h = cc

>>=-ok_ends :
    {A B : Type 0} (r : Result EnclaveError A) (f : A → B)
    → r ≢ raise unfinished
    → (r >>= λ a. ok (f a)) ≢ raise unfinished
>>=-ok_ends (ok a) f h k = cc
>>=-ok_ends (raise e) f h k = h (same_error k)

children_from-ends :
    (f g : ℕ) (content : Bytes) (offset : ℕ)
    → offset ≤ length content
    → length content < offset + f
    → length content < offset + g
    → (children_from f content offset ≡ children_from g content offset)
      × (children_from f content offset ≢ raise unfinished)
unfolding children_from
children_from-ends zero g content offset within f-enough g-enough =
    absurd (omega (arith, within, f-enough))
children_from-ends (suc f) zero content offset within f-enough g-enough =
    absurd (omega (arith, within, g-enough))
children_from-ends (suc f) (suc g) content offset within f-enough g-enough =
    elim (Bool-cases (ltb offset (length content))) [
      | inr done ↦ rw done (refl, λ h. cc)
      | inl more ↦ elim (Result-cases (read_tlv content offset)) [
        | inl (e, failed) ↦
            rw (more, failed)
              (refl, λ same. read_tlv-raise content offset (failed ∙ same_error same))
        | inr ((tag, body, next), read) ↦
            let (behind, inside) = read_tlv-le content body offset tag next read in
            let (same, ends) =
              children_from-ends f g content next inside (omega (arith, behind, f-enough))
                (omega (arith, behind, g-enough)) in
            rw (more, read)
              (
                ap (λ r. r >>= λ rest. ok ((tag, body) ∷ rest)) same,
                >>=-ok_ends (children_from f content next) (λ rest. (tag, body) ∷ rest) ends,
              )
      ]
    ]

-- The loop over the elements ends on every content, well formed or not: its fuel, one more than the number
-- of bytes, never runs out, and with any larger fuel it answers the same.
pub children-ends :
    (fuel : ℕ) (content : Bytes)
    → length content < fuel
    → (children content ≡ children_from fuel content 0) × (children content ≢ raise unfinished)
unfolding children
children-ends fuel content enough =
    children_from-ends (suc (length content)) fuel content 0 (omega arith) (omega arith)
      (omega (arith, enough))
