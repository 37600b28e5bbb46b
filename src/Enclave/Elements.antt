-- ===== src/Enclave/Elements.antt =====
-- The elements that `_read_tlv` and `_children` of justikey/enclave.py read, and their standard encoding.
use justi_key.Common.{
  ℕ, zero, suc, ◌+◌, ◌-◌, ◌*◌, ◌/◌, ◌%◌, ◌<◌, ◌≤◌, ◌≡◌, refl, sym, ap, ◌∙◌, true, false, List, [],
  ◌∷◌, ◌++◌, ok, arith, if◌then◌else◌, ltb, length, drop, length-append, take-append, All,
  Bool-cases, inl, inr, subst,
}
use justi_key.Kem.{Bytes}
use justi_key.Enclave.{Item, byte_at, slice, read_length, read_tlv, children_from, children}

-- the definite length of DER, up to two bytes of it
abbrev pub encode_length : ℕ → Bytes
encode_length n =
    if ltb n 128 then n ∷ [] else if ltb n 256 then 129 ∷ n ∷ [] else 130 ∷ n / 256 ∷ n % 256 ∷ []

unfoldable pub element : Item → Bytes
element (tag, body) = tag ∷ encode_length (length body) ++ body

unfoldable pub elements : List Item → Bytes
elements [] = []
elements (item ∷ items) = element item ++ elements items

-- a content of at most 65,535 bytes
abbrev pub IsShort : Item → Type 0
IsShort (tag, body) = length body < 65536

byte_at-append : (pre x : Bytes) (i : ℕ) → byte_at (pre ++ x) (length pre + i) ≡ byte_at x i
byte_at-append [] x i = ap (byte_at x) (omega arith)
byte_at-append (b ∷ pre) x i =
    let e : length (b ∷ pre) + i ≡ suc (length pre + i) = omega arith in
    rw e (byte_at-append pre x i)

drop_further : (pre x : Bytes) (i : ℕ) → drop (length pre + i) (pre ++ x) ≡ drop i x
drop_further [] x i = ap (λ n. drop n x) (omega arith)
drop_further (b ∷ pre) x i =
    let e : length (b ∷ pre) + i ≡ suc (length pre + i) = omega arith in rw e (drop_further pre x i)

-- what lies `i` bytes after a prefix, before a rest
slice-append :
    (pre skip body rest : Bytes) (start end : ℕ)
    → start ≡ length pre + length skip
    → end ≡ start + length body
    → slice (pre ++ (skip ++ (body ++ rest))) start end ≡ body
slice-append pre skip body rest start end hs he =
    let size : end - start ≡ length body = omega (arith, he) in
    let further : drop start (pre ++ (skip ++ (body ++ rest)))
        ≡ drop (length skip) (skip ++ (body ++ rest)) =
      rw hs (drop_further pre (skip ++ (body ++ rest)) (length skip)) in
    let e : length skip + 0 ≡ length skip = omega arith in
    let skipped : drop (length skip) (skip ++ (body ++ rest)) ≡ body ++ rest =
      rw (sym e) (drop_further skip (body ++ rest) 0) in
    rw (size, further, skipped) (take-append body rest (length body) refl)

read_tlv_at :
    (raw body : Bytes) (offset tag size start : ℕ)
    → offset + 2 ≤ length raw
    → read_length raw (offset + 2) (byte_at raw (offset + 1)) ≡ ok (size, start)
    → start + size ≤ length raw
    → byte_at raw offset ≡ tag
    → slice raw start (start + size) ≡ body
    → read_tlv raw offset ≡ ok (tag, body, start + size)
unfolding read_tlv
read_tlv_at raw body offset tag size start room read fits first content =
    let a : ltb (length raw) (offset + 2) ≡ false = ground (arith, room) in
    let b : ltb (length raw) (start + size) ≡ false = ground (arith, fits) in
    rw a (rw read (rw b (rw (first, content) refl)))

-- The three forms of a length, read back: one byte, or 129 or 130 and so many bytes more.
read_one :
    (pre more : Bytes) (tag n : ℕ)
    → n < 128
    → read_length
        (pre ++ (tag ∷ n ∷ more))
        (length pre + 2)
        (byte_at (pre ++ (tag ∷ n ∷ more)) (length pre + 1))
      ≡ ok (n, length pre + 2)
unfolding read_length
read_one pre more tag n small =
    let byte : byte_at (pre ++ (tag ∷ n ∷ more)) (length pre + 1) ≡ n =
      byte_at-append pre (tag ∷ n ∷ more) 1 in
    let test : ltb n 128 ≡ true = ground (arith, small) in rw byte (rw test refl)

-- the whole of the bytes is as long as its parts
length_whole :
    (pre skip more : Bytes)
    → length (pre ++ (skip ++ more)) ≡ length pre + (length skip + length more)
length_whole pre skip more =
    length-append pre (skip ++ more) ∙ ap (λ n. length pre + n) (length-append skip more)

read_two :
    (pre more : Bytes) (tag n : ℕ)
    → read_length
        (pre ++ (tag ∷ 129 ∷ n ∷ more))
        (length pre + 2)
        (byte_at (pre ++ (tag ∷ 129 ∷ n ∷ more)) (length pre + 1))
      ≡ ok (n, length pre + 3)
unfolding read_length
read_two pre more tag n =
    let raw = pre ++ (tag ∷ 129 ∷ n ∷ more) in
    let byte : byte_at raw (length pre + 1) ≡ 129 = byte_at-append pre (tag ∷ 129 ∷ n ∷ more) 1 in
    let whole = length_whole pre (tag ∷ 129 ∷ n ∷ []) more in
    let fits : ltb (length raw) (length pre + 2 + 1) ≡ false = ground (arith, whole) in
    let part : slice raw (length pre + 2) (length pre + 2 + 1) ≡ n ∷ [] =
      slice-append pre (tag ∷ 129 ∷ []) (n ∷ []) more (length pre + 2) (length pre + 2 + 1) refl
        refl in
    let e : 0 * 256 + n ≡ n = omega arith in
    let at : length pre + 2 + 1 ≡ length pre + 3 = omega arith in
    rw byte (rw fits (rw part (ap ok (rw (e, at) refl))))

read_three :
    (pre more : Bytes) (tag a b : ℕ)
    → read_length
        (pre ++ (tag ∷ 130 ∷ a ∷ b ∷ more))
        (length pre + 2)
        (byte_at (pre ++ (tag ∷ 130 ∷ a ∷ b ∷ more)) (length pre + 1))
      ≡ ok (a * 256 + b, length pre + 4)
unfolding read_length
read_three pre more tag a b =
    let raw = pre ++ (tag ∷ 130 ∷ a ∷ b ∷ more) in
    let byte : byte_at raw (length pre + 1) ≡ 130 =
      byte_at-append pre (tag ∷ 130 ∷ a ∷ b ∷ more) 1 in
    let whole = length_whole pre (tag ∷ 130 ∷ a ∷ b ∷ []) more in
    let fits : ltb (length raw) (length pre + 2 + 2) ≡ false = ground (arith, whole) in
    let part : slice raw (length pre + 2) (length pre + 2 + 2) ≡ a ∷ b ∷ [] =
      slice-append pre (tag ∷ 130 ∷ []) (a ∷ b ∷ []) more (length pre + 2) (length pre + 2 + 2) refl
        refl in
    let e : (0 * 256 + a) * 256 + b ≡ a * 256 + b = omega arith in
    let at : length pre + 2 + 2 ≡ length pre + 4 = omega arith in
    rw byte (rw fits (rw part (ap ok (rw (e, at) refl))))

-- An element is read where its length is: `skip` is its tag and its length.
read_tlv-skip :
    (pre skip body rest : Bytes) (tag : ℕ)
    → 2 ≤ length skip
    → byte_at skip 0 ≡ tag
    → read_length
        (pre ++ (skip ++ (body ++ rest)))
        (length pre + 2)
        (byte_at (pre ++ (skip ++ (body ++ rest))) (length pre + 1))
      ≡ ok (length body, length pre + length skip)
    → read_tlv (pre ++ (skip ++ (body ++ rest))) (length pre)
      ≡ ok (tag, body, length pre + length skip + length body)
read_tlv-skip pre [] body rest tag two first read = absurd (omega (arith, two))
read_tlv-skip pre (b ∷ skip) body rest tag two first read =
    let raw = pre ++ ((b ∷ skip) ++ (body ++ rest)) in
    let whole = length_whole pre (b ∷ skip) (body ++ rest) in
    let inner = length-append body rest in
    let start = length pre + length (b ∷ skip) in
    let e : length pre + 0 ≡ length pre = omega arith in
    let lead : byte_at raw (length pre) ≡ tag =
      rw (sym e) (byte_at-append pre ((b ∷ skip) ++ (body ++ rest)) 0) ∙ first in
    read_tlv_at raw body (length pre) tag (length body) start (omega (arith, whole, two)) read
      (omega (arith, whole, inner)) lead
      (slice-append pre (b ∷ skip) body rest start (start + length body) refl refl)

append_assoc : (a b c : Bytes) → (a ++ b) ++ c ≡ a ++ (b ++ c)
append_assoc [] b c = refl
append_assoc (x ∷ a) b c = ap (λ t. x ∷ t) (append_assoc a b c)

pub append_nil : (a : Bytes) → a ++ [] ≡ a
append_nil [] = refl
append_nil (x ∷ a) = ap (λ t. x ∷ t) (append_nil a)

-- An element after any prefix and before any rest is read whole, and the reader then stands behind it.
pub read_tlv-element :
    (pre rest body : Bytes) (tag : ℕ)
    → IsShort (tag, body)
    → read_tlv (pre ++ (element (tag, body) ++ rest)) (length pre)
      ≡ ok (tag, body, length pre + length (element (tag, body)))
unfolding element
read_tlv-element pre rest body tag short = elim (Bool-cases (ltb (length body) 128)) [
  | inl one ↦
      let read = read_one pre (body ++ rest) tag (length body) (ground arith) in
      let size : length pre + 2 + length body ≡ length pre + suc (suc (length body)) =
        omega arith in
      rw one (
        read_tlv-skip pre (tag ∷ length body ∷ []) body rest tag (omega arith) refl read
        ∙ ap (λ n. ok (tag, body, n)) size)
  | inr more ↦ elim (Bool-cases (ltb (length body) 256)) [
    | inl two ↦
        let read = read_two pre (body ++ rest) tag (length body) in
        let size : length pre + 3 + length body ≡ length pre + suc (suc (suc (length body))) =
          omega arith in
        rw (more, two)
          (read_tlv-skip pre (tag ∷ 129 ∷ length body ∷ []) body rest tag (omega arith) refl read
            ∙ ap (λ n. ok (tag, body, n)) size)
    | inr three ↦
        let a = length body / 256 in
        let b = length body % 256 in
        let e : a * 256 + b ≡ length body = omega arith in
        let read = read_three pre (body ++ rest) tag a b ∙ ap (λ n. ok (n, length pre + 4)) e in
        let size : length pre + 4 + length body ≡ length pre + suc (suc (suc (suc (length body)))) =
          omega arith in
        rw (more, three)
          (read_tlv-skip pre (tag ∷ 130 ∷ a ∷ b ∷ []) body rest tag (omega arith) refl read
            ∙ ap (λ n. ok (tag, body, n)) size)
  ]
]

length-element_pos : (tag : ℕ) (body : Bytes) → 0 < length (element (tag, body))
unfolding element
length-element_pos tag body = omega arith

children_from-elements :
    (items : List Item) (pre : Bytes) (fuel : ℕ)
    → All IsShort items
    → length (elements items) < fuel
    → children_from fuel (pre ++ elements items) (length pre) ≡ ok items
unfolding children_from elements
children_from-elements items pre zero short enough = absurd (omega (arith, enough))
children_from-elements [] pre (suc fuel) short enough =
    let e : length (pre ++ []) ≡ length pre = ap length (append_nil pre) in
    let done : ltb (length pre) (length (pre ++ [])) ≡ false = ground (arith, e) in rw done refl
children_from-elements ((tag, body) ∷ items) pre (suc fuel) short enough =
    let item = element (tag, body) in
    let whole = length_whole pre item (elements items) in
    let inner = length-append item (elements items) in
    let size = length-append pre item in
    let more : ltb (length pre) (length (pre ++ (item ++ elements items))) ≡ true =
      ground (arith, whole, length-element_pos tag body) in
    let enough' : length (item ++ elements items) < suc fuel = enough in
    let read = read_tlv-element pre (elements items) body tag short.0 in
    let rest =
      children_from-elements items (pre ++ item) fuel short.1
        (omega (arith, enough', inner, length-element_pos tag body)) in
    let again : children_from fuel (pre ++ (item ++ elements items)) (length pre + length item)
        ≡ ok items =
      rw (sym size, sym (append_assoc pre item (elements items))) rest in
    rw more (rw read (rw again refl))

length-element : (tag : ℕ) (body : Bytes) → length (element (tag, body)) ≤ length body + 4
unfolding element
length-element tag body = elim (Bool-cases (ltb (length body) 128)) [
  | inl one ↦ rw one (omega arith)
  | inr more ↦ elim (Bool-cases (ltb (length body) 256)) [
    | inl two ↦ rw (more, two) (omega arith)
    | inr three ↦ rw (more, three) (omega arith)
  ]
]

pub length-element_le :
    (tag n : ℕ) (body : Bytes) → length body ≤ n → length (element (tag, body)) ≤ n + 4
length-element_le tag n body h = omega (arith, h, length-element tag body)

pub length-elements_nil : length (elements []) ≤ 0
unfolding elements
length-elements_nil = omega arith

pub length-elements_le :
    (tag n m : ℕ) (body : Bytes) (items : List Item)
    → length body ≤ n
    → length (elements items) ≤ m
    → length (elements ((tag, body) ∷ items)) ≤ n + 4 + m
unfolding elements
length-elements_le tag n m body items h k =
    omega
      (arith, h, k, length-element tag body, length-append (element (tag, body)) (elements items))

-- an element that stands alone
pub read_tlv-whole :
    (tag : ℕ) (body : Bytes)
    → IsShort (tag, body)
    → read_tlv (element (tag, body)) 0 ≡ ok (tag, body, 0 + length (element (tag, body)))
read_tlv-whole tag body short =
    subst (λ (raw : Bytes). read_tlv raw 0 ≡ ok (tag, body, 0 + length (element (tag, body))))
      (append_nil (element (tag, body))) (read_tlv-element [] [] body tag short)

-- The standard encoding of a list of elements, whatever their tags, with contents of at most 65,535 bytes
-- each, is read back as that list, in order; the loop ends within its fuel.
pub children-elements :
    (items : List Item) → All IsShort items → children (elements items) ≡ ok items
unfolding children
children-elements items short =
    children_from-elements items [] (suc (length (elements items))) short (omega arith)
