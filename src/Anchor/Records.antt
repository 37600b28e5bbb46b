-- ===== src/Anchor/Records.antt =====
-- The log of checkpoints, as `create_anchor` extends it.
use justi_key.Common.{
  ℕ, ◌+◌, ◌≤◌, max, ◌≡◌, refl, ap, ◌∙◌, String, List, [], ◌∷◌, ◌++◌, none, some, arith, str_eq_iff,
  str_eq_refl, length, Option-cases, inl, inr,
}
use justi_key.Library.{Library}
use justi_key.Audit.{Entry, Ledger, last, genesis_hash}
use justi_key.Audit.Chain.{IsChain}
use justi_key.Anchor.{
  Payload, Anchor, Line, parsed, blank, unparseable, read_from, hash_at, highest, check_points,
  check_links,
}

abbrev pub end_anchor : ℕ → List Anchor → ℕ
end_anchor n [] = n
end_anchor n (a ∷ records) = end_anchor (a.payload.anchor_seq + 1) records

abbrev pub end_link : String → List Anchor → String
end_link h [] = h
end_link h (a ∷ records) = end_link a.hash records

pub end_anchor-last :
    (n : ℕ) (records : List Anchor)
    → elim (last records) [ none ↦ n | some a ↦ a.payload.anchor_seq + 1 ] ≡ end_anchor n records
unfolding last
end_anchor-last n [] = refl
end_anchor-last n (a ∷ []) = refl
end_anchor-last n (a ∷ b ∷ records) = end_anchor-last n (b ∷ records)

pub end_link-last :
    (h : String) (records : List Anchor)
    → elim (last records) [ none ↦ h | some a ↦ a.hash ] ≡ end_link h records
unfolding last
end_link-last h [] = refl
end_link-last h (a ∷ []) = refl
end_link-last h (a ∷ b ∷ records) = end_link-last h (b ∷ records)

pub last-append : {A : Type 0} (xs : List A) (x : A) → last (xs ++ (x ∷ [])) ≡ some x
unfolding last
last-append [] x = refl
last-append (y ∷ []) x = refl
last-append (y ∷ z ∷ xs) x = last-append (z ∷ xs) x

-- One line more, one record more.
pub read_from-append :
    (n : ℕ) (lines : List Line) (a : Anchor)
    → read_from n (lines ++ (parsed a ∷ []))
      ≡ ((read_from n lines).0 ++ (a ∷ []), (read_from n lines).1)
unfolding read_from
read_from-append n [] a = refl
read_from-append n (parsed b ∷ lines) a = rw (read_from-append (n + 1) lines a) refl
read_from-append n (blank ∷ lines) a = read_from-append (n + 1) lines a
read_from-append n (unparseable ∷ lines) a = rw (read_from-append (n + 1) lines a) refl

pub highest-append :
    (records : List Anchor) (a : Anchor)
    → highest (records ++ (a ∷ [])) ≡ max (highest records) a.payload.audit_seq
unfolding highest
highest-append [] a = omega arith
highest-append (b ∷ records) a = omega (arith, highest-append records a)

pub last-highest :
    (records : List Anchor) (a : Anchor)
    → last records ≡ some a
    → a.payload.audit_seq ≤ highest records
unfolding last highest
last-highest [] a h = cc
last-highest (b ∷ []) a h = ground arith
last-highest (b ∷ c ∷ records) a h = omega (arith, last-highest (c ∷ records) a h)

pub check_points-append :
    (rows : Ledger) (records : List Anchor) (a : Anchor)
    → check_points rows records ≡ none
    → hash_at a.payload.audit_seq rows ≡ some a.payload.audit_hash
    → check_points rows (records ++ (a ∷ [])) ≡ none
unfolding check_points
check_points-append rows [] a h found = ground (arith, str_eq_refl a.payload.audit_hash)
check_points-append rows (b ∷ records) a h found =
    ground (arith, check_points-append rows records a)

hash_at-append :
    (seq : ℕ) (rows : Ledger) (e : Entry) (h : String)
    → hash_at seq rows ≡ some h
    → hash_at seq (rows ++ (e ∷ [])) ≡ some h
unfolding hash_at
hash_at-append seq [] e h found = cc
hash_at-append seq (d ∷ rows) e h found = ground (arith, hash_at-append seq rows e h)

-- A ledger that grows keeps what was anchored.
pub check_points-grow :
    (rows : Ledger) (e : Entry) (records : List Anchor)
    → check_points rows records ≡ none
    → check_points (rows ++ (e ∷ [])) records ≡ none
unfolding check_points
check_points-grow rows e [] h = refl
check_points-grow rows e (a ∷ records) h = elim (Option-cases (hash_at a.payload.audit_seq rows)) [
  | inl gone ↦ absurd (ground arith)
  | inr (x, found) ↦
      ground
        (arith, hash_at-append a.payload.audit_seq rows e x found, check_points-grow rows e records)
]

module _ (lib : Library) (dumps : Payload → String) (key : String) where
  open lib use {sha256, hmac_sha256}

  pub check_links-append :
      (prev : String) (n : ℕ) (records : List Anchor) (a : Anchor)
      → check_links lib dumps key prev n records ≡ none
      → a.payload.anchor_seq ≡ end_anchor n records
      → a.payload.prev_anchor_hash ≡ end_link prev records
      → a.hash ≡ sha256 (dumps a.payload)
      → a.mac ≡ hmac_sha256 key (dumps a.payload)
      → check_links lib dumps key prev n (records ++ (a ∷ [])) ≡ none
  unfolding check_links
  check_links-append prev n [] a h s p d m = ground (
    arith,
    str_eq_iff a.payload.prev_anchor_hash prev,
    str_eq_iff (sha256 (dumps a.payload)) a.hash,
    str_eq_iff (hmac_sha256 key (dumps a.payload)) a.mac,
  )
  check_links-append prev n (b ∷ records) a h s p d m =
      let same : b.payload.anchor_seq ≡ n = ground arith in
      let rest : check_links lib dumps key b.hash (n + 1) records ≡ none = ground arith in
      let ih =
        check_links-append b.hash (n + 1) records a rest
          (s ∙ ap (λ k. end_anchor (k + 1) records) same) p d m in
      ground (arith, ih)

  head_of_chain :
      (prev : String) (n : ℕ) (rows : Ledger) (e : Entry)
      → IsChain lib prev (n + 1) rows
      → last rows ≡ some e
      → (hash_at e.seq rows ≡ some e.hash) × (e.seq ≡ n + length rows)
  unfolding hash_at last
  head_of_chain prev n [] e chain h = cc
  head_of_chain prev n (d ∷ []) e (s, p, q, chain) h = (ground arith, ground arith)
  head_of_chain prev n (d ∷ c ∷ rows) e (s, p, q, chain) h =
      let (found, size) = head_of_chain d.hash (n + 1) (c ∷ rows) e chain h in
      (ground arith, omega arith)

  -- the head of a chain holds its own hash
  pub hash_at-head :
      (rows : Ledger) (e : Entry)
      → IsChain lib genesis_hash 1 rows
      → last rows ≡ some e
      → (hash_at e.seq rows ≡ some e.hash) × (e.seq ≡ length rows)
  hash_at-head rows e chain h =
      let (found, size) = head_of_chain genesis_hash 0 rows e chain h in (found, omega arith)
