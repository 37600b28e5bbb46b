-- ===== src/Witness.antt =====
-- scripts/witness_server.py: the independent witness of checkpoints. The store is its lines in order,
-- each a checkpoint; the HTTP handler, which checks that a body has every field, is not modelled.
use justi_key.Common.{
  ℕ, ◌≡◌, ◌≢◌, refl, true, List, [], ◌∷◌, ◌++◌, Option, none, some, str_eq, ◌==◌, if◌then◌else◌, ap,
  sym, ◌∙◌, str_eq_iff, arith, Option-cases, Bool-cases, inl, inr,
}
use justi_key.Anchor.{Anchor}

-- the answers 201, 200 and 409
pub data Answer : Type 0 where
  recorded duplicate conflict : Answer

-- {a["anchor_seq"]: a for a in existing}[seq]: of two with one number, the later counts
unfoldable pub by_seq : ℕ → List Anchor → Option Anchor
by_seq seq [] = none
by_seq seq (a ∷ existing) = elim (by_seq seq existing) [
  | some b ↦ some b
  | none ↦ if a.payload.anchor_seq == seq then some a else none
]

unfoldable pub record_anchor : List Anchor → Anchor → List Anchor × Answer
record_anchor existing anchor = elim (by_seq anchor.payload.anchor_seq existing) [
  | some held ↦ if str_eq held.hash anchor.hash then (existing, duplicate) else (existing, conflict)
  | none ↦ (existing ++ (anchor ∷ []), recorded)
]

-- any submissions, one after another (the handler holds a lock)
unfoldable pub submit : List Anchor → List Anchor → List Anchor
submit existing [] = existing
submit existing (a ∷ submitted) = submit (record_anchor existing a).0 submitted

by_seq-append :
    (seq : ℕ) (existing : List Anchor) (a : Anchor)
    → by_seq seq (existing ++ (a ∷ []))
      ≡ (if a.payload.anchor_seq == seq then some a else by_seq seq existing)
unfolding by_seq
by_seq-append seq [] a = refl
by_seq-append seq (c ∷ existing) a = elim (Bool-cases (a.payload.anchor_seq == seq)) [
  | inl same ↦ rw (by_seq-append seq existing a, same) refl
  | inr other ↦ rw (by_seq-append seq existing a, other) refl
]

record_anchor-new :
    (existing : List Anchor) (a : Anchor)
    → by_seq a.payload.anchor_seq existing ≡ none
    → record_anchor existing a ≡ (existing ++ (a ∷ []), recorded)
unfolding record_anchor
record_anchor-new existing a new = rw (new, record_anchor) refl

record_anchor-held :
    (existing : List Anchor) (a c : Anchor)
    → by_seq a.payload.anchor_seq existing ≡ some c
    → record_anchor existing a ≡ (existing, if str_eq c.hash a.hash then duplicate else conflict)
unfolding record_anchor
record_anchor-held existing a c held = elim (Bool-cases (str_eq c.hash a.hash)) [
  | inl same ↦ rw (held, record_anchor, same) refl
  | inr other ↦ rw (held, record_anchor, other) refl
]

-- What is held under a number stays.
record_anchor-keeps :
    (seq : ℕ) (existing : List Anchor) (a b : Anchor)
    → by_seq seq existing ≡ some b
    → by_seq seq (record_anchor existing a).0 ≡ some b
record_anchor-keeps seq existing a b held =
    elim (Option-cases (by_seq a.payload.anchor_seq existing)) [
      | inl new ↦ rw (record_anchor-new existing a new) (
          by_seq-append seq existing a ∙ elim (Bool-cases (a.payload.anchor_seq == seq)) [
            | inl same ↦ absurd (clash same new)
            | inr other ↦ rw other held
          ])
      | inr (c, found) ↦ rw (record_anchor-held existing a c found) held
    ]
  where
    clash : (a.payload.anchor_seq == seq) ≡ true → by_seq a.payload.anchor_seq existing ≡ none → ⊥
    clash same new =
        let e : a.payload.anchor_seq ≡ seq = ground arith in
        let gone : by_seq seq existing ≡ none = ap (λ k. by_seq k existing) (sym e) ∙ new in cc

submit-keeps :
    (seq : ℕ) (existing submitted : List Anchor) (b : Anchor)
    → by_seq seq existing ≡ some b
    → by_seq seq (submit existing submitted) ≡ some b
unfolding submit
submit-keeps seq existing [] b held = held
submit-keeps seq existing (a ∷ submitted) b held =
    submit-keeps seq (record_anchor existing a).0 submitted b
      (record_anchor-keeps seq existing a b held)

-- What an answer other than a conflict promises: under the number of the checkpoint, the witness now
-- holds a checkpoint with its hash.
record_anchor-holds :
    (existing : List Anchor) (a : Anchor)
    → (record_anchor existing a).1 ≢ conflict
    → (b : Anchor) × (by_seq a.payload.anchor_seq (record_anchor existing a).0 ≡ some b)
      × (b.hash ≡ a.hash)
record_anchor-holds existing a taken = elim (Option-cases (by_seq a.payload.anchor_seq existing)) [
  | inl new ↦
      rw (record_anchor-new existing a new)
        (a, by_seq-append a.payload.anchor_seq existing a ∙ ground arith, refl)
  | inr (c, found) ↦ elim (Bool-cases (str_eq c.hash a.hash)) [
    | inl same ↦
        rw (record_anchor-held existing a c found) (c, found, (str_eq_iff c.hash a.hash).0 same)
    | inr other ↦ absurd (taken (rw (record_anchor-held existing a c found, other) refl))
  ]
]

-- What the witness has once taken cannot be replaced. After a submission that is not answered as a
-- conflict, and any further submissions, a checkpoint with the same number leaves the store as it is:
-- it is answered as a duplicate when it has the hash that was witnessed, and as a conflict otherwise.
pub submit_no_rewrite :
    (existing submitted : List Anchor) (a later : Anchor)
    → (record_anchor existing a).1 ≢ conflict
    → later.payload.anchor_seq ≡ a.payload.anchor_seq
    → record_anchor (submit (record_anchor existing a).0 submitted) later ≡ (
      submit (record_anchor existing a).0 submitted,
      if str_eq a.hash later.hash then duplicate else conflict,
    )
submit_no_rewrite existing submitted a later taken same =
    let (b, held, hash) = record_anchor-holds existing a taken in
    let s = submit (record_anchor existing a).0 submitted in
    let kept : by_seq later.payload.anchor_seq s ≡ some b =
      rw same (submit-keeps a.payload.anchor_seq (record_anchor existing a).0 submitted b held) in
    record_anchor-held s later b kept
    ∙ ap (λ h. (s, if str_eq h later.hash then duplicate else conflict)) hash
