-- ===== src/Disclosure/Scope.antt =====
-- What the loop of `disclose` opens: the rows that the approval covers, and nothing else.
use justi_key.Common.{
  ◌≡◌, refl, Bool, true, List, [], ◌∷◌, Option, some, arith, ok, raise, Bool-cases, Option-cases,
  inl, inr, keep, Result-cases, subst,
}
use justi_key.Disclosure.{Row, Fields, Opened, DisclosureError, sealing, reveal}

module _ (opener : Row → Option Fields) where
  -- The two lists correspond, row by row and in order: each entry has the id of its row and the fields
  -- that the opener recovers from it.
  abbrev pub OpensAll : List Row → List Opened → Type 0
  OpensAll [] [] = Unit
  OpensAll [] (o ∷ os) = ⊥
  OpensAll (r ∷ rs) [] = ⊥
  OpensAll (r ∷ rs) (o ∷ os) =
      (opener r ≡ some (record { plate = o.plate; location = o.location }))
      × (o.id ≡ r.id)
      × OpensAll rs os

  reveal_cons :
      (covers : Row → Bool) (r : Row) (rows : List Row) (fields : Fields) (out : List Opened)
      → covers r ≡ true
      → opener r ≡ some fields
      → ((os : List Opened) → reveal opener covers rows ≡ ok os → OpensAll (keep covers rows) os)
      → reveal opener covers (r ∷ rows) ≡ ok out
      → OpensAll (r ∷ keep covers rows) out
  unfolding reveal
  reveal_cons covers r rows fields out c opened ih h =
      elim (Result-cases (reveal opener covers rows)) [
        | inl (e, failed) ↦ absurd (ground arith)
        | inr (rest, found) ↦
            subst (OpensAll (r ∷ keep covers rows)) (reveal_out c opened found h)
              (opened, refl, ih rest found)
      ]
    where
      reveal_out :
          {rest : List Opened}
          → covers r ≡ true
          → opener r ≡ some fields
          → reveal opener covers rows ≡ ok rest
          → reveal opener covers (r ∷ rows) ≡ ok out
          → record { id = r.id; plate = fields.plate; location = fields.location } ∷ rest ≡ out
      reveal_out c opened found h = ground arith

  -- When the loop returns, it returns exactly the covered rows, in their order, each opened.
  pub reveal-OpensAll :
      (covers : Row → Bool) (rows : List Row) (out : List Opened)
      → reveal opener covers rows ≡ ok out
      → OpensAll (keep covers rows) out
  unfolding reveal
  reveal-OpensAll covers [] [] h = tt
  reveal-OpensAll covers [] (o ∷ out) h = cc
  reveal-OpensAll covers (r ∷ rows) out h = elim (Bool-cases (covers r)) [
    | inl in' ↦ elim (Option-cases (opener r)) [
      | inl failed ↦ absurd (ground arith)
      | inr (fields, opened) ↦
          rw in' (reveal_cons covers r rows fields out in' opened (reveal-OpensAll covers rows) h)
    ]
    | inr out' ↦ rw out' (reveal-OpensAll covers rows out (ground arith))
  ]

-- The loop raises only what the opener raises.
pub reveal-raise :
    (opener : Row → Option Fields) (covers : Row → Bool) (rows : List Row) (e : DisclosureError)
    → reveal opener covers rows ≡ raise e
    → e ≡ sealing
unfolding reveal
reveal-raise opener covers [] e h = cc
reveal-raise opener covers (r ∷ rows) e h = ground (arith, reveal-raise opener covers rows e)

-- Rows that are not covered are never opened: the result is the same for any two openers that agree on
-- the covered rows.
pub reveal_agree :
    (f g : Row → Option Fields) (covers : Row → Bool) (rows : List Row)
    → ((r : Row) → covers r ≡ true → f r ≡ g r)
    → reveal f covers rows ≡ reveal g covers rows
unfolding reveal
reveal_agree f g covers [] h = refl
reveal_agree f g covers (r ∷ rows) h = elim (Bool-cases (covers r)) [
  | inl in' ↦ ground (arith, h r in', reveal_agree f g covers rows h)
  | inr out' ↦ ground (arith, reveal_agree f g covers rows h)
]
