-- ===== src/Review/Decisions.antt =====
-- A decision is taken once, by another person than asked, and stands.
use justi_key.Common.{
  ℕ, ◌+◌, ◌≤◌, ◌≡◌, ◌≢◌, refl, ap, sym, ◌∙◌, Bool, true, false, String, List, [], ◌∷◌, ◌++◌, Option,
  none, some, str_eq_iff, ◌==◌, if◌then◌else◌, Result, ok, raise, All, arith, Bool-cases, inl, inr,
  ◌⊎◌, map_option, some_or, ◌>>=◌,
}
use justi_key.Library.{Library}
use justi_key.Approvals.{AuthRow, User}
use justi_key.Review.{
  ReviewError, not_found, get_authorization, update_where, is_reviewable, review_result,
  approved_row, denied_row, deny_authorization, record_disclosure, create_authorization,
  approval_signature, write_approval, approve_authorization, Step, create, approve, deny, disclosed,
}

-- An update that keeps ids acts on the row of an id, if it is chosen.
pub get-update :
    (chosen : AuthRow → Bool) (change : AuthRow → AuthRow) (auth_id : ℕ) (rows : List AuthRow)
    → ((r : AuthRow) → (change r).id ≡ r.id)
    → get_authorization auth_id (update_where chosen change rows).0
      ≡ map_option (λ r. if chosen r then change r else r) (get_authorization auth_id rows)
unfolding get_authorization update_where
get-update chosen change auth_id [] keeps = refl
get-update chosen change auth_id (row ∷ rows) keeps =
    let ih = get-update chosen change auth_id rows keeps in
    let id' : ((change row).id == auth_id) ≡ (row.id == auth_id) =
      ap (λ k. k == auth_id) (keeps row) in
    elim (Bool-cases (chosen row)) [
      | inl picked ↦ elim (Bool-cases (row.id == auth_id)) [
        | inl same ↦ rw (picked, id', same, picked) refl
        | inr other ↦ rw (picked, id', other) ih
      ]
      | inr left ↦ elim (Bool-cases (row.id == auth_id)) [
        | inl same ↦ rw (left, same, left) refl
        | inr other ↦ rw (left, other) ih
      ]
    ]

update-All :
    (P : AuthRow → Type 0) (chosen : AuthRow → Bool) (change : AuthRow → AuthRow)
    (rows : List AuthRow)
    → ((r : AuthRow) → chosen r ≡ true → P r → P (change r))
    → All P rows
    → All P (update_where chosen change rows).0
unfolding update_where
update-All P chosen change [] keeps h = tt
update-All P chosen change (row ∷ rows) keeps (p, h) = elim (Bool-cases (chosen row)) [
  | inl picked ↦ rw picked (keeps row picked p, update-All P chosen change rows keeps h)
  | inr left ↦ rw left (p, update-All P chosen change rows keeps h)
]

get-append :
    (auth_id : ℕ) (rows rest : List AuthRow) (r : AuthRow)
    → get_authorization auth_id rows ≡ some r
    → get_authorization auth_id (rows ++ rest) ≡ some r
unfolding get_authorization
get-append auth_id [] rest r h = cc
get-append auth_id (row ∷ rows) rest r h = ground (arith, get-append auth_id rows rest r)

append-All :
    (P : AuthRow → Type 0) (rows : List AuthRow) (r : AuthRow)
    → All P rows
    → P r
    → All P (rows ++ (r ∷ []))
append-All P [] r h p = (p, tt)
append-All P (row ∷ rows) r (q, h) p = (q, append-All P rows r h p)

-- A row as it stood, but for its count, which may have grown.
abbrev pub Stands : AuthRow → AuthRow → Type 0
Stands r r' =
    (record r' { disclosure_count = r.disclosure_count } ≡ r)
    × (r.disclosure_count ≤ r'.disclosure_count)

-- A review does not choose a row that is decided.
review-decided :
    (a b auth_id : ℕ) (change : AuthRow → AuthRow) (rows : List AuthRow) (r : AuthRow)
    → ((r : AuthRow) → (change r).id ≡ r.id)
    → get_authorization auth_id rows ≡ some r
    → r.status ≢ "pending"
    → get_authorization auth_id (update_where (is_reviewable a b) change rows).0 ≡ some r
review-decided a b auth_id change rows r keeps found decided =
    get-update (is_reviewable a b) change auth_id rows keeps ∙ rw found (rw left refl)
  where
    left : is_reviewable a b r ≡ false
    left = unfold is_reviewable in ground (arith, str_eq_iff r.status "pending", decided)

-- The rule of two persons, on one row: nobody decides what they asked for, and a row that is not
-- decided bears no approver.
abbrev pub IsReviewed : AuthRow → Type 0
IsReviewed r =
    ((r.status ≡ "pending") × (r.approved_by ≡ none))
    ⊎ (((r.status ≡ "approved") ⊎ (r.status ≡ "denied"))
        × ((by : ℕ) × (r.approved_by ≡ some by) × (by ≢ r.requested_by)))

-- whom a review may choose
reviewable-other : (a b : ℕ) (r : AuthRow) → is_reviewable a b r ≡ true → b ≢ r.requested_by
unfolding is_reviewable
reviewable-other a b r chosen same = ground arith

module _ (lib : Library) (sign : String → String → String) (user : ℕ → Option User) where
  unfoldable pub apply : List AuthRow → Step → List AuthRow
  apply rows (create ask) = create_authorization lib sign user rows ask
  apply rows (approve auth_id approver key at expires) =
      (approve_authorization lib sign user rows auth_id approver key at expires).0
  apply rows (deny auth_id approver reason now) =
      (deny_authorization rows auth_id approver reason now).0
  apply rows (disclosed auth_id) = (record_disclosure rows auth_id).0

  unfoldable pub run : List AuthRow → List Step → List AuthRow
  unfolding apply
  run rows [] = rows
  run rows (s ∷ steps) = run (apply rows s) steps

  apply-Stands :
      (auth_id : ℕ) (rows : List AuthRow) (r : AuthRow) (s : Step)
      → get_authorization auth_id rows ≡ some r
      → r.status ≢ "pending"
      → (r' : AuthRow) × (get_authorization auth_id (apply rows s) ≡ some r') × Stands r r'
  unfolding apply create_authorization approve_authorization deny_authorization record_disclosure
      review_result
  apply-Stands auth_id rows r (create ask) found decided =
      (r, get-append auth_id rows _ r found, (refl, omega arith))
  apply-Stands auth_id rows r (approve a b key at expires) found decided = (
    r,
    written (
        some_or (get_authorization a rows) not_found >>= λ row.
        approval_signature lib sign user row b key at expires),
    (refl, omega arith),
  )
    where
      written :
          (m : Result ReviewError (Option String))
          → get_authorization auth_id (write_approval lib sign user rows a b at expires m).0
            ≡ some r
      written (raise e) = unfold write_approval in found
      written (ok signature) =
          unfold write_approval in
          review-decided a b auth_id (approved_row b at expires signature) rows r (λ x. refl) found
            decided
  apply-Stands auth_id rows r (deny a b reason now) found decided = (
    r,
    review-decided a b auth_id (denied_row b now reason) rows r (λ x. refl) found decided,
    (refl, omega arith),
  )
  apply-Stands auth_id rows r (disclosed a) found decided =
      let after =
        get-update (λ row. row.id == a)
          (λ row. record row { disclosure_count = row.disclosure_count + 1 }) auth_id rows
          (λ x. refl) in
      elim (Bool-cases (r.id == a)) [
        | inl same ↦ (
          record r { disclosure_count = r.disclosure_count + 1 },
          after ∙ rw found (rw same refl),
          (refl, omega arith),
        )
        | inr other ↦ (r, after ∙ rw found (rw other refl), (refl, omega arith))
      ]

  -- A decision stands. Once an authorization is no longer pending, then whatever is created, approved,
  -- denied or disclosed after it, its row is the same in every column but the count of disclosures, and
  -- that is never lower.
  pub run-Stands :
      (auth_id : ℕ) (rows : List AuthRow) (r : AuthRow) (steps : List Step)
      → get_authorization auth_id rows ≡ some r
      → r.status ≢ "pending"
      → (r' : AuthRow) × (get_authorization auth_id (run rows steps) ≡ some r') × Stands r r'
  unfolding run
  run-Stands auth_id rows r [] found decided = (r, found, (refl, omega arith))
  run-Stands auth_id rows r (s ∷ steps) found decided =
      let (q, found', (same, le)) = apply-Stands auth_id rows r s found decided in
      let status : q.status ≡ r.status = ap (λ (x : AuthRow). x.status) same in
      let (z, found'', (same', le')) =
        run-Stands auth_id (apply rows s) q steps found' (λ e. decided (sym status ∙ e)) in
      (
        z,
        found'',
        (
          ap (λ (x : AuthRow). record x { disclosure_count = r.disclosure_count }) same' ∙ same,
          omega (arith, le, le'),
        ),
      )

  apply-IsReviewed :
      (rows : List AuthRow) (s : Step) → All IsReviewed rows → All IsReviewed (apply rows s)
  unfolding apply create_authorization approve_authorization deny_authorization record_disclosure
      review_result
  apply-IsReviewed rows (create ask) h = append-All IsReviewed rows _ h (inl (refl, refl))
  apply-IsReviewed rows (approve a b key at expires) h = written (
      some_or (get_authorization a rows) not_found >>= λ row.
      approval_signature lib sign user row b key at expires)
    where
      written :
          (m : Result ReviewError (Option String))
          → All IsReviewed (write_approval lib sign user rows a b at expires m).0
      written (raise e) = unfold write_approval in h
      written (ok signature) =
          unfold write_approval in
          update-All IsReviewed (is_reviewable a b) (approved_row b at expires signature) rows
            (λ r chosen p. inr (inl refl, (b, refl, reviewable-other a b r chosen))) h
  apply-IsReviewed rows (deny a b reason now) h =
      update-All IsReviewed (is_reviewable a b) (denied_row b now reason) rows
        (λ r chosen p. inr (inr refl, (b, refl, reviewable-other a b r chosen))) h
  apply-IsReviewed rows (disclosed a) h =
      update-All IsReviewed (λ row. row.id == a)
        (λ row. record row { disclosure_count = row.disclosure_count + 1 }) rows (λ r chosen p. p) h

  -- The rule of two persons. In a table on which it holds, as on the empty one, it holds after any
  -- sequence of requests, approvals, denials and disclosures: every row is pending without an approver,
  -- or it was approved or denied by a recorded person other than the one who asked.
  pub run-IsReviewed :
      (rows : List AuthRow) (steps : List Step)
      → All IsReviewed rows
      → All IsReviewed (run rows steps)
  unfolding run
  run-IsReviewed rows [] h = h
  run-IsReviewed rows (s ∷ steps) h =
      run-IsReviewed (apply rows s) steps (apply-IsReviewed rows s h)
