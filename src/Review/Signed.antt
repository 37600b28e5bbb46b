-- ===== src/Review/Signed.antt =====
-- What `approve_authorization` signs is what `verify_authorization` rebuilds.
use justi_key.Common.{
  ℕ, ◌≡◌, ◌≢◌, refl, ap, sym, [], ◌∷◌, Bool-cases, inl, inr, ◌∙◌, true, false, String, List, Option,
  none, some, is_truthy, str_eq_iff, ◌==◌, ok, arith,
}
use justi_key.Statements.{has_text, Statement}
use justi_key.Library.{Library}
use justi_key.Approvals.{
  AuthRow, User, build_statement, statement_nonce, canonical, signing_key_id, verify_statement,
  verify_authorization,
}
use justi_key.Review.{
  get_authorization, update_where, is_reviewable, review_result, approved_row, approval_signature,
  write_approval, approve_authorization, key_id_of,
}
use justi_key.Review.Decisions.{get-update}

-- each id once: the table's PRIMARY KEY
abbrev pub IsNumbered : List AuthRow → Type 0
IsNumbered [] = Unit
IsNumbered (row ∷ rows) = (get_authorization row.id rows ≡ none) × IsNumbered rows

get-id :
    (auth_id : ℕ) (rows : List AuthRow) (r : AuthRow)
    → get_authorization auth_id rows ≡ some r
    → r.id ≡ auth_id
unfolding get_authorization
get-id auth_id [] r h = cc
get-id auth_id (row ∷ rows) r h = ground (arith, get-id auth_id rows r)

is_reviewable-pending :
    (auth_id reviewer : ℕ) (r : AuthRow)
    → r.id ≡ auth_id
    → r.status ≡ "pending"
    → r.requested_by ≢ reviewer
    → is_reviewable auth_id reviewer r ≡ true
unfolding is_reviewable
is_reviewable-pending auth_id reviewer r same pending other =
    ground (arith, str_eq_iff r.status "pending", other)

update-none :
    (auth_id reviewer : ℕ) (change : AuthRow → AuthRow) (rows : List AuthRow)
    → get_authorization auth_id rows ≡ none
    → (update_where (is_reviewable auth_id reviewer) change rows).1 ≡ 0
unfolding get_authorization update_where is_reviewable
update-none auth_id reviewer change [] h = refl
update-none auth_id reviewer change (row ∷ rows) h =
    ground (arith, update-none auth_id reviewer change rows)

update-count :
    (auth_id reviewer : ℕ) (change : AuthRow → AuthRow) (rows : List AuthRow) (r : AuthRow)
    → IsNumbered rows
    → get_authorization auth_id rows ≡ some r
    → is_reviewable auth_id reviewer r ≡ true
    → (update_where (is_reviewable auth_id reviewer) change rows).1 ≡ 1
unfolding get_authorization update_where
update-count auth_id reviewer change [] r numbered h chosen = cc
update-count auth_id reviewer change (row ∷ rows) r (new, numbered) h chosen =
    elim (Bool-cases (row.id == auth_id)) [
      | inl same ↦
          let id' : row.id ≡ auth_id = ground arith in
          let head' : row ≡ r = ground arith in
          let rest =
            update-none auth_id reviewer change rows
              (ap (λ k. get_authorization k rows) (sym id') ∙ new) in
          let chosen' : is_reviewable auth_id reviewer row ≡ true =
            ap (is_reviewable auth_id reviewer) head' ∙ chosen in
          rw chosen' (omega (arith, rest))
      | inr other ↦
          let skipped : is_reviewable auth_id reviewer row ≡ false =
            unfold is_reviewable in ground arith in
          ground (arith, update-count auth_id reviewer change rows r numbered)
    ]

module _ (lib : Library) (sign : String → String → String) (user : ℕ → Option User) where
  open lib use {ed25519_verify}

  -- Who takes part in an approval: a pending row, an approver other than its requester with a usable
  -- key, and a private key whose signatures that key verifies.
  pub record CanSign (row : AuthRow) (approver_id : ℕ) (key : String) : Type 0 where
    pub pending : row.status ≡ "pending"
    pub other : row.requested_by ≢ approver_id
    pub approver : User
    pub requester : User
    pub known : user approver_id ≡ some approver
    pub asked : user row.requested_by ≡ some requester
    pub public_key : String
    pub enrolled : approver.signing_pub ≡ some public_key
    pub present : is_truthy public_key ≡ true
    pub unrevoked : has_text approver.signing_key_revoked_at ≡ false
    pub signs :
        (m : String)
        → (ed25519_verify public_key m (sign key m) ≡ true) × (is_truthy (sign key m) ≡ true)

  signature_of : AuthRow → User → User → String → String → String → String
  signature_of row approver requester key approved_at expires = sign key (
      canonical lib (
        build_statement lib row requester.username approver.username (some approved_at)
          (some expires) (key_id_of lib sign user approver)))

  approval_signature-signs :
      (row : AuthRow) (approver_id : ℕ) (key approved_at expires : String)
      → (c : CanSign row approver_id key)
      → approval_signature lib sign user row approver_id (some key) approved_at expires
        ≡ ok (some (signature_of row c.approver c.requester key approved_at expires))
  unfolding approval_signature signature_of
  approval_signature-signs row approver_id key approved_at expires c = rw (c.known, c.asked) refl

  approved-verifies :
      (row : AuthRow) (approver_id : ℕ) (key approved_at expires : String)
      → (c : CanSign row approver_id key)
      → verify_authorization lib user (
          approved_row approver_id approved_at expires
            (some (signature_of row c.approver c.requester key approved_at expires))
            row)
        ≡ ok tt
  unfolding verify_authorization verify_statement signature_of
  approved-verifies row approver_id key approved_at expires c =
      let stated : String → AuthRow → Statement = λ k r.
        build_statement lib r c.requester.username c.approver.username (some approved_at)
          (some expires) (some k) in
      let id' = signing_key_id lib c.public_key in
      let same : (signature : Option String)
          → stated id' (approved_row approver_id approved_at expires signature row)
            ≡ stated id' row =
        λ signature. unfold build_statement statement_nonce in refl in
      let (verified, nonempty) = c.signs (canonical lib (stated id' row)) in
      rw (c.known, c.asked, c.unrevoked, c.enrolled, c.present)
        (rw (same (some (sign key (canonical lib (stated id' row)))), nonempty, verified) refl)

  -- A signed approval verifies. Where a pending authorization, in a table with each id once, is approved
  -- by somebody other than its requester, who is enrolled with an unrevoked key and signs with it, the
  -- approval succeeds, and `verify_authorization` accepts the row that it has written.
  pub approve_verifies :
      (rows : List AuthRow) (auth_id approver_id : ℕ) (key approved_at expires : String)
      (row : AuthRow)
      → IsNumbered rows
      → get_authorization auth_id rows ≡ some row
      → CanSign row approver_id key
      → let (rows', result) =
          approve_authorization lib sign user rows auth_id approver_id
            (some key)
            approved_at
            expires in
        (result ≡ ok tt)
        × ((row' : AuthRow) × (get_authorization auth_id rows' ≡ some row')
            × (verify_authorization lib user row' ≡ ok tt))
  unfolding approve_authorization write_approval review_result
  approve_verifies rows auth_id approver_id key approved_at expires row numbered found c =
      let signed = approval_signature-signs row approver_id key approved_at expires c in
      let signature = some (signature_of row c.approver c.requester key approved_at expires) in
      let change = approved_row approver_id approved_at expires signature in
      let chosen : is_reviewable auth_id approver_id row ≡ true =
        is_reviewable-pending auth_id approver_id row (get-id auth_id rows row found) c.pending
          c.other in
      let one = update-count auth_id approver_id change rows row numbered found chosen in
      let after =
        get-update (is_reviewable auth_id approver_id) change auth_id rows (λ r. refl)
        ∙ rw (found, chosen) refl in
      rw (found, signed, one)
        (refl, (change row, after, approved-verifies row approver_id key approved_at expires c))
