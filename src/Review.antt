-- ===== src/Review.antt =====
-- justikey/models.py: authorizations and their review. The table is its rows in the order of their ids.
-- Each guarded UPDATE is one statement of the database, and one function here. The times that a call
-- computes, the users (`get_user_by_id`) and the signing key's signature are arguments.
pub mod Decisions
pub mod Signed
use justi_key.Common.{
  ℕ, ◌+◌, max, Bool, true, false, not, ◌&&◌, String, List, [], ◌∷◌, ◌++◌, Option, none, some,
  str_eq, ◌==◌, if◌then◌else◌, Result, ok, raise, some_or, ◌>>=◌, text_le,
}
use justi_key.Statements.{Statement, has_text, text_of}
use justi_key.Library.{Library}
use justi_key.Approvals.{AuthRow, User, signing_key_id, build_statement, canonical}

-- the second components that the reviews return
pub data ReviewError : Type 0 where
  not_found self_review not_pending : ReviewError

unfoldable pub get_authorization : ℕ → List AuthRow → Option AuthRow
get_authorization auth_id [] = none
get_authorization auth_id (row ∷ rows) =
    if row.id == auth_id then some row else get_authorization auth_id rows

-- UPDATE ... WHERE, with its rowcount
unfoldable pub update_where :
    (AuthRow → Bool) → (AuthRow → AuthRow) → List AuthRow → List AuthRow × ℕ
update_where chosen change [] = ([], 0)
update_where chosen change (row ∷ rows) =
    let (rest, count) = update_where chosen change rows in
    if chosen row then (change row ∷ rest, count + 1) else (row ∷ rest, count)

-- WHERE id=? AND status='pending' AND requested_by<>?
unfoldable pub is_reviewable : ℕ → ℕ → AuthRow → Bool
is_reviewable auth_id reviewer row =
    row.id == auth_id && str_eq row.status "pending" && not (row.requested_by == reviewer)

-- `_why_review_failed`
unfoldable pub why_review_failed : List AuthRow → ℕ → ℕ → ReviewError
unfolding get_authorization
why_review_failed rows auth_id reviewer = elim (get_authorization auth_id rows) [
  | none ↦ not_found
  | some row ↦ if row.requested_by == reviewer then self_review else not_pending
]

-- what both reviews do with the rowcount
unfoldable pub review_result :
    ℕ → ℕ → List AuthRow × ℕ → List AuthRow × Result ReviewError (Unit {0})
unfolding why_review_failed
review_result auth_id reviewer (rows, count) =
    (rows, if count == 1 then ok tt else raise (why_review_failed rows auth_id reviewer))

abbrev pub approved_row : ℕ → String → String → Option String → AuthRow → AuthRow
approved_row approver approved_at expires signature row = record row {
  status = "approved";
  approved_by = some approver;
  approved_at = some approved_at;
  approval_expires_at = some expires;
  approval_signature = signature;
}

abbrev pub denied_row : ℕ → String → String → AuthRow → AuthRow
denied_row approver now reason row = record row {
  status = "denied";
  approved_by = some approver;
  approved_at = some now;
  denial_reason = some reason;
}

unfoldable pub deny_authorization :
    List AuthRow → ℕ → ℕ → String → String → List AuthRow × Result ReviewError (Unit {0})
unfolding update_where is_reviewable review_result
deny_authorization rows auth_id approver reason now =
    review_result auth_id approver
      (update_where (is_reviewable auth_id approver) (denied_row approver now reason) rows)

-- `record_disclosure`: the rows, and the count that it returns
unfoldable pub record_disclosure : List AuthRow → ℕ → List AuthRow × ℕ
unfolding update_where get_authorization
record_disclosure rows auth_id =
    let rows' =
      (update_where (λ row. row.id == auth_id)
        (λ row. record row { disclosure_count = row.disclosure_count + 1 }) rows).0 in
    (rows', elim (get_authorization auth_id rows') [ none ↦ 0 | some row ↦ row.disclosure_count ])

-- `effective_status`
unfoldable pub effective_status : AuthRow → String → String
effective_status row now =
    if str_eq row.status "approved" && text_le (text_of row.approval_expires_at) now
    then "expired"
    else row.status

-- the id that AUTOINCREMENT gives
unfoldable pub highest_id : List AuthRow → ℕ
highest_id [] = 0
highest_id (row ∷ rows) = max row.id (highest_id rows)

-- what a requester asks for
pub record Ask : Type 0 where
  pub case_number : String
  pub legal_authority : String
  pub purpose : String
  pub target_plate : String
  pub window_start : String
  pub window_end : String
  pub requested_by : ℕ
  pub requested_at : String

module _ (lib : Library) (sign : String → String → String) (user : ℕ → Option User) where
  open lib use {strip, upper}

  unfoldable pub create_authorization : List AuthRow → Ask → List AuthRow
  unfolding highest_id
  create_authorization rows ask =
      rows
      ++ (record {
        id = highest_id rows + 1;
        case_number = ask.case_number;
        legal_authority = ask.legal_authority;
        purpose = ask.purpose;
        target_plate = upper (strip ask.target_plate);
        window_start = ask.window_start;
        window_end = ask.window_end;
        requested_by = ask.requested_by;
        requested_at = ask.requested_at;
        status = "pending";
        approved_by = none;
        approved_at = none;
        approval_expires_at = none;
        approval_signature = none;
        denial_reason = none;
        disclosure_count = 0;
      }
          ∷ [])

  -- the approver's key id, where they have a key
  abbrev pub key_id_of : User → Option String
  key_id_of u =
      if has_text u.signing_pub then some (signing_key_id lib (text_of u.signing_pub)) else none

  -- the signature that `approve_authorization` makes before it writes
  unfoldable pub approval_signature :
      AuthRow → ℕ → Option String → String → String → Result ReviewError (Option String)
  approval_signature row approver_id none approved_at expires = ok none
  approval_signature row approver_id (some key) approved_at expires = do
    approver ← some_or (user approver_id) not_found
    requester ← some_or (user row.requested_by) not_found
    let statement =
        build_statement lib row requester.username approver.username (some approved_at)
          (some expires) (key_id_of approver)
    ok (some (sign key (canonical lib statement)))

  -- the guarded UPDATE, or the failure before it
  unfoldable pub write_approval :
      List AuthRow
      → ℕ
      → ℕ
      → String
      → String
      → Result ReviewError (Option String)
      → List AuthRow × Result ReviewError (Unit {0})
  unfolding update_where is_reviewable review_result
  write_approval rows auth_id approver_id approved_at expires (raise e) = (rows, raise e)
  write_approval rows auth_id approver_id approved_at expires (ok signature) =
      review_result auth_id approver_id (
        update_where (is_reviewable auth_id approver_id)
          (approved_row approver_id approved_at expires signature) rows)

  unfoldable pub approve_authorization :
      List AuthRow
      → ℕ
      → ℕ
      → Option String
      → String
      → String
      → List AuthRow × Result ReviewError (Unit {0})
  unfolding get_authorization approval_signature write_approval
  approve_authorization rows auth_id approver_id signing_key approved_at expires =
      write_approval rows auth_id approver_id approved_at expires (
        some_or (get_authorization auth_id rows) not_found >>= λ row.
        approval_signature row approver_id signing_key approved_at expires)

-- what the application does to the table
pub data Step : Type 0 where
  create : Ask → Step
  approve : ℕ → ℕ → Option String → String → String → Step
  deny : ℕ → ℕ → String → String → Step
  disclosed : ℕ → Step
