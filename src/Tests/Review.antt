-- ===== src/Tests/Review.antt =====
-- The review of one request, by `carol` for `alice`.
use Prim.Native.String.{◌++◌, count}
use text.Mathlib.TextLemmas.{length-append}
use justi_key.Common.{
  ℕ, ◌≡◌, ◌≢◌, refl, true, String, List, [], ◌∷◌, Option, none, some, All, ok, inl, inr, ap, arith,
  Bool-cases, str_eq, str_eq_refl, str_eq_iff, is_truthy, ◌==◌, if◌then◌else◌,
}
use justi_key.Library.{Library}
use justi_key.Approvals.{AuthRow, User, verify_authorization}
use justi_key.Review.{get_authorization, Step, approve, deny, disclosed, approve_authorization}
use justi_key.Review.Decisions.{run, Stands, run-Stands, IsReviewed, run-IsReviewed}
use justi_key.Review.Signed.{CanSign, approve_verifies}
use justi_key.Tests.Samples.{toy}

abbrev user : ℕ → Option User
user id =
    if id == 1
    then some (record {
      id = 1;
      username = "alice";
      role = "requester";
      signing_pub = none;
      signing_key_revoked_at = none;
    })
    else if id == 2
    then some (record {
      id = 2;
      username = "carol";
      role = "approver";
      signing_pub = some "carolkey";
      signing_key_revoked_at = none;
    })
    else none

-- a signature is "s" followed by the message, which the stand-in for the library verifies
abbrev lib : Library
lib = record toy { ed25519_verify = λ k m s. str_eq s ("s" ++ m) }

abbrev sign : String → String → String
sign key m = "s" ++ m

signed_truthy : (m : String) → is_truthy ("s" ++ m) ≡ true
signed_truthy m = elim (Bool-cases (str_eq ("s" ++ m) "")) [
  | inl bad ↦
      let e : "s" ++ m ≡ "" = (str_eq_iff ("s" ++ m) "").0 bad in
      absurd (omega (arith, length-append "s" m, ap count e))
  | inr other ↦ ground arith
]

abbrev pending : AuthRow
pending = record {
  id = 1;
  case_number = "C-1";
  legal_authority = "W-1";
  purpose = "p";
  target_plate = "ABC123";
  window_start = "2026-01-01";
  window_end = "2026-01-31";
  requested_by = 1;
  requested_at = "2026-02-01T09";
  status = "pending";
  approved_by = none;
  approved_at = none;
  approval_expires_at = none;
  approval_signature = none;
  denial_reason = none;
  disclosure_count = 0;
}

abbrev denied : AuthRow
denied = record pending {
  status = "denied";
  approved_by = some 2;
  approved_at = some "t";
  denial_reason = some "no";
}

abbrev steps : List Step
steps =
    approve 1 2 (some "k") "2026-02-01T10" "2026-02-01T11" ∷ disclosed 1 ∷ deny 1 2 "late" "u" ∷ []

carol-CanSign : CanSign lib sign user pending 2 "k"
carol-CanSign = record {
  pending = refl;
  other = λ e. cc;
  approver = record {
    id = 2;
    username = "carol";
    role = "approver";
    signing_pub = some "carolkey";
    signing_key_revoked_at = none;
  };
  requester = record {
    id = 1;
    username = "alice";
    role = "requester";
    signing_pub = none;
    signing_key_revoked_at = none;
  };
  known = refl;
  asked = refl;
  public_key = "carolkey";
  enrolled = refl;
  present = refl;
  unrevoked = refl;
  signs = λ m. (str_eq_refl ("s" ++ m), signed_truthy m);
}

found_pending : get_authorization 1 (pending ∷ []) ≡ some pending
unfolding get_authorization
found_pending = refl

approve_verifies_example :
    ((approve_authorization lib sign user
        (pending ∷ [])
        1
        2
        (some "k")
        "2026-02-01T10"
        "2026-02-01T11").1
      ≡ ok tt)
    × ((row' : AuthRow) × (get_authorization 1
            (approve_authorization lib sign user
              (pending ∷ [])
              1
              2
              (some "k")
              "2026-02-01T10"
              "2026-02-01T11").0
          ≡ some row')
        × (verify_authorization lib user row' ≡ ok tt))
unfolding get_authorization
approve_verifies_example =
    approve_verifies lib sign user (pending ∷ []) 1 2 "k" "2026-02-01T10" "2026-02-01T11" pending
      (refl, tt) found_pending carol-CanSign

denied_decided : denied.status ≢ "pending"
denied_decided e =
    let same : str_eq "denied" "pending" ≡ true = (str_eq_iff "denied" "pending").1 e in cc

found_denied : get_authorization 1 (denied ∷ []) ≡ some denied
unfolding get_authorization
found_denied = refl

run-Stands_example :
    (r' : AuthRow) × (get_authorization 1 (run lib sign user (denied ∷ []) steps) ≡ some r')
    × Stands denied r'
run-Stands_example =
    run-Stands lib sign user 1 (denied ∷ []) denied steps found_denied denied_decided

run-IsReviewed_example : All IsReviewed (run lib sign user (pending ∷ []) steps)
run-IsReviewed_example = run-IsReviewed lib sign user (pending ∷ []) steps (inl (refl, refl), tt)
