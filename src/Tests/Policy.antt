-- ===== src/Tests/Policy.antt =====
-- A disclosure as the policy evaluates it, with the sample registries and rows.
use Prim.Native.String.{◌++◌}
use justi_key.Common.{
  ℕ, ◌≡◌, refl, true, String, List, [], ◌∷◌, Option, none, some, ok, if◌then◌else◌, ◌==◌,
}
use justi_key.Statements.{Statement, ProofStatement, Stored, object, ed25519, text_of}
use justi_key.Approvals.{AuthRow, User}
use justi_key.Review.{get_authorization}
use justi_key.Disclosure.{Request, Disclosed, disclose}
use justi_key.Disclosure.Atomic.{IsAdmitted}
use justi_key.Presence
use justi_key.Policy.{
  Configuration, Database, Readings, Event, tolerated, opened_of, shown, check_window_breadth,
  authorize, statement_of, presence_credential, prove, prepare, evaluate_disclosure,
}
use justi_key.Policy.Allowed.{IsAuthorized, Candidates, OpensScope, evaluate_disclosure-allowed}
use justi_key.Tests.Samples.{toy, no_hardware, service, rows, row, at_half_past, empty, program}

abbrev alice : User
alice = record {
  id = 1;
  username = "alice";
  role = "investigator";
  signing_pub = some "alicekey";
  signing_key_revoked_at = none;
}

abbrev carol : User
carol = record {
  id = 2;
  username = "carol";
  role = "approver";
  signing_pub = some "carolkey";
  signing_key_revoked_at = none;
}

abbrev authorization : AuthRow
authorization = record {
  id = 7;
  case_number = "C-1";
  legal_authority = "W-1";
  purpose = "p";
  target_plate = "ABC123";
  window_start = "2026-01-01";
  window_end = "2026-01-31";
  requested_by = 1;
  requested_at = "2026-02-01T09";
  status = "approved";
  approved_by = some 2;
  approved_at = some "2026-02-01T10";
  approval_expires_at = some "2026-02-01T11";
  approval_signature = some "carolkeyABC123alice";
  denial_reason = none;
  disclosure_count = 0;
}

abbrev configuration : Configuration
configuration = record {
  max_window_days = 30;
  require_signed_approvals = true;
  max_disclosures = 2;
  presence_mode = "required";
  rp_id = none;
  origin = none;
}

abbrev database : Database
database = record {
  authorizations = authorization ∷ [];
  user = λ i. if i == 1 then some alice else if i == 2 then some carol else none;
  events = rows;
  authenticator = λ i. none;
}

abbrev readings : Readings
readings = record {
  now = "2026-02-01T10:30";
  nonce = "r1";
  issued_at = "2026-02-01T10";
  expires_at = "2026-02-01T11";
  times = at_half_past;
}

abbrev sign : ProofStatement → Option Stored
sign p = some (object (some (ed25519 (some ("alicekey" ++ text_of p.request_nonce)))))

abbrev event : ℕ → String → Event
event id captured = record {
  row = row id "kABC123" captured;
  plate = some "ABC123";
  location = some "kABC123";
}

abbrev events : List Event
events = event 1 "2026-01-05" ∷ event 4 "2026-01-31" ∷ []

run_evaluate :
    (evaluate_disclosure toy no_hardware configuration database service 7 "ABC123" alice
      (some sign)
      readings
      (some empty)).1
    ≡ ok events
unfolding program get_authorization Presence.build tolerated opened_of shown check_window_breadth
    authorize statement_of presence_credential prove prepare evaluate_disclosure
run_evaluate = refl

evaluate_disclosure-allowed_example :
    (r : AuthRow) × (req : Request) × (d : Disclosed) × (st : Statement) × IsAuthorized toy
      no_hardware configuration database 7 "ABC123" alice readings.now r
    × (statement_of toy no_hardware configuration database alice r ≡ some st)
    × (req.requester ≡ "alice")
    × Candidates toy no_hardware configuration database service r st req.rows
    × IsAdmitted toy no_hardware service readings.times (some empty) req st d.presence
    × ((disclose toy no_hardware service at_half_past (some empty) req).1 ≡ ok d)
    × OpensScope toy no_hardware configuration database service st req.rows d.opened
    × (events ≡ shown d.opened req.rows)
evaluate_disclosure-allowed_example =
    evaluate_disclosure-allowed toy no_hardware configuration database service 7 "ABC123" alice
      (some sign) readings (some empty) events run_evaluate
