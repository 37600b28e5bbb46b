-- ===== src/Tests/Samples.antt =====
-- Concrete stand-ins for the library, and sample data: an approval for the plate ABC123 by `carol`,
-- asked for by `alice`, whose proofs come from a software key.
use Prim.Native.String.{◌++◌, count}
use justi_key.Common.{ℕ, true, false, String, List, [], ◌∷◌, Option, none, some, str_eq, text_lt}
use justi_key.Statements.{Statement, ProofStatement, ed25519, object, text_of}
use justi_key.Library.{Library, decimal}
use justi_key.Approvals.{
  legacy_key_id, statement_nonce, build_statement, verify_statement, verify_authorization,
}
use justi_key.Custody.{
  Authenticators, is_hardware, credential_from_registry, decode_proof, credential_key_id,
  verify_proof,
}
use justi_key.Presence
use justi_key.Presence.{digest_of}
use justi_key.Usage.{
  Store, Claim, purge_presence, spend_presence, spend_usage, settle_claim, claim,
  claim_transport_nonce, claim_presence_nonce, sign_count, record_sign_count, purge_expired,
}
use justi_key.Disclosure.{
  Service, Times, Request, Row, Fields, missing_field, raise_counter, approver_key,
  requester_credential, note_counter, reveal, spend, blind_index, verify_approval, verify_presence,
  admit, open_covered, spend_and_open, after_checks, disclose,
}

-- digests that keep their input, and signatures that are the key followed by the message
abbrev pub toy : Library
toy = record {
  sha256 = λ s. "#" ++ s;
  hmac_sha256 = λ k s. k ++ s;
  ed25519_verify = λ k m s. str_eq s (k ++ m);
  sha256_of_hex = λ s. s;
  strip = λ s. s;
  upper = λ s. s;
  parse_dt = λ s. some (count s);
  dumps_statement = λ st. text_of st.target_plate ++ text_of st.requester;
  dumps_proof = λ p. text_of p.request_nonce;
  loads_proof = λ s. none;
}

abbrev pub no_hardware : Authenticators
no_hardware = record { verify_assertion = λ h a c r o u. none }

abbrev pub statement : Statement
statement = record {
  v = some 2;
  authorization_id = some 7;
  approver_key_id = some "carolkey";
  nonce = some "n1";
  case_number = some "C-1";
  legal_authority = some "W-1";
  purpose = some "p";
  target_plate = some "ABC123";
  window_start = some "2026-01-01";
  window_end = some "2026-01-31";
  requester = some "alice";
  approver = some "carol";
  approved_at = some "2026-02-01T10";
  approval_expires_at = some "2026-02-01T11";
}

abbrev pub proof_of : String → ProofStatement
proof_of nonce = record {
  v = some 1;
  approval_nonce = some "n1";
  statement_digest = some "#ABC123alice";
  requester = some "alice";
  requester_key_id = some "alicekey";
  request_nonce = some nonce;
  issued_at = some "2026-02-01T10";
  expires_at = some "2026-02-01T11";
}

abbrev pub row : ℕ → String → String → Row
row id index captured = record {
  id = id;
  plate_index = some index;
  captured_at = some captured;
  camera_id = some "cam";
  sealed = index;
}

-- two of the four candidates are covered
abbrev pub rows : List Row
rows =
    row 1 "kABC123" "2026-01-05"
    ∷ row 2 "kXYZ999" "2026-01-05"
    ∷ row 3 "kABC123" "2026-03-05"
    ∷ row 4 "kABC123" "2026-01-31"
    ∷ []

abbrev pub open_row : Row → Option Fields
open_row r = some (record { plate = some "ABC123"; location = some r.sealed })

abbrev pub service : Service
service = record {
  opener = open_row;
  index_key = some "k";
  approvers =
      ("carol", record { public_key = some "carolkey"; revoked = false; webauthn = none }) ∷ [];
  requesters =
      ("alice", record { public_key = some "alicekey"; revoked = false; webauthn = none }) ∷ [];
  presence_mode = "required";
  max_disclosures = 2;
  rp_id = none;
  origin = none;
  require_user_verification = true;
  presence_max_ttl = 300;
}

abbrev pub at_half_past : Times
at_half_past = record {
  approval = "2026-02-01T10:30";
  presence = "2026-02-01T10:30";
  usage = "2026-02-01T10:30";
}

abbrev pub empty : Store
empty = record {
  authorization_usage = [];
  presence_nonces = [];
  transport_nonces = [];
  webauthn_counters = [];
}

abbrev pub request : Request
request = record {
  rows = rows;
  statement = some statement;
  signature = some "carolkeyABC123alice";
  requester = "alice";
  proof_statement = some (proof_of "r1");
  proof = object (some (ed25519 (some "alicekeyr1")));
}

abbrev pub claim_with : String → Claim
claim_with nonce = record {
  nonce = "n1";
  authorization_id = some 7;
  expires_at = "2026-02-01T11";
  limit = 2;
  presence_nonce = some nonce;
  presence_expires_at = some "2026-02-01T11";
}

-- what a run of the disclosure service computes through
unfoldable pub program : Unit {0}
unfolding text_lt decimal legacy_key_id statement_nonce build_statement verify_statement
    verify_authorization is_hardware credential_from_registry decode_proof credential_key_id
    verify_proof digest_of Presence.verify purge_presence spend_presence spend_usage settle_claim
    claim claim_transport_nonce claim_presence_nonce sign_count record_sign_count purge_expired
    missing_field raise_counter approver_key requester_credential note_counter reveal spend
    blind_index verify_approval verify_presence admit open_covered spend_and_open after_checks
    disclose
program = tt
