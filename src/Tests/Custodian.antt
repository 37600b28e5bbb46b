-- ===== src/Tests/Custodian.antt =====
-- A custodian of the sample registries, with stand-ins for the cryptography that compute quickly.
use justi_key.Common.{
  is_ok, ◌≡◌, ◌↔◌, refl, true, false, String, [], ◌∷◌, ◌++◌, Option, none, some, Result, ok, raise,
  str_eq, is_some, if◌then◌else◌,
}
use justi_key.Statements.{Statement, object, ed25519, text_of}
use justi_key.Custody.{by_software}
use justi_key.Presence.{Present}
use justi_key.Disclosure.{verify_approval}
use justi_key.Kem
use justi_key.Kem.{
  Bytes, Crypto, Suite, x25519, x25519_ecdh, p256, suite, validate_peer_public, exchange,
  public_bytes, key_id,
}
use justi_key.Sealing.{
  Envelope, Json, RecordOpener, format_version, envelope_suite, record_aad, aad_for,
  unwrap_record_key, open_with_record_key, open_shared, open_record,
}
use justi_key.Usage.{presence_used, claim}
use justi_key.Usage.Trace.{run, purge}
use justi_key.Enclave.{Recipient}
use justi_key.Custodian.{
  Custodian, AgreementError, no_secret, Call, Times, Opened, Admitted, check_registries,
  missing_column, check_identity, approver_key, check_scope, spend, check_envelope, check_approval,
  check_presence, admit, derive_and_open, spend_and_open, open_one, registry_differs, usage,
  claim_of,
}
use justi_key.Custodian.Backends.{
  KmsAgreement, KmsRequest, KmsResponse, has_bytes, spki_prefix, meets_stage_5, accepts_key,
  local_agreement, spki, recipient_of, open_attested, read_secret, kms_agree,
}
use justi_key.Custodian.Attested.{kms_agree-attested}
use justi_key.Custodian.Opinions.{peer_of, check_approval_iff}
use justi_key.Custodian.Opening.{IsAdmitted, Opens, open_needs}
use justi_key.Custodian.Software.{holding, derive_and_open_iff}
use justi_key.Custodian.Spending.{with_backend, open_early, open_presence_once}
use justi_key.Tests.Samples.{toy, no_hardware, statement, service, empty, proof_of, program}
use justi_key.Tests.Toys.{sample_fields}

abbrev key : Bytes
key =
    1 ∷ 2 ∷ 3 ∷ 4 ∷ 5 ∷ 6 ∷ 7 ∷ 8 ∷ 1 ∷ 2 ∷ 3 ∷ 4 ∷ 5 ∷ 6 ∷ 7 ∷ 8 ∷ 1 ∷ 2 ∷ 3 ∷ 4 ∷ 5 ∷ 6 ∷ 7 ∷ 8
    ∷ 1 ∷ 2 ∷ 3 ∷ 4 ∷ 5 ∷ 6 ∷ 7 ∷ 8 ∷ []

-- a text encodes one key, and every ciphertext opens
abbrev pub quick : Crypto
quick = record {
  b64encode = λ raw. "k";
  b64decode = λ s. some key;
  p256_point = λ raw. true;
  x25519_point = λ raw. true;
  p256_scalar = λ raw. true;
  x25519_scalar = λ raw. true;
  p256_public = λ raw. raw;
  x25519_public = λ raw. raw;
  p256_exchange = λ a b. b;
  x25519_exchange = λ a b. some b;
  hkdf = λ secret info. secret;
  sha256_bytes = λ text raw. "0123456789abcdef";
  aes_encrypt = λ k nonce raw aad. raw;
  aes_decrypt = λ k nonce raw aad. some raw;
}

abbrev pub plain : Json
plain = record {
  dumps_bound = λ b. b.index;
  dumps_fields = λ f. 7 ∷ [];
  loads_fields = λ raw. some sample_fields;
}

abbrev opener : RecordOpener
opener = record { kem = x25519_ecdh; kem_suite = x25519; private = key; public_hex = "k" }

abbrev pub custodian : Custodian
custodian = record {
  agreement = record { accepts = λ k. is_some k; agree = λ peer. ok peer };
  approvers = service.approvers;
  requesters = service.requesters;
  max_disclosures = 2;
  presence_mode = "required";
  presence_max_ttl = 300;
  accepted_kems = x25519_ecdh ∷ [];
  registry_versions = ("approvers", 3) ∷ [];
}

abbrev sealed : Envelope
sealed = record {
  record_uid = some "u1";
  seal_version = some format_version;
  seal_kem = some x25519_ecdh;
  recipient_key_id = some "0123456789abcdef";
  record_ct = some "c";
  wrapped_key = some "w";
  ephemeral_pub = some "e";
}

abbrev call : Call
call = record {
  envelope = sealed;
  identity = record {
    record_uid = some "u1";
    captured_at = some (some "2026-01-05");
    camera_id = some (some "cam");
    plate_index = some (some "kABC123");
  };
  statement = some statement;
  signature = some "carolkeyABC123alice";
  requester = "alice";
  proof_statement = some (proof_of "r1");
  proof = object (some (ed25519 (some "alicekeyr1")));
  registry_versions = some (("approvers", 3) ∷ []);
}

abbrev pub at_half_past : Times
at_half_past = record {
  approval = "2026-02-01T10:30";
  presence = "2026-02-01T10:30";
  usage = "2026-02-01T10:30";
}

abbrev index_of : String → String
index_of plate = if str_eq plate "ABC123" then "kABC123" else "k"

abbrev present : Option Present
present = some (record { proved = by_software; requester = "alice"; request_nonce = "r1" })

abbrev opened : Opened
opened = record {
  fields = sample_fields;
  use_count = some 1;
  presence = present;
  suite = x25519_ecdh;
}

-- what a run of the custodian computes through
unfoldable pub custody : Unit {0}
unfolding program suite validate_peer_public exchange public_bytes Kem.agree key_id envelope_suite
    record_aad aad_for unwrap_record_key open_with_record_key open_shared check_registries
    missing_column check_identity approver_key check_scope spend check_envelope check_approval
    check_presence admit derive_and_open spend_and_open open_one
custody = tt

run_open :
    (open_one toy no_hardware quick plain index_of custodian at_half_past (some empty) call).1
    ≡ ok opened
unfolding custody
run_open = refl

open_needs_example :
    (a : Admitted) × IsAdmitted toy no_hardware quick plain index_of custodian at_half_past call a
    × Opens toy no_hardware quick plain index_of custodian call opened
    × ((spend (some empty) at_half_past.usage (claim_of custodian call a)).1 ≡ ok opened.use_count)
    × (opened.presence ≡ a.present)
    × (opened.suite ≡ a.suite)
open_needs_example =
    open_needs toy no_hardware quick plain index_of custodian at_half_past (some empty) call opened
      run_open

check_approval_iff_example :
    (check_approval toy custodian "2026-02-01T10:30"
        (some statement)
        (some "carolkeyABC123alice")
        "alice"
      ≡ ok tt)
    ↔ ((st : Statement) × (some statement ≡ some st)
        × (is_ok (
              verify_approval toy
                (peer_of toy custodian service "2026-02-01T10:30")
                "2026-02-01T10:30"
                (some statement)
                (some "carolkeyABC123alice"))
            ≡ true)
        × (text_of st.requester ≡ "alice"))
check_approval_iff_example =
    check_approval_iff toy custodian service "2026-02-01T10:30" (some statement)
      (some "carolkeyABC123alice") "alice"

-- a caller that worked from another registry
abbrev stale : Call
stale = record call { registry_versions = some (("approvers", 2) ∷ []) }

run_stale :
    (open_one toy no_hardware quick plain index_of custodian at_half_past (some empty) stale).1
    ≡ raise (registry_differs "approvers")
unfolding custody
run_stale = refl

abbrev silent : Bytes → Result AgreementError Bytes
silent peer = raise no_secret

open_early_example :
    open_one toy no_hardware quick plain index_of
      (with_backend custodian silent)
      at_half_past
      (some empty)
      stale
    ≡ open_one toy no_hardware quick plain index_of custodian at_half_past (some empty) stale
open_early_example =
    open_early toy no_hardware quick plain index_of custodian silent at_half_past (some empty) stale
      (registry_differs "approvers") run_stale tt

-- another record of the same plate, with the same proof
abbrev second : Call
second = record call {
  envelope = record sealed { record_uid = some "u2" };
  identity = record call.identity {
    record_uid = some "u2";
    captured_at = some (some "2026-01-07");
  };
}

abbrev admitted : Admitted
admitted = record { statement = statement; suite = x25519_ecdh; present = present }

run_second : admit toy no_hardware quick plain index_of custodian at_half_past second ≡ ok admitted
unfolding custody
run_second = refl

run_store :
    (open_one toy no_hardware quick plain index_of custodian at_half_past (some empty) call).0
    ≡ some (claim empty at_half_past.usage (claim_of custodian call admitted)).0
unfolding custody
run_store = refl

open_presence_once_example :
    (open_one toy no_hardware quick plain index_of custodian at_half_past
      (some (
        run
          (claim empty at_half_past.usage (claim_of custodian call admitted)).0
          (purge "2026-02-01T10:40" ∷ [])))
      second).1
    ≡ raise (usage presence_used)
unfolding program
open_presence_once_example =
    open_presence_once toy no_hardware quick plain index_of custodian at_half_past at_half_past
      empty (claim empty at_half_past.usage (claim_of custodian call admitted)).0 call second opened
      admitted "r1" (purge "2026-02-01T10:40" ∷ []) run_open run_store refl (refl, tt) refl
      run_second refl

-- KMS with a standing recipient
abbrev recipient : Recipient
recipient = record {
  attestation_document = 1 ∷ [];
  key_encryption_algorithm = "RSAES_OAEP_SHA_256";
}

abbrev kms : KmsAgreement
kms = record {
  key_arn = "arn";
  key_id = "0123456789abcdef";
  legacy_key_id = none;
  recipient = some recipient;
  enclave_decrypt = λ blob. blob;
  attestation = none;
}

abbrev client : KmsRequest → Option KmsResponse
client r = some (record { ciphertext_for_recipient = some (9 ∷ []); shared_secret = none })

abbrev point : Bytes
point = 4 ∷ key ++ key

run_kms : kms_agree quick (λ k iv raw. none) client kms point ≡ ok (9 ∷ [])
unfolding kms_agree spki recipient_of read_secret open_attested validate_peer_public
run_kms = refl

run_meets : meets_stage_5 kms ≡ true
unfolding meets_stage_5
run_meets = refl

kms_agree-attested_example :
    (validate_peer_public quick p256 point ≡ true)
    × (request : KmsRequest) × (response : KmsResponse) × (client request ≡ some response)
    × (request.public_key ≡ spki_prefix ++ point)
    × (is_some request.recipient ≡ true)
    × (has_bytes response.ciphertext_for_recipient ≡ true)
    × (has_bytes response.shared_secret ≡ false)
kms_agree-attested_example =
    kms_agree-attested quick (λ k iv raw. none) client kms point (9 ∷ []) run_meets run_kms

run_envelope :
    check_envelope quick (holding toy quick plain no_hardware custodian opener) sealed call.identity
    ≡ ok x25519_ecdh
unfolding custody local_agreement accepts_key
run_envelope = refl

derive_and_open_iff_example :
    (open_record quick plain toy opener sealed
        (record { captured_at = "2026-01-05"; camera_id = some "cam"; blind_index = "kABC123" })
      ≡ ok sample_fields)
    ↔ (derive_and_open toy no_hardware quick plain
          (holding toy quick plain no_hardware custodian opener)
          call
          admitted
          (some 1)
        ≡ ok opened)
derive_and_open_iff_example =
    derive_and_open_iff toy quick plain no_hardware custodian opener call admitted (some 1)
      sample_fields run_envelope
