-- ===== src/Custodian.antt =====
-- `Custodian` of justikey/custodian.py: the second opinion, which opens one record at a time. The key
-- holder is an `Agreement` (Custodian/Backends has the two backends), the scope function an argument. A
-- call takes the times that it reads and the usage store, and returns the store after it.
mod Data
pub mod Backends
pub mod Opinions
pub mod Attested
pub mod Opening
pub mod Software
pub mod Spending
pub use Data.*
use justi_key.Common.{
  ℕ, Bool, true, false, not, ◌&&◌, String, List, [], ◌∷◌, Option, none, some, is_some, get_or,
  bind_option, map_option, str_eq, text_lt, text_le, Table, lookup, Result, ok, raise, require,
  raise_if, some_or, map_error, ◌>>=◌, ◌>>◌, if◌then◌else◌, ◌==◌, any,
}
use justi_key.Statements.{
  Statement, ProofStatement, Stored, Entry, has_text, has_number, text_of, opt_str_eq, opt_is,
}
use justi_key.Library.{Library}
use justi_key.Approvals.{statement_version, signing_key_id, verify_statement}
use justi_key.Custody.{CustodyError, Authenticators, credential_from_registry}
use justi_key.Presence.{PresenceError, Present, verify, first_missing, raise_some}
use justi_key.Usage.{Store, Refusal, Outcome, claimed, refused, Claim, claim}
use justi_key.Disclosure.{
  Field, authorization_id, target_plate, window_start, window_end, requester, approver, approved_at,
  approval_expires_at, nonce, approver_key_id, Fields, has_proof,
}
use justi_key.Kem.{Bytes, Crypto, suite, validate_peer_public}
use justi_key.Sealing.{Envelope, SealingError, Json, Sighting, envelope_suite, aad_for, open_shared}

-- `_check_registries`
unfoldable pub check_registries : Table ℕ → Option (Table ℕ) → Result CustodianError (Unit {0})
check_registries [] stated = ok tt
check_registries ((role, version) ∷ own) stated = do
  presented ← some_or (bind_option stated (lookup role)) (registry_unstated role)
  require (presented == version) (registry_differs role)
  check_registries own stated

unfoldable pub missing_column : Envelope → Option EnvelopeField
missing_column e = first_missing (
    (record_uid, e.record_uid)
    ∷ (seal_version, e.seal_version)
    ∷ (recipient_key_id, e.recipient_key_id)
    ∷ (record_ct, e.record_ct)
    ∷ (wrapped_key, e.wrapped_key)
    ∷ (ephemeral_pub, e.ephemeral_pub)
    ∷ [])

-- `identity[key]`
abbrev pub value_of : Option (Option String) → Option String
value_of key = bind_option key (λ value. value)

abbrev pub sighting_of : Identity → Sighting
sighting_of i = record {
  captured_at = text_of (value_of i.captured_at);
  camera_id = value_of i.camera_id;
  blind_index = text_of (value_of i.plate_index);
}

unfoldable pub check_identity : Envelope → Identity → Result CustodianError (Unit {0})
check_identity e i = do
  require (opt_str_eq i.record_uid e.record_uid) other_identity
  require (is_some i.captured_at) (identity_missing captured_at)
  require (is_some i.camera_id) (identity_missing camera_id)
  require (is_some i.plate_index) (identity_missing plate_index)

-- `_approver_key`
unfoldable pub approver_key : Custodian → String → Result CustodianError String
approver_key c username = do
  entry ← some_or (lookup username c.approvers) approver_unknown
  raise_if entry.revoked approver_revoked
  ok (text_of entry.public_key)

-- The loop of `_check_approval` over the required fields, each with whether it is there.
unfoldable pub require_all : List (Field × Bool) → Result CustodianError (Unit {0})
require_all [] = ok tt
require_all ((field, there) ∷ rest) = do require there (approval_missing field); require_all rest

abbrev pub required : Statement → List (Field × Bool)
required st =
    (authorization_id, has_number st.authorization_id)
    ∷ (target_plate, has_text st.target_plate)
    ∷ (window_start, has_text st.window_start)
    ∷ (window_end, has_text st.window_end)
    ∷ (requester, has_text st.requester)
    ∷ (approver, has_text st.approver)
    ∷ (approved_at, has_text st.approved_at)
    ∷ (approval_expires_at, has_text st.approval_expires_at)
    ∷ (nonce, has_text st.nonce)
    ∷ (approver_key_id, has_text st.approver_key_id)
    ∷ []

unfoldable pub check_fields : Statement → Result CustodianError (Unit {0})
unfolding require_all
check_fields st = require_all (required st)

-- `_check_scope`, on the index of the approved plate
unfoldable pub check_scope : String → Identity → Statement → Result CustodianError (Unit {0})
check_scope target i st = do
  require (opt_str_eq (value_of i.plate_index) (some target)) other_plate
  captured ← some_or (value_of i.captured_at) type_error
  require (text_le (text_of st.window_start) captured && text_le captured (text_of st.window_end))
      outside_window

-- what an opening spends
abbrev pub claim_of : Custodian → Call → Admitted → Claim
claim_of c call a = record {
  nonce = text_of a.statement.nonce;
  authorization_id = a.statement.authorization_id;
  expires_at = text_of a.statement.approval_expires_at;
  limit = c.max_disclosures;
  presence_nonce = map_option (λ (p : Present). p.request_nonce) a.present;
  presence_expires_at = bind_option call.proof_statement (λ (p : ProofStatement). p.expires_at);
}

abbrev pub counted : Outcome → Result CustodianError (Option ℕ)
counted (claimed k) = ok (some k)
counted (refused _ r) = raise (usage r)

unfoldable pub spend :
    Option Store → String → Claim → Option Store × Result CustodianError (Option ℕ)
spend none now c = (none, ok none)
spend (some s) now c = (some (claim s now c).0, counted (claim s now c).1)

module _ (crypto : Crypto) where
  -- `_check_envelope`: the suite that the record names
  unfoldable pub check_envelope : Custodian → Envelope → Identity → Result CustodianError String
  unfolding missing_column check_identity
  check_envelope c e i = do
    raise_some envelope_missing (missing_column e)
    name ← map_error unsealable (envelope_suite e)
    require (any (str_eq name) c.accepted_kems) suite_refused
    require (c.agreement.accepts e.recipient_key_id) key_not_held
    s ← some_or (suite name) unusable_point
    peer ← some_or (bind_option e.ephemeral_pub crypto.b64decode) unusable_point
    require (validate_peer_public crypto s peer) unusable_point
    check_identity e i
    ok name

module _ (lib : Library) where
  -- `_check_approval`
  unfoldable pub check_approval :
      Custodian
      → String
      → Option Statement
      → Option String
      → String
      → Result CustodianError (Unit {0})
  unfolding approver_key check_fields
  check_approval c now statement signature user = do
    st ← some_or statement malformed
    require (opt_is st.v statement_version) unsupported_schema
    check_fields st
    public_hex ← approver_key c (text_of st.approver)
    require (str_eq (signing_key_id lib public_hex) (text_of st.approver_key_id)) other_key
    raise_if (str_eq (text_of st.approver) (text_of st.requester)) self_approval
    require (str_eq (text_of st.requester) user) other_requester
    require (verify_statement lib (some public_hex) st signature) bad_signature
    raise_if (text_lt (text_of st.approval_expires_at) now) expired
    raise_if (text_lt now (text_of st.approved_at)) from_future

  module _ (web : Authenticators) where
    prove_presence :
        Custodian → Entry → String → Statement → Call → Result CustodianError (Option Present)
    prove_presence c entry now st call = do
      credential ← map_error custody (credential_from_registry entry none none)
      require (is_some call.proof_statement && has_proof call.proof) proof_needed
      present ← map_error presence (
          verify lib web credential call.proof_statement call.proof st call.requester now
            c.presence_max_ttl true)
      ok (some present)

    -- `_check_presence`
    unfoldable pub check_presence :
        Custodian → String → Statement → Call → Result CustodianError (Option Present)
    unfolding prove_presence
    check_presence c now st call =
        if str_eq c.presence_mode "off"
        then ok none
        else elim (lookup call.requester c.requesters) [
          | none ↦ if str_eq c.presence_mode "required" then raise not_enrolled else ok none
          | some entry ↦ prove_presence c entry now st call
        ]

module _ (lib : Library) (web : Authenticators) (crypto : Crypto) (json : Json) where
  -- everything that `open` checks before it spends
  unfoldable pub admit :
      (String → String) → Custodian → Times → Call → Result CustodianError Admitted
  admit blind_index_of c t call = do
    check_registries c.registry_versions call.registry_versions
    name ← check_envelope crypto c call.envelope call.identity
    check_approval lib c t.approval call.statement call.signature call.requester
    st ← some_or call.statement malformed
    check_scope (blind_index_of (text_of st.target_plate)) call.identity st
    present ← check_presence lib web c t.presence st call
    ok (record { statement = st; suite = name; present = present })

  -- the agreement and what follows it
  unfoldable pub derive_and_open :
      Custodian → Call → Admitted → Option ℕ → Result CustodianError Opened
  derive_and_open c call a count = do
    peer ← some_or (bind_option call.envelope.ephemeral_pub crypto.b64decode) could_not_open
    shared ← map_error no_agreement (c.agreement.agree peer)
    fields ←
        some_or
          (open_shared crypto json call.envelope
            (aad_for json call.envelope (sighting_of call.identity)) shared)
          could_not_open
    ok (record { fields = fields; use_count = count; presence = a.present; suite = a.suite })

  -- the claim comes before the agreement
  unfoldable pub spend_and_open :
      Custodian
      → Times
      → Option Store
      → Call
      → Result CustodianError Admitted
      → Option Store × Result CustodianError Opened
  unfolding spend
  spend_and_open c t s call (raise e) = (s, raise e)
  spend_and_open c t s call (ok a) =
      let (s', count) = spend s t.usage (claim_of c call a) in
      (s', count >>= derive_and_open c call a)

  -- `open`, with a scope function
  unfoldable pub open_one :
      (String → String)
      → Custodian
      → Times
      → Option Store
      → Call
      → Option Store × Result CustodianError Opened
  open_one blind_index_of c t s call = spend_and_open c t s call (admit blind_index_of c t call)
