-- ===== src/Disclosure.antt =====
-- `DisclosureService` of justikey/disclosure.py, where it holds the private key itself (no custodian
-- is configured). The opener (`sealing.RecordOpener`) is a parameter; the registries are what
-- `parse_registry` admitted. A call takes the times that it reads from the clock, in their order, and
-- the usage store, and returns the store after it beside its result.
mod Data
pub mod Authority
pub mod Scope
pub mod Atomic
pub mod Cap
pub use Data.*
use justi_key.Common.{
  ℕ, ◌+◌, max, Bool, true, false, not, ◌&&◌, ◌||◌, String, List, [], ◌∷◌, Option, none, some,
  is_some, get_or, bind_option, map_option, str_eq, text_lt, text_le, Table, lookup, Result, ok,
  raise, require, raise_if, some_or, map_error, ◌>>=◌, ◌>>◌, if◌then◌else◌, is_truthy,
}
use justi_key.Statements.{
  Statement, ProofStatement, Stored, absent, object, written, Hardware, Credential, software,
  hardware, Entry, has_text, has_number, text_of, opt_str_eq, opt_is, Proof,
}
use justi_key.Library.{Library}
use justi_key.Approvals.{statement_version, signing_key_id, verify_statement}
use justi_key.Custody.{
  CustodyError, Authenticators, Proved, by_software, by_hardware, credential_from_registry,
}
use justi_key.Presence.{PresenceError, Present, verify, first_missing, raise_some}
use justi_key.Usage.{
  Store, Refusal, Outcome, claimed, refused, Claim, claim, sign_count, record_sign_count,
}

-- the required fields that hold a text
abbrev pub required_texts : Statement → List (Field × Option String)
required_texts st =
    (target_plate, st.target_plate)
    ∷ (window_start, st.window_start)
    ∷ (window_end, st.window_end)
    ∷ (requester, st.requester)
    ∷ (approver, st.approver)
    ∷ (approved_at, st.approved_at)
    ∷ (approval_expires_at, st.approval_expires_at)
    ∷ (nonce, st.nonce)
    ∷ (approver_key_id, st.approver_key_id)
    ∷ []

-- the first required field that an approval statement lacks, in the order of the loop
unfoldable pub missing_field : Statement → Option Field
missing_field st = elim (has_number st.authorization_id) [
  | false ↦ some authorization_id
  | true ↦ first_missing (required_texts st)
]

-- a stored proof is there: not None, not empty
abbrev pub has_proof : Stored → Bool
has_proof absent = false
has_proof (object _) = true
has_proof (written s) = is_truthy s

-- The registry's counter, raised to what the usage store has seen.
unfoldable pub raise_counter : Option Store → Credential → Credential
raise_counter none c = c
raise_counter (some s) (software k) = software k
raise_counter (some s) (hardware h) = elim (sign_count s h.credential_id) [
  | none ↦ hardware h
  | some seen ↦ hardware (record h { sign_count = max h.sign_count seen })
]

-- `_approver_key`
unfoldable pub approver_key : Service → String → Result DisclosureError String
approver_key svc username = do
  entry ← some_or (lookup username svc.approvers) approver_unknown
  raise_if entry.revoked approver_revoked
  ok (text_of entry.public_key)

-- `_requester_credential`
unfoldable pub requester_credential :
    Service → Option Store → String → Result DisclosureError (Option Credential)
unfolding raise_counter
requester_credential svc s username = elim (lookup username svc.requesters) [
  | none ↦ ok none
  | some entry ↦ do
    c ← map_error custody (credential_from_registry entry svc.rp_id svc.origin)
    ok (some (raise_counter s c))
]

-- The counter that a hardware proof leaves behind (`record_sign_count` in `verify_presence`).
unfoldable pub note_proved : String → Store → Proved → Store
note_proved now s by_software = s
note_proved now s (by_hardware credential_id count) = record_sign_count s now credential_id count

unfoldable pub note_counter : String → Option Store → Option Present → Option Store
unfolding note_proved
note_counter now none present = none
note_counter now (some s) none = some s
note_counter now (some s) (some present) = some (note_proved now s present.proved)

-- the rows that an approval covers
abbrev pub in_scope : String → Statement → Row → Bool
in_scope target st row =
    opt_str_eq row.plate_index (some target)
    && text_le (text_of st.window_start) (get_or row.captured_at "")
    && text_le (get_or row.captured_at "") (text_of st.window_end)

-- the loop of `disclose`: a row out of scope is passed over unopened
unfoldable pub reveal :
    (Row → Option Fields) → (Row → Bool) → List Row → Result DisclosureError (List Opened)
reveal opener covers [] = ok []
reveal opener covers (row ∷ rows) = elim (covers row) [
  | false ↦ reveal opener covers rows
  | true ↦ elim (opener row) [
    | none ↦ raise sealing
    | some fields ↦ do
      rest ← reveal opener covers rows
      ok (record { id = row.id; plate = fields.plate; location = fields.location } ∷ rest)
  ]
]

-- what the request spends: one use of the approval, and the nonce of the presence
abbrev pub claim_of : Service → Statement → Option Present → Request → Claim
claim_of svc st present req = record {
  nonce = text_of st.nonce;
  authorization_id = st.authorization_id;
  expires_at = text_of st.approval_expires_at;
  limit = svc.max_disclosures;
  presence_nonce = map_option (λ (p : Present). p.request_nonce) present;
  presence_expires_at = bind_option req.proof_statement (λ (p : ProofStatement). p.expires_at);
}

abbrev pub count_claimed : Outcome → Result DisclosureError (Option ℕ)
count_claimed (claimed k) = ok (some k)
count_claimed (refused _ r) = raise (usage r)

unfoldable pub spend :
    Option Store → String → Claim → Option Store × Result DisclosureError (Option ℕ)
spend none now c = (none, ok none)
spend (some s) now c = (some (claim s now c).0, count_claimed (claim s now c).1)

module _ (lib : Library) where
  open lib use {hmac_sha256, strip, upper}

  -- `blind_index`
  unfoldable pub blind_index : String → String → String
  blind_index key plate = hmac_sha256 key (upper (strip plate))

  -- `verify_approval`: the registered key of the approver
  unfoldable pub verify_approval :
      Service → String → Option Statement → Option String → Result DisclosureError String
  unfolding missing_field approver_key
  verify_approval svc now statement signature = do
    st ← some_or statement malformed
    require (opt_is st.v statement_version) unsupported_schema
    raise_some missing (missing_field st)
    public_hex ← approver_key svc (text_of st.approver)
    require (str_eq (signing_key_id lib public_hex) (text_of st.approver_key_id)) other_key
    raise_if (str_eq (text_of st.approver) (text_of st.requester)) self_approval
    require (verify_statement lib (some public_hex) st signature) bad_signature
    raise_if (text_lt (text_of st.approval_expires_at) now) expired
    raise_if (text_lt now (text_of st.approved_at)) from_future
    ok public_hex

  module _ (web : Authenticators) where
    check_presence :
        Service → Credential → String → Statement → Request → Result DisclosureError Present
    check_presence svc c now st req = do
      require (is_some req.proof_statement && has_proof req.proof) proof_needed
      map_error presence (
          verify lib web c req.proof_statement req.proof st req.requester now svc.presence_max_ttl
            svc.require_user_verification)

    -- `verify_presence`
    unfoldable pub verify_presence :
        Service
        → Option Store
        → String
        → Statement
        → Request
        → Result DisclosureError (Option Present)
    unfolding check_presence requester_credential
    verify_presence svc s now st req = if str_eq svc.presence_mode "off" then ok none else do
      credential ← requester_credential svc s req.requester
      elim credential [
        | none ↦ if str_eq svc.presence_mode "required" then raise no_requester_key else ok none
        | some c ↦ do present ← check_presence svc c now st req; ok (some present)
      ]

    -- Everything that `disclose` checks before it spends.
    unfoldable pub admit :
        Service
        → Times
        → Option Store
        → Request
        → Result DisclosureError (Statement × Option Present)
    admit svc t s req = do
      public_hex ← verify_approval svc t.approval req.statement req.signature
      st ← some_or req.statement malformed
      require (str_eq (text_of st.requester) req.requester) other_requester
      present ← verify_presence svc s t.presence st req
      ok (st, present)

    unfoldable pub open_covered :
        Service → Statement → Option Present → Request → Option ℕ → Result DisclosureError Disclosed
    open_covered svc st present req count = do
      key ← some_or svc.index_key no_index_key
      opened ← reveal svc.opener (in_scope (blind_index key (text_of st.target_plate)) st) req.rows
      ok (record { opened = opened; use_count = count; presence = present })

    -- `disclose` after the checks: spend, then open
    unfoldable pub spend_and_open :
        Service
        → Times
        → Option Store
        → Request
        → Statement × Option Present
        → Option Store × Result DisclosureError Disclosed
    spend_and_open svc t s req (st, present) =
        let s' = note_counter t.usage s present in
        let (s'', spent) = spend s' t.usage (claim_of svc st present req) in
        (s'', spent >>= open_covered svc st present req)

    -- the rest of `disclose`, on what the checks answer
    unfoldable pub after_checks :
        Service
        → Times
        → Option Store
        → Request
        → Result DisclosureError (Statement × Option Present)
        → Option Store × Result DisclosureError Disclosed
    after_checks svc t s req (raise e) = (s, raise e)
    after_checks svc t s req (ok admitted) = spend_and_open svc t s req admitted

    -- `disclose`
    unfoldable pub disclose :
        Service → Times → Option Store → Request → Option Store × Result DisclosureError Disclosed
    disclose svc t s req = after_checks svc t s req (admit svc t s req)
