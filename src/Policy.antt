-- ===== src/Policy.antt =====
-- `evaluate_disclosure` of justikey/policy.py, over sealed records and a disclosure service that holds the
-- key. What it reads from the database (the authorizations, the users, the sealed rows in the order of
-- their times, the requester's authenticator) and from the clock are arguments.
pub mod Allowed
use justi_key.Common.{
  ℕ, ◌+◌, ◌-◌, ◌*◌, Bool, true, false, not, ◌&&◌, ◌||◌, String, List, [], ◌∷◌, Option, none, some,
  Result, ok, raise, require, raise_if, some_or, map_error, ◌>>=◌, ◌>>◌, if◌then◌else◌, ltb, leb,
  ◌==◌, is_some, keep, str_eq, text_lt, text_le, bind_option, map_option, get_or,
}
use justi_key.Statements.{
  Statement, ProofStatement, Stored, absent, Entry, HardwareEntry, Credential, has_text, text_of,
  opt_str_eq,
}
use justi_key.Library.{Library}
use justi_key.Approvals.{
  AuthRow, User, Unverified, no_signature, signing_key_id, build_statement, verify_authorization,
}
use justi_key.Review.{get_authorization}
use justi_key.Custody.{Authenticators, credential_from_registry, credential_key_id}
use justi_key.Presence.{build, value_error}
use justi_key.Usage.{Store}
use justi_key.Disclosure.{
  Service, Times, Request, Row, Opened, Disclosed, DisclosureError, presence, blind_index, disclose,
}

-- the keys of DENIAL_MESSAGES, and an exception that leaves the function
pub data Denial : Type 0 where
  authorization_not_found not_owned_by_requester authorization_not_approved authorization_expired :
      Denial
  plate_mismatch window_too_broad disclosure_limit_reached approval_signature_invalid : Denial
  disclosure_refused disclosure_unavailable presence_required presence_invalid
        presence_unavailable :
      Denial
  escaped : Denial

pub record Configuration : Type 0 where
  pub max_window_days : ℕ
  pub require_signed_approvals : Bool
  pub max_disclosures : ℕ
  pub presence_mode : String
  pub rp_id : Option String
  pub origin : Option String

-- an event that is shown
pub record Event : Type 0 where
  pub row : Row
  pub plate : Option String
  pub location : Option String

-- what `evaluate_disclosure` draws and reads while it runs
pub record Readings : Type 0 where
  pub now : String
  pub nonce : String
  pub issued_at : String
  pub expires_at : String
  pub times : Times

-- what it finds in the database
pub record Database : Type 0 where
  pub authorizations : List AuthRow
  pub user : ℕ → Option User
  pub events : List Row
  pub authenticator : ℕ → Option HardwareEntry

-- whether the reason of an approval that does not verify may be passed over
unfoldable pub tolerated : Bool → Result Unverified (Unit {0}) → Bool
tolerated signed (ok _) = true
tolerated signed (raise no_signature) = not signed
tolerated signed (raise _) = false

-- `by_id`: of the opened records with one id it keeps the last
unfoldable pub opened_of : List Opened → ℕ → Option Opened
opened_of [] i = none
opened_of (o ∷ os) i = elim (opened_of os i) [
  | some later ↦ some later
  | none ↦ if o.id == i then some o else none
]

-- `event["plate"], event["location"]` of the candidates that were opened
unfoldable pub shown : List Opened → List Row → List Event
unfolding opened_of
shown opened [] = []
shown opened (row ∷ rows) = elim (opened_of opened row.id) [
  | none ↦ shown opened rows
  | some o ↦ record { row = row; plate = o.plate; location = o.location } ∷ shown opened rows
]

-- the rows of `search_events` under a token
abbrev pub matches : String → AuthRow → Row → Bool
matches token auth row =
    opt_str_eq row.plate_index (some token)
    && text_le auth.window_start (get_or row.captured_at "")
    && text_le (get_or row.captured_at "") auth.window_end

module _ (lib : Library) (web : Authenticators) (cfg : Configuration) (db : Database) where
  -- `check_window_breadth`; none is the ValueError of a time
  unfoldable pub check_window_breadth : String → String → Option Bool
  check_window_breadth window_start window_end =
      if cfg.max_window_days == 0
      then some true
      else bind_option (lib.parse_dt window_end) (λ end.
        bind_option (lib.parse_dt window_start)
          (λ start. some (leb (end - start) (cfg.max_window_days * 86400000000))))

  -- the checks of the authorization
  unfoldable pub authorize : ℕ → String → User → String → Result Denial AuthRow
  unfolding check_window_breadth tolerated
  authorize auth_id plate actor now = do
    row ← some_or (get_authorization auth_id db.authorizations) authorization_not_found
    require (row.requested_by == actor.id) not_owned_by_requester
    require (str_eq row.status "approved") authorization_not_approved
    require
        (has_text row.approval_expires_at && not (text_le (text_of row.approval_expires_at) now))
        authorization_expired
    require (str_eq (lib.upper (lib.strip plate)) row.target_plate) plate_mismatch
    narrow ← some_or (check_window_breadth row.window_start row.window_end) escaped
    require narrow window_too_broad
    require (tolerated cfg.require_signed_approvals (verify_authorization lib db.user row))
        approval_signature_invalid
    raise_if (ltb 0 cfg.max_disclosures && leb cfg.max_disclosures row.disclosure_count)
        disclosure_limit_reached
    ok row

  -- the statement that the approver signed, rebuilt; none is the TypeError of an approver without a key
  unfoldable pub statement_of : User → AuthRow → Option Statement
  statement_of actor row = bind_option (bind_option row.approved_by db.user) (λ approver.
      bind_option approver.signing_pub (λ public_hex. some (
        build_statement lib row actor.username approver.username row.approved_at
          row.approval_expires_at (some (signing_key_id lib public_hex)))))

  -- `models.presence_credential`; a CustodyError is no credential
  unfoldable pub presence_credential : User → Option Credential
  presence_credential actor =
      if not (has_text actor.signing_pub)
      then none
      else credential_or (
          credential_from_registry
            (record {
              public_key = actor.signing_pub;
              revoked = has_text actor.signing_key_revoked_at;
              webauthn = map_option some (db.authenticator actor.id);
            })
            cfg.rp_id cfg.origin)
    where
      credential_or : {E : Type 0} → Result E Credential → Option Credential
      credential_or (ok c) = some c
      credential_or (raise e) = none

  -- the proof of presence: `prove` signs or asks the authenticator, and answers none where it raises
  unfoldable pub prove :
      Option (ProofStatement → Option Stored)
      → Readings
      → Statement
      → Option Credential
      → Result Denial (Option ProofStatement × Stored)
  prove by t st credential =
      if str_eq cfg.presence_mode "off" then ok (none, absent) else elim credential [
        | none ↦
            if str_eq cfg.presence_mode "required"
            then raise presence_unavailable
            else ok (none, absent)
        | some c ↦ elim by [
          | none ↦ raise presence_required
          | some signed ↦
              let p = build lib st (credential_key_id lib c) t.nonce t.issued_at t.expires_at in
              (some_or (signed p) presence_invalid >>= λ proof. ok (some p, proof))
        ]
      ]

  -- the candidates, the statement and the proof that are handed to the service
  unfoldable pub prepare :
      Service
      → ℕ
      → String
      → User
      → Option (ProofStatement → Option Stored)
      → Readings
      → Result Denial (AuthRow × Request)
  unfolding authorize statement_of presence_credential prove
  prepare svc auth_id plate actor by t = do
    row ← authorize auth_id plate actor t.now
    st ← some_or (statement_of actor row) escaped
    key ← some_or svc.index_key disclosure_unavailable
    (p, proof) ← prove by t st (presence_credential actor)
    ok (
      row,
      record {
        rows = keep (matches (blind_index lib key (text_of st.target_plate)) row) db.events;
        statement = some st;
        signature = row.approval_signature;
        requester = actor.username;
        proof_statement = p;
        proof = proof;
      },
    )

  answer :
      List Row
      → Option Store × Result DisclosureError Disclosed
      → Option Store × Result Denial (List Event)
  -- the ValueError of a time in the proof of presence is neither a DisclosureError nor a SealingError
  answer rows (s, raise (presence value_error)) = (s, raise escaped)
  answer rows (s, raise e) = (s, raise disclosure_refused)
  answer rows (s, ok d) = (s, ok (shown d.opened rows))

  after_prepare :
      Service
      → Readings
      → Option Store
      → Result Denial (AuthRow × Request)
      → Option Store × Result Denial (List Event)
  unfolding answer
  after_prepare svc t s (raise e) = (s, raise e)
  after_prepare svc t s (ok (row, req)) = answer req.rows (disclose lib web svc t.times s req)

  -- `evaluate_disclosure`
  unfoldable pub evaluate_disclosure :
      Service
      → ℕ
      → String
      → User
      → Option (ProofStatement → Option Stored)
      → Readings
      → Option Store
      → Option Store × Result Denial (List Event)
  unfolding prepare after_prepare
  evaluate_disclosure svc auth_id plate actor by t s =
      after_prepare svc t s (prepare svc auth_id plate actor by t)
