-- ===== src/Presence.antt =====
-- justikey/presence.py: what a requester signs at the moment of a disclosure, and its verification.
pub mod Binding
use justi_key.Common.{
  ℕ, ◌+◌, ◌*◌, Bool, true, false, not, ◌&&◌, String, List, [], ◌∷◌, Option, none, some, is_some,
  ltb, text_lt, text_le, Result, ok, raise, require, raise_if, some_or, map_error, ◌>>=◌, ◌>>◌,
  if◌then◌else◌,
}
use justi_key.Statements.{
  Statement, ProofStatement, Stored, Credential, has_text, text_of, opt_str_eq, opt_is,
}
use justi_key.Library.{Library}
use justi_key.Approvals.{canonical}
use justi_key.Custody.{CustodyError, Authenticators, Proved, credential_key_id, verify_proof}

pub data Field : Type 0 where
  approval_nonce statement_digest requester requester_key_id request_nonce issued_at expires_at :
      Field

pub data PresenceError : Type 0 where
  malformed unsupported_schema : PresenceError
  missing : Field → PresenceError
  other_approval other_scope other_person other_requester other_key : PresenceError
  from_future stale too_long : PresenceError
  custody : CustodyError → PresenceError
  -- `timeutil.parse_dt` raised a ValueError, which is no PresenceError
  value_error : PresenceError

abbrev pub presence_version : ℕ
presence_version = 1

-- what `verify` returns
pub record Present : Type 0 where
  pub proved : Proved
  pub requester : String
  pub request_nonce : String

-- `for field in REQUIRED_FIELDS: if not proof_statement.get(field): raise`
abbrev pub first_missing : {F : Type 0} → List (F × Option String) → Option F
first_missing [] = none
first_missing ((f, o) ∷ rest) = if has_text o then first_missing rest else some f

-- the first required field that is not there, in the order of REQUIRED_FIELDS
unfoldable pub missing_field : ProofStatement → Option Field
missing_field p = first_missing (
    (approval_nonce, p.approval_nonce)
    ∷ (statement_digest, p.statement_digest)
    ∷ (requester, p.requester)
    ∷ (requester_key_id, p.requester_key_id)
    ∷ (request_nonce, p.request_nonce)
    ∷ (issued_at, p.issued_at)
    ∷ (expires_at, p.expires_at)
    ∷ [])

abbrev pub raise_some : {E F : Type 0} → (F → E) → Option F → Result E (Unit {0})
raise_some e none = ok tt
raise_some e (some f) = raise (e f)

module _ (lib : Library) where
  open lib use {sha256, parse_dt, dumps_proof}

  -- `presence.statement_digest`
  unfoldable pub digest_of : Statement → String
  digest_of statement = sha256 (canonical lib statement)

  -- `build`: the statement of presence, with the nonce and the two times that it draws
  unfoldable pub build : Statement → String → String → String → String → ProofStatement
  build statement key_id nonce issued expires = record {
    v = some presence_version;
    approval_nonce = statement.nonce;
    statement_digest = some (digest_of statement);
    requester = statement.requester;
    requester_key_id = some key_id;
    request_nonce = some nonce;
    issued_at = some issued;
    expires_at = some expires;
  }

  -- The binding of a proof to one approval, its scope and its person.
  check_binding : Credential → ProofStatement → Statement → String → Result PresenceError (Unit {0})
  check_binding credential p statement user = do
    require (opt_str_eq p.approval_nonce statement.nonce) other_approval
    require (opt_str_eq p.statement_digest (some (digest_of statement))) other_scope
    require (opt_str_eq p.requester statement.requester) other_person
    require (opt_str_eq p.requester (some user)) other_requester
    require (opt_str_eq p.requester_key_id (some (credential_key_id lib credential))) other_key

  -- Freshness: `max_ttl` in seconds, the parsed times in microseconds.
  check_freshness : ProofStatement → String → ℕ → Result PresenceError (Unit {0})
  check_freshness p now max_ttl = do
    raise_if (text_lt now (text_of p.issued_at)) from_future
    raise_if (text_le (text_of p.expires_at) now) stale
    expires ← some_or (parse_dt (text_of p.expires_at)) value_error
    issued ← some_or (parse_dt (text_of p.issued_at)) value_error
    raise_if (ltb (issued + max_ttl * 1000000) expires) too_long

  module _ (web : Authenticators) where
    -- `verify`: a proof that is no object is none
    unfoldable pub verify :
        Credential
        → Option ProofStatement
        → Stored
        → Statement
        → String
        → String
        → ℕ
        → Bool
        → Result PresenceError Present
    unfolding missing_field check_binding check_freshness
    verify credential proof_statement proof statement user now max_ttl uv = do
      p ← some_or proof_statement malformed
      require (opt_is p.v presence_version) unsupported_schema
      raise_some missing (missing_field p)
      check_binding credential p statement user
      check_freshness p now max_ttl
      proved ← map_error custody (verify_proof lib web credential (dumps_proof p) proof uv)
      ok (record {
        proved = proved;
        requester = text_of p.requester;
        request_nonce = text_of p.request_nonce;
      })
