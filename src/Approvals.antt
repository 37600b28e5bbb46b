-- ===== src/Approvals.antt =====
-- justikey/approvals.py: the statement an approver signs, built from the authorization's row, and its
-- verification. Key generation and wrapping are calls of the library and are not modelled.
use Prim.Native.String.{◌++◌, slice}
use justi_key.Common.{
  ℕ, Bool, ◌&&◌, String, Option, some, get_or, str_eq, Result, require, raise_if, some_or, ◌>>=◌,
  ◌>>◌, bind_option,
}
use justi_key.Statements.{Statement, has_text, text_of}
use justi_key.Library.{Library, decimal}

-- a row of `authorizations` (justikey/db.py)
pub record AuthRow : Type 0 where
  pub id : ℕ
  pub case_number : String
  pub legal_authority : String
  pub purpose : String
  pub target_plate : String
  pub window_start : String
  pub window_end : String
  pub requested_by : ℕ
  pub requested_at : String
  pub status : String
  pub approved_by : Option ℕ
  pub approved_at : Option String
  pub approval_expires_at : Option String
  pub approval_signature : Option String
  pub denial_reason : Option String
  pub disclosure_count : ℕ

-- a row of `users`, in the columns that authorization reads
pub record User : Type 0 where
  pub id : ℕ
  pub username : String
  pub role : String
  pub signing_pub : Option String
  pub signing_key_revoked_at : Option String

-- the reasons that `verify_authorization` gives
pub data Unverified : Type 0 where
  not_approved no_signature no_person no_key key_revoked bad_signature : Unverified

abbrev pub statement_version : ℕ
statement_version = 2

-- how an f-string writes a text that may be None
abbrev pub format : Option String → String
format o = get_or o "None"

module _ (lib : Library) where
  open lib use {sha256, sha256_of_hex, ed25519_verify, dumps_statement}

  -- `sealing.legacy_key_id`, which `signing_key_id` passes on
  unfoldable pub legacy_key_id : String → String
  legacy_key_id public_hex = slice (sha256_of_hex public_hex) 0 16

  abbrev pub signing_key_id : String → String
  signing_key_id public_hex = legacy_key_id public_hex

  unfoldable pub statement_nonce : AuthRow → Option String → String
  statement_nonce row approved_at =
      slice (sha256 (decimal row.id ++ "|" ++ format approved_at ++ "|" ++ row.target_plate)) 0 32

  unfoldable pub build_statement :
      AuthRow → String → String → Option String → Option String → Option String → Statement
  build_statement row requester approver approved_at expires_at approver_key_id = record {
    v = some statement_version;
    authorization_id = some row.id;
    approver_key_id = approver_key_id;
    nonce = some (statement_nonce row approved_at);
    case_number = some row.case_number;
    legal_authority = some row.legal_authority;
    purpose = some row.purpose;
    target_plate = some row.target_plate;
    window_start = some row.window_start;
    window_end = some row.window_end;
    requester = some requester;
    approver = some approver;
    approved_at = approved_at;
    approval_expires_at = expires_at;
  }

  abbrev pub canonical : Statement → String
  canonical = dumps_statement

  unfoldable pub verify_statement : Option String → Statement → Option String → Bool
  verify_statement public_hex statement signature =
      has_text public_hex
      && has_text signature
      && ed25519_verify (text_of public_hex) (canonical statement) (text_of signature)

  -- `verify_authorization`: the statement is rebuilt from the row as it is now. `user` is
  -- `models.get_user_by_id`; a row that nobody approved has no approver.
  unfoldable pub verify_authorization : (ℕ → Option User) → AuthRow → Result Unverified (Unit {0})
  verify_authorization user row = do
    require (str_eq row.status "approved") not_approved
    require (has_text row.approval_signature) no_signature
    approver ← some_or (bind_option row.approved_by user) no_person
    requester ← some_or (user row.requested_by) no_person
    require (has_text approver.signing_pub) no_key
    raise_if (has_text approver.signing_key_revoked_at) key_revoked
    let statement =
        build_statement row requester.username approver.username row.approved_at
          row.approval_expires_at (some (signing_key_id (text_of approver.signing_pub)))
    require (verify_statement approver.signing_pub statement row.approval_signature) bad_signature
