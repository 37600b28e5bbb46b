-- ===== src/Disclosure/Data.antt =====
-- The data of `DisclosureService` (justikey/disclosure.py): its configuration, what a caller sends, what
-- it answers, and its errors.
use justi_key.Common.{ℕ, Bool, String, List, Option, Table}
use justi_key.Statements.{Statement, ProofStatement, Stored, Entry}
use justi_key.Custody.{CustodyError}
use justi_key.Presence.{PresenceError, Present}
use justi_key.Usage.{Refusal}

pub data Field : Type 0 where
  authorization_id target_plate window_start window_end requester approver approved_at : Field
  approval_expires_at nonce approver_key_id : Field

pub data DisclosureError : Type 0 where
  malformed unsupported_schema : DisclosureError
  missing : Field → DisclosureError
  approver_unknown approver_revoked other_key self_approval bad_signature : DisclosureError
  expired from_future other_requester : DisclosureError
  no_requester_key proof_needed no_index_key : DisclosureError
  custody : CustodyError → DisclosureError
  presence : PresenceError → DisclosureError
  usage : Refusal → DisclosureError
  -- a SealingError of the opener, which is no DisclosureError
  sealing : DisclosureError

-- a candidate row, with its sealed material as the opener reads it
pub record Row : Type 0 where
  pub id : ℕ
  pub plate_index : Option String
  pub captured_at : Option String
  pub camera_id : Option String
  pub sealed : String

-- the protected fields of a record
pub record Fields : Type 0 where
  pub plate : Option String
  pub location : Option String

pub record Opened : Type 0 where
  pub id : ℕ
  pub plate : Option String
  pub location : Option String

pub record Service : Type 0 where
  pub opener : Row → Option Fields
  pub index_key : Option String
  pub approvers : Table Entry
  pub requesters : Table Entry
  pub presence_mode : String
  pub max_disclosures : ℕ
  pub rp_id : Option String
  pub origin : Option String
  pub require_user_verification : Bool
  pub presence_max_ttl : ℕ

-- what a caller sends
pub record Request : Type 0 where
  pub rows : List Row
  pub statement : Option Statement
  pub signature : Option String
  pub requester : String
  pub proof_statement : Option ProofStatement
  pub proof : Stored

-- the times read in `verify_approval`, in `presence.verify`, and in the usage store
pub record Times : Type 0 where
  pub approval : String
  pub presence : String
  pub usage : String

-- the list returned, with `last_use_count` and `last_presence`
pub record Disclosed : Type 0 where
  pub opened : List Opened
  pub use_count : Option ℕ
  pub presence : Option Present
