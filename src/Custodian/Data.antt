-- ===== src/Custodian/Data.antt =====
-- The data of `Custodian` and of its backends (justikey/custodian.py): errors, what it holds, what it is
-- called with and what it returns.
use justi_key.Common.{ℕ, Bool, String, List, Option, Table, Result}
use justi_key.Statements.{Statement, ProofStatement, Stored, Entry}
use justi_key.Custody.{CustodyError}
use justi_key.Presence.{PresenceError, Present}
use justi_key.Usage.{Refusal}
use justi_key.Disclosure.{Field, Fields}
use justi_key.Kem.{Bytes}
use justi_key.Sealing.{Envelope, SealingError}

pub data EnvelopeField : Type 0 where
  record_uid seal_version recipient_key_id record_ct wrapped_key ephemeral_pub : EnvelopeField

pub data IdentityField : Type 0 where
  captured_at camera_id plate_index : IdentityField

-- the ways in which a backend gives no secret
pub data AgreementError : Type 0 where
  -- a KemError of the suite
  point_refused : AgreementError
  -- AgreementUnavailable
  unprepared call_failed : AgreementError
  no_ciphertext plaintext_returned other_recipient no_secret : AgreementError
  -- an exception that the backend does not foresee
  unhandled : AgreementError

pub data CustodianError : Type 0 where
  registry_unstated registry_differs : String → CustodianError
  envelope_missing : EnvelopeField → CustodianError
  unsealable : SealingError → CustodianError
  suite_refused key_not_held unusable_point : CustodianError
  other_identity : CustodianError
  identity_missing : IdentityField → CustodianError
  malformed unsupported_schema : CustodianError
  approval_missing : Field → CustodianError
  approver_unknown approver_revoked other_key self_approval other_requester bad_signature :
      CustodianError
  expired from_future : CustodianError
  other_plate outside_window : CustodianError
  not_enrolled proof_needed : CustodianError
  presence : PresenceError → CustodianError
  -- a CustodyError of `credential_from_registry`, which is no CustodianError
  custody : CustodyError → CustodianError
  usage : Refusal → CustodianError
  no_agreement : AgreementError → CustodianError
  could_not_open : CustodianError
  -- the TypeError of a null in a comparison, which is no CustodianError
  type_error : CustodianError

-- What a caller says of the record, beside its envelope. Of the last three it counts whether the key is
-- there: none is a key that is not, some none is null.
pub record Identity : Type 0 where
  pub record_uid : Option String
  pub captured_at : Option (Option String)
  pub camera_id : Option (Option String)
  pub plate_index : Option (Option String)

-- a backend: which keys it holds, and one agreement
pub record Agreement : Type 0 where
  pub accepts : Option String → Bool
  pub agree : Bytes → Result AgreementError Bytes

pub record Custodian : Type 0 where
  pub agreement : Agreement
  pub approvers : Table Entry
  pub requesters : Table Entry
  pub max_disclosures : ℕ
  pub presence_mode : String
  pub presence_max_ttl : ℕ
  pub accepted_kems : List String
  pub registry_versions : Table ℕ

-- what `open` is called with
pub record Call : Type 0 where
  pub envelope : Envelope
  pub identity : Identity
  pub statement : Option Statement
  pub signature : Option String
  pub requester : String
  pub proof_statement : Option ProofStatement
  pub proof : Stored
  pub registry_versions : Option (Table ℕ)

-- the times read in `_check_approval`, in `presence.verify` and in the usage store
pub record Times : Type 0 where
  pub approval : String
  pub presence : String
  pub usage : String

-- what `open` returns
pub record Opened : Type 0 where
  pub fields : Fields
  pub use_count : Option ℕ
  pub presence : Option Present
  pub suite : String

-- what is established before anything is spent
pub record Admitted : Type 0 where
  pub statement : Statement
  pub suite : String
  pub present : Option Present
