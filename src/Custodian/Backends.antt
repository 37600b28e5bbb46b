-- ===== src/Custodian/Backends.antt =====
-- The backends of justikey/custodian.py: `LocalAgreement`, `KmsAgreement`, and the client side of a
-- custodian that is reached over a transport, `RemoteCustodian._call`.
use justi_key.Common.{
  ℕ, Bool, true, false, not, ◌||◌, ◌&&◌, String, [], ◌∷◌, ◌++◌, Option, none, some, Result, ok,
  raise, require, raise_if, some_or, map_error, ◌>>=◌, ◌>>◌, if◌then◌else◌, ◌==◌, is_some, str_eq,
}
use justi_key.Statements.{opt_str_eq}
use justi_key.Library.{Library}
use justi_key.Approvals.{legacy_key_id}
use justi_key.Kem.{
  AgreeError, kem_error, value_error, Bytes, Crypto, Suite, p256, p256_ecdh, suite,
  validate_peer_public, public_bytes, is_private, agree, key_id,
}
use justi_key.Sealing.{or_default}
use justi_key.Kem
use justi_key.Enclave.{EnclaveError, index_error, Recipient, RecipientKey, recipient_for, decrypt}
use justi_key.Custodian.{
  Agreement, AgreementError, point_refused, unprepared, call_failed, no_ciphertext,
  plaintext_returned, other_recipient, no_secret, unhandled,
}

pub record LocalAgreement : Type 0 where
  pub kem : String
  pub kem_suite : Suite
  pub private : Bytes
  pub key_id : String
  pub legacy_key_id : String

-- `KmsAgreement`: the recipient of every call, or a provider of attestation documents with the key that
-- it draws
pub record KmsAgreement : Type 0 where
  pub key_arn : String
  pub key_id : String
  pub legacy_key_id : Option String
  pub recipient : Option Recipient
  pub enclave_decrypt : Bytes → Bytes
  pub attestation : Option ((Bytes → Option Bytes) × RecipientKey)

pub record KmsRequest : Type 0 where
  pub key_arn : String
  pub algorithm : String
  pub public_key : Bytes
  pub recipient : Option Recipient

pub record KmsResponse : Type 0 where
  pub ciphertext_for_recipient : Option Bytes
  pub shared_secret : Option Bytes

pub data ConfigurationError : Type 0 where
  invalid_private_key unsupported_kem no_way_to_decrypt : ConfigurationError

-- the truth of a byte string that may be missing
abbrev pub has_bytes : Option Bytes → Bool
has_bytes none = false
has_bytes (some []) = false
has_bytes (some (b ∷ raw)) = true

-- SubjectPublicKeyInfo of P-256, before the point
abbrev pub spki_prefix : Bytes
spki_prefix =
    48 ∷ 89 ∷ 48 ∷ 19 ∷ 6 ∷ 7 ∷ 42 ∷ 134 ∷ 72 ∷ 206 ∷ 61 ∷ 2 ∷ 1 ∷ 6 ∷ 8 ∷ 42 ∷ 134 ∷ 72 ∷ 206 ∷ 61
    ∷ 3 ∷ 1 ∷ 7 ∷ 3 ∷ 66 ∷ 0 ∷ []

-- `except enclave.EnclaveError`, which lets an IndexError pass
abbrev pub caught : EnclaveError → AgreementError
caught index_error = unhandled
caught _ = other_recipient

-- `except kem.KemError` around the agreement, which lets a ValueError pass
abbrev pub passed_on : AgreeError → AgreementError
passed_on kem_error = point_refused
passed_on value_error = unhandled

-- `meets_stage_5`
unfoldable pub meets_stage_5 : KmsAgreement → Bool
meets_stage_5 k = is_some k.recipient || is_some k.attestation

-- `accepts` of both backends
unfoldable pub accepts_key : String → Option String → Option String → Bool
accepts_key key_id legacy_key_id recipient =
    opt_str_eq recipient (some key_id) || opt_str_eq recipient legacy_key_id

-- `KmsAgreement.__init__`: what it refuses
unfoldable pub check_kms : Option String → Bool → Bool → Bool → Result ConfigurationError (Unit {0})
check_kms kem_name has_recipient can_decrypt has_attestation = do
  require (str_eq (or_default kem_name p256_ecdh) p256_ecdh) unsupported_kem
  raise_if (has_recipient && not can_decrypt && not has_attestation) no_way_to_decrypt

module _ (crypto : Crypto) where
  -- `LocalAgreement.__init__`
  unfoldable pub make_local :
      Library
      → (Bytes → String)
      → Option Bytes
      → Option String
      → Result ConfigurationError LocalAgreement
  make_local lib hex private_hex kem_name = do
    s ← some_or (suite (or_default kem_name Kem.default_kem)) invalid_private_key
    raw ← some_or private_hex invalid_private_key
    require (is_private crypto s raw) invalid_private_key
    let public = public_bytes crypto s raw
    ok (record {
      kem = or_default kem_name Kem.default_kem;
      kem_suite = s;
      private = raw;
      key_id = Kem.key_id crypto (or_default kem_name Kem.default_kem) public;
      legacy_key_id = legacy_key_id lib (hex public);
    })

  -- `LocalAgreement.agree`
  unfoldable pub local_agree : LocalAgreement → Bytes → Result AgreementError Bytes
  local_agree l peer = map_error passed_on (agree crypto l.kem_suite l.private peer)

  unfoldable pub local_agreement : LocalAgreement → Agreement
  unfolding local_agree accepts_key
  local_agreement l = record {
    accepts = accepts_key l.key_id (some l.legacy_key_id);
    agree = local_agree l;
  }

  -- `_spki`
  unfoldable pub spki : Bytes → Result AgreementError Bytes
  spki public_raw = do
    require (validate_peer_public crypto p256 public_raw) point_refused
    ok (spki_prefix ++ public_raw)

  -- the recipient of one call, and its key where it was drawn for the call
  unfoldable pub recipient_of :
      KmsAgreement → Result AgreementError (Option Recipient × Option RecipientKey)
  recipient_of k = elim k.attestation [
    | none ↦ ok (k.recipient, none)
    | some (document_for, key) ↦ do
      (recipient, drawn) ← map_error (λ e. unprepared) (recipient_for document_for key)
      ok (some recipient, some drawn)
  ]

  module _ (cbc_decrypt : Bytes → Bytes → Bytes → Option Bytes) where
    -- what an attested call answers
    unfoldable pub open_attested :
        KmsAgreement → Option RecipientKey → KmsResponse → Result AgreementError Bytes
    open_attested k drawn response = do
      require (has_bytes response.ciphertext_for_recipient) no_ciphertext
      blob ← some_or response.ciphertext_for_recipient no_ciphertext
      raise_if (has_bytes response.shared_secret) plaintext_returned
      elim drawn [
        | none ↦ ok (k.enclave_decrypt blob)
        | some key ↦ map_error caught (decrypt cbc_decrypt key blob)
      ]

    unfoldable pub read_secret :
        KmsAgreement
        → Option Recipient × Option RecipientKey
        → KmsResponse
        → Result AgreementError Bytes
    unfolding open_attested
    read_secret k (some recipient, drawn) response = open_attested k drawn response
    read_secret k (none, drawn) response = do
      require (has_bytes response.shared_secret) no_secret
      some_or response.shared_secret no_secret

    -- `KmsAgreement.agree`; the client answers none where it raises
    unfoldable pub kms_agree :
        (KmsRequest → Option KmsResponse) → KmsAgreement → Bytes → Result AgreementError Bytes
    unfolding recipient_of spki
    kms_agree derive_shared_secret k peer = do
      require (validate_peer_public crypto p256 peer) point_refused
      public_key ← spki peer
      (recipient, drawn) ← recipient_of k
      let request : KmsRequest = record {
        key_arn = k.key_arn;
        algorithm = "ECDH";
        public_key = public_key;
        recipient = recipient;
      }
      response ← some_or (derive_shared_secret request) call_failed
      read_secret k (recipient, drawn) response

-- what a transport answers: a reply with its status, or nothing
pub data CallError : Type 0 where
  unreachable key_holder_unavailable : CallError
  refused : ℕ → CallError

-- `RemoteCustodian._call`
unfoldable pub call_remote : {A : Type 0} → Option (A × ℕ) → Result CallError A
call_remote none = raise unreachable
call_remote (some (reply, status)) =
    if status == 200
    then ok reply
    else if status == 503
    then raise key_holder_unavailable
    else raise (refused status)
