-- ===== src/Custody.antt =====
-- justikey/custody.py: proof envelopes, credentials and their verification. The verification of a
-- WebAuthn assertion (justikey/webauthn.py) enters through the interface `Authenticators`.
use Prim.Native.String.{◌++◌, slice}
use text.Mathlib.Text.{starts_with}
use justi_key.Common.{
  bind_option, ℕ, Bool, true, false, ◌&&◌, String, Option, none, some, get_or, Result, ok, raise,
  require, raise_if, ◌>>=◌, ◌>>◌,
}
use justi_key.Statements.{
  Proof, ed25519, webauthn, unsupported, Stored, absent, object, written, Assertion, Hardware,
  Credential, software, hardware, Entry, HardwareEntry, has_text, text_of,
}
use justi_key.Library.{Library}
use justi_key.Approvals.{legacy_key_id}

pub data CustodyError : Type 0 where
  no_proof malformed_envelope no_algorithm : CustodyError
  revoked enrolment_incomplete no_public_key : CustodyError
  software_downgrade no_key_material bad_signature : CustodyError
  no_authenticator no_relying_party assertion_refused unsupported_algorithm : CustodyError

-- `webauthn.verify_assertion`: the new counter, or none where it raises. The arguments are the
-- enrolled credential, the assertion, the challenge, the relying party, the origin, and whether the
-- user must have been verified.
pub record Authenticators : Type 0 where
  pub verify_assertion : Hardware → Assertion → String → String → String → Bool → Option ℕ

-- what `verify_proof` returns: which custody, and for hardware the counter to persist
pub data Proved : Type 0 where
  by_software : Proved
  by_hardware : String → ℕ → Proved

unfoldable pub is_hardware : Credential → Bool
is_hardware (software _) = false
is_hardware (hardware _) = true

abbrev pub some_proof : Option Proof → Result CustodyError Proof
some_proof none = raise no_algorithm
some_proof (some p) = ok p

-- `a or b` on optional texts
abbrev pub or_text : Option String → Option String → Option String
or_text a b = elim (has_text a) [ true ↦ a | false ↦ b ]

-- `credential_from_registry`
credential_from_hardware :
    HardwareEntry → Option String → Option String → Result CustodyError Credential
credential_from_hardware h rp_id origin = do
  require (has_text h.credential_id && has_text h.public_key) enrolment_incomplete
  ok (
      hardware (record {
        credential_id = text_of h.credential_id;
        public_key = text_of h.public_key;
        sign_count = get_or h.sign_count 0;
        rp_id = or_text h.rp_id rp_id;
        origin = or_text h.origin origin;
      }))

credential_from_software : Option String → Result CustodyError Credential
credential_from_software public_key = do
  require (has_text public_key) no_public_key
  ok (software (text_of public_key))

unfoldable pub credential_from_registry :
    Entry → Option String → Option String → Result CustodyError Credential
unfolding credential_from_hardware credential_from_software
credential_from_registry entry rp_id origin = do
  raise_if entry.revoked revoked
  elim (bind_option entry.webauthn (λ h. h)) [
    | some h ↦ credential_from_hardware h rp_id origin
    | none ↦ credential_from_software entry.public_key
  ]

module _ (lib : Library) where
  open lib use {sha256, strip, ed25519_verify, loads_proof}

  -- `decode_proof`: a text that does not begin with a brace is a bare signature
  decode_text : String → Result CustodyError Proof
  decode_text t = elim (starts_with t "{") [
    | false ↦ ok (ed25519 (some t))
    | true ↦ elim (loads_proof t) [ none ↦ raise malformed_envelope | some o ↦ some_proof o ]
  ]

  unfoldable pub decode_proof : Stored → Result CustodyError Proof
  unfolding decode_text
  decode_proof absent = raise no_proof
  decode_proof (object o) = some_proof o
  decode_proof (written s) = decode_text (strip s)

  unfoldable pub credential_key_id : Credential → String
  credential_key_id (software public_key) = legacy_key_id lib public_key
  credential_key_id (hardware h) =
      slice (sha256 ("justikey:webauthn-credential:v1" ++ h.credential_id)) 0 16

  module _ (web : Authenticators) where
    open web use {verify_assertion}

    verify_software : Credential → String → Option String → Result CustodyError Proved
    verify_software (hardware _) message sig = raise software_downgrade
    verify_software (software public_key) message sig = do
      require (has_text (some public_key) && has_text sig) no_key_material
      require (ed25519_verify public_key message (text_of sig)) bad_signature
      ok by_software

    verify_hardware : Credential → String → Assertion → Bool → Result CustodyError Proved
    verify_hardware (software _) message assertion uv = raise no_authenticator
    verify_hardware (hardware h) message assertion uv = do
      require (has_text h.rp_id && has_text h.origin) no_relying_party
      elim (verify_assertion h assertion (sha256 message) (text_of h.rp_id) (text_of h.origin) uv) [
        | none ↦ raise assertion_refused
        | some count ↦ ok (by_hardware h.credential_id count)
      ]

    verify_decoded : Credential → String → Bool → Proof → Result CustodyError Proved
    unfolding verify_software verify_hardware
    verify_decoded credential message uv (ed25519 sig) = verify_software credential message sig
    verify_decoded credential message uv (webauthn a) = verify_hardware credential message a uv
    verify_decoded credential message uv (unsupported _) = raise unsupported_algorithm

    unfoldable pub verify_proof : Credential → String → Stored → Bool → Result CustodyError Proved
    unfolding decode_proof verify_decoded
    verify_proof credential message proof uv = do
      p ← decode_proof proof
      verify_decoded credential message uv p
