-- ===== src/Statements.antt =====
-- The values that pass between the application, the disclosure service and the custodian: approval
-- statements (justikey/approvals.py), statements of presence (justikey/presence.py), proof envelopes
-- and credentials (justikey/custody.py). A field that a caller may leave out or set to null is an
-- Option.
use justi_key.Common.{
  ℕ, Bool, true, false, not, String, Option, none, some, ◌==◌, is_truthy, get_or, str_eq, ◌≡◌, ◌↔◌,
  refl, ap, arith, str_eq_iff,
}

-- what an approver signs
pub record Statement : Type 0 where
  pub v : Option ℕ
  pub authorization_id : Option ℕ
  pub approver_key_id : Option String
  pub nonce : Option String
  pub case_number : Option String
  pub legal_authority : Option String
  pub purpose : Option String
  pub target_plate : Option String
  pub window_start : Option String
  pub window_end : Option String
  pub requester : Option String
  pub approver : Option String
  pub approved_at : Option String
  pub approval_expires_at : Option String

-- what a requester signs at the moment of a disclosure
pub record ProofStatement : Type 0 where
  pub v : Option ℕ
  pub approval_nonce : Option String
  pub statement_digest : Option String
  pub requester : Option String
  pub requester_key_id : Option String
  pub request_nonce : Option String
  pub issued_at : Option String
  pub expires_at : Option String

-- a WebAuthn assertion as it came from the browser, each field base64url
pub record Assertion : Type 0 where
  pub credential_id : Option String
  pub authenticator_data : Option String
  pub client_data_json : Option String
  pub signature : Option String

-- a proof envelope, by its "alg"
pub data Proof : Type 0 where
  ed25519 : Option String → Proof
  webauthn : Assertion → Proof
  unsupported : String → Proof

-- a proof as it is handed in or stored: absent (or empty), an object (none if it names no algorithm),
-- or a text
pub data Stored : Type 0 where
  absent : Stored
  object : Option Proof → Stored
  written : String → Stored

-- a hardware credential: its id, its public key, the counter, and the relying party
pub record Hardware : Type 0 where
  pub credential_id : String
  pub public_key : String
  pub sign_count : ℕ
  pub rp_id : Option String
  pub origin : Option String

pub data Credential : Type 0 where
  software : String → Credential
  hardware : Hardware → Credential

-- an entry of a registry, and its "webauthn" object with something in it
pub record HardwareEntry : Type 0 where
  pub credential_id : Option String
  pub public_key : Option String
  pub sign_count : Option ℕ
  pub rp_id : Option String
  pub origin : Option String

pub record Entry : Type 0 where
  pub public_key : Option String
  pub revoked : Bool
  -- none: there is no such key, or null; some none: an object with nothing in it
  pub webauthn : Option (Option HardwareEntry)

-- the truth of a field: it is there, and is not empty (or zero)
abbrev pub has_text : Option String → Bool
has_text none = false
has_text (some s) = is_truthy s

abbrev pub has_number : Option ℕ → Bool
has_number none = false
has_number (some n) = not (n == 0)

-- the text of a field that was found to be there
abbrev pub text_of : Option String → String
text_of o = get_or o ""

abbrev pub opt_str_eq : Option String → Option String → Bool
opt_str_eq none none = true
opt_str_eq none (some _) = false
opt_str_eq (some _) none = false
opt_str_eq (some s) (some t) = str_eq s t

abbrev pub opt_is : Option ℕ → ℕ → Bool
opt_is none n = false
opt_is (some m) n = m == n

pub opt_str_eq_iff : (a b : Option String) → (opt_str_eq a b ≡ true) ↔ (a ≡ b)
opt_str_eq_iff none none = (λ h. refl, λ h. refl)
opt_str_eq_iff none (some t) = (λ h. cc, λ h. cc)
opt_str_eq_iff (some s) none = (λ h. cc, λ h. cc)
opt_str_eq_iff (some s) (some t) =
    (λ h. ap some ((str_eq_iff s t).0 h), λ h. ground (arith, str_eq_iff s t))

pub opt_is_iff : (a : Option ℕ) (n : ℕ) → (opt_is a n ≡ true) ↔ (a ≡ some n)
opt_is_iff none n = (λ h. cc, λ h. cc)
opt_is_iff (some m) n = (λ h. ground arith, λ h. ground arith)
