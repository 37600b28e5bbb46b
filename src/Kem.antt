-- ===== src/Kem.antt =====
-- justikey/kem.py: the two key-agreement suites. A private key and an encoded point are their bytes; the
-- curves, the digest and HKDF are what `Crypto` takes from the library.
use Prim.Native.String.{◌++◌, slice}
use justi_key.Common.{
  ℕ, Bool, false, ◌&&◌, String, List, [], ◌∷◌, Option, none, some, ◌==◌, str_eq, length,
  if◌then◌else◌, Result, require, some_or, ◌>>◌,
}

abbrev pub Bytes : Type 0
Bytes = List ℕ

-- what `cryptography`, `hashlib` and `base64` compute
pub record Crypto : Type 0 where
  -- `base64.b64encode` and `b64decode`; none is an error
  pub b64encode : Bytes → String
  pub b64decode : String → Option Bytes
  -- whether the library accepts the bytes as a point, or as a private key, of the curve
  pub p256_point : Bytes → Bool
  pub x25519_point : Bytes → Bool
  pub p256_scalar : Bytes → Bool
  pub x25519_scalar : Bytes → Bool
  -- the encoded public key of a private key, and the exchange of a private key with a point
  pub p256_public : Bytes → Bytes
  pub x25519_public : Bytes → Bytes
  pub p256_exchange : Bytes → Bytes → Bytes
  -- none: the secret would be all zeros, and the library raises ValueError
  pub x25519_exchange : Bytes → Bytes → Option Bytes
  -- HKDF-SHA256 of a secret with an info text
  pub hkdf : Bytes → String → Bytes
  -- the hex digest of a text's bytes followed by these bytes
  pub sha256_bytes : String → Bytes → String
  -- AES-GCM: key, nonce, data, associated data; none where the tag does not verify
  pub aes_encrypt : Bytes → Bytes → Bytes → String → Bytes
  pub aes_decrypt : Bytes → Bytes → Bytes → String → Option Bytes

abbrev pub p256_ecdh : String
p256_ecdh = "P256-ECDH-HKDF-SHA256"

abbrev pub x25519_ecdh : String
x25519_ecdh = "X25519-HKDF-SHA256"

abbrev pub default_kem : String
default_kem = p256_ecdh

pub data Suite : Type 0 where
  p256 x25519 : Suite

-- what `agree` raises: a KemError, or the ValueError of the library
pub data AgreeError : Type 0 where
  kem_error value_error : AgreeError

-- `suite`: none is the KemError of an unknown name
unfoldable pub suite : String → Option Suite
suite name =
    if str_eq name p256_ecdh
    then some p256
    else if str_eq name x25519_ecdh
    then some x25519
    else none

-- an uncompressed SEC1 point has 65 bytes, the first of them 0x04
abbrev pub is_uncompressed : Bytes → Bool
is_uncompressed [] = false
is_uncompressed (b ∷ raw) = (length (b ∷ raw) == 65) && (b == 4)

module _ (crypto : Crypto) where
  open crypto use {
    p256_point, x25519_point, p256_scalar, x25519_scalar, p256_public, x25519_public, p256_exchange,
    x25519_exchange, sha256_bytes,
  }

  -- `validate_peer_public`: false is the KemError
  unfoldable pub validate_peer_public : Suite → Bytes → Bool
  validate_peer_public p256 raw = is_uncompressed raw && p256_point raw
  validate_peer_public x25519 raw = (length raw == 32) && x25519_point raw

  -- `private_from_bytes`: false is the KemError
  unfoldable pub is_private : Suite → Bytes → Bool
  is_private p256 raw = p256_scalar raw
  is_private x25519 raw = x25519_scalar raw

  -- `public_bytes` of the public key
  unfoldable pub public_bytes : Suite → Bytes → Bytes
  public_bytes p256 private = p256_public private
  public_bytes x25519 private = x25519_public private

  unfoldable pub exchange : Suite → Bytes → Bytes → Option Bytes
  exchange p256 private peer = some (p256_exchange private peer)
  exchange x25519 private peer = x25519_exchange private peer

  -- `agree`: the point is validated before it is multiplied
  unfoldable pub agree : Suite → Bytes → Bytes → Result AgreeError Bytes
  unfolding validate_peer_public exchange
  agree s private peer = do
    require (validate_peer_public s peer) kem_error
    some_or (exchange s private peer) value_error

  -- `key_id`
  unfoldable pub key_id : String → Bytes → String
  key_id suite_name public_raw =
      slice (sha256_bytes ("justikey:recipient-key:v4|" ++ suite_name ++ "|") public_raw) 0 16
