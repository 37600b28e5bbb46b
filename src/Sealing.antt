-- ===== src/Sealing.antt =====
-- justikey/sealing.py: sealed records. The draws of `seal` (the record's id, the record key, the ephemeral
-- key and the nonces) are its argument; `json` on the associated data and on the fields is a parameter.
pub mod Roundtrip
use justi_key.Common.{
  ℕ, Bool, true, false, ◌||◌, String, List, ◌++◌, Option, none, some, str_eq, take, get_or,
  if◌then◌else◌, Result, ok, raise, require, some_or, map_error, ◌>>=◌, ◌>>◌, drop, bind_option,
}
use justi_key.Statements.{has_text, text_of, opt_str_eq}
use justi_key.Library.{Library}
use justi_key.Approvals.{legacy_key_id}
use justi_key.Disclosure.{Fields}
use justi_key.Kem.{
  AgreeError, Bytes, Crypto, Suite, x25519_ecdh, default_kem, suite, validate_peer_public,
  is_private, public_bytes, agree, key_id,
}

abbrev pub format_version : String
format_version = "jk-seal-v4"

abbrev pub legacy_version : String
legacy_version = "jk-seal-v3"

abbrev pub wrap_info : String
wrap_info = "justikey:record-key-wrap:v3"

abbrev pub wrap_info_v4 : String
wrap_info_v4 = "justikey:record-key-wrap:v4"

-- the stored columns of a sealed record, as `envelope.get` reads them
pub record Envelope : Type 0 where
  pub record_uid : Option String
  pub seal_version : Option String
  pub seal_kem : Option String
  pub recipient_key_id : Option String
  pub record_ct : Option String
  pub wrapped_key : Option String
  pub ephemeral_pub : Option String

pub data SealingError : Type 0 where
  invalid_key : SealingError
  unsupported_version unnamed_suite : SealingError
  other_suite other_recipient : SealingError
  could_not_open : SealingError
  -- what the agreement raises, which `seal` lets pass
  agreement : AgreeError → SealingError

-- What `record_aad` binds. From v4 on the suite is there, and with it the constant "kdf" and "aead".
pub record Bound : Type 0 where
  pub v : String
  pub kid : Option String
  pub uid : Option String
  pub captured_at : String
  pub camera_id : String
  pub index : String
  pub kem : Option String

-- `json` on what is bound (sorted keys), and on the protected fields
pub record Json : Type 0 where
  pub dumps_bound : Bound → String
  pub dumps_fields : Fields → Bytes
  pub loads_fields : Bytes → Option Fields

-- what a seal draws at random
pub record Draws : Type 0 where
  pub record_uid : String
  pub record_key : Bytes
  pub nonce : Bytes
  pub ephemeral : Bytes
  pub wrap_nonce : Bytes

-- where and when a plate was seen, and its blind index
pub record Sighting : Type 0 where
  pub captured_at : String
  pub camera_id : Option String
  pub blind_index : String

pub record RecordSealer : Type 0 where
  pub kem : String
  pub kem_suite : Suite
  pub public_raw : Bytes

pub record RecordOpener : Type 0 where
  pub kem : String
  pub kem_suite : Suite
  pub private : Bytes
  -- the hex of the public key
  pub public_hex : String

-- `version or FORMAT_VERSION`, and `kem_name or DEFAULT_KEM`
abbrev pub or_default : Option String → String → String
or_default o d = if has_text o then text_of o else d

unfoldable pub record_aad :
    Json → Option String → Option String → Sighting → Option String → Option String → String
record_aad json recipient uid at version kem_name =
    let v = or_default version format_version in
    json.dumps_bound (record {
      v = v;
      kid = recipient;
      uid = uid;
      captured_at = at.captured_at;
      camera_id = or_default at.camera_id "";
      index = at.blind_index;
      kem = if str_eq v legacy_version then none else some (or_default kem_name default_kem);
    })

-- `envelope_suite`
unfoldable pub envelope_suite : Envelope → Result SealingError String
envelope_suite e =
    if opt_str_eq e.seal_version (some legacy_version)
    then ok x25519_ecdh
    else if opt_str_eq e.seal_version (some format_version)
    then if has_text e.seal_kem then ok (text_of e.seal_kem) else raise unnamed_suite
    else raise unsupported_version

-- `aad_for`
unfoldable pub aad_for : Json → Envelope → Sighting → String
unfolding record_aad
aad_for json e at =
    record_aad json e.recipient_key_id e.record_uid at e.seal_version
      (if opt_str_eq e.seal_version (some legacy_version) then none else e.seal_kem)

module _ (crypto : Crypto) (json : Json) where
  open crypto use {b64encode, b64decode, hkdf, aes_encrypt, aes_decrypt}
  open json use {dumps_fields, loads_fields}

  -- a nonce, and what it encrypted
  abbrev pub decrypt : Bytes → Bytes → String → Option Bytes
  decrypt key raw aad = aes_decrypt key (take 12 raw) (drop 12 raw) aad

  -- `RecordSealer.__init__`: `bytes.fromhex` of the public key may have failed
  unfoldable pub make_sealer : Option Bytes → Option String → Result SealingError RecordSealer
  make_sealer public kem_name = do
    s ← some_or (suite (or_default kem_name default_kem)) invalid_key
    raw ← some_or public invalid_key
    require (validate_peer_public crypto s raw) invalid_key
    ok (record { kem = or_default kem_name default_kem; kem_suite = s; public_raw = raw })

  -- `RecordSealer.seal`
  unfoldable pub seal : RecordSealer → Draws → Fields → Sighting → Result SealingError Envelope
  seal s d fields at =
      let recipient = key_id crypto s.kem s.public_raw in
      let aad =
        record_aad json (some recipient) (some d.record_uid) at (some format_version)
          (some s.kem) in
      do
        shared ← map_error agreement (agree crypto s.kem_suite d.ephemeral s.public_raw)
        let wrap_key = hkdf shared wrap_info_v4
        ok (record {
          record_uid = some d.record_uid;
          seal_version = some format_version;
          seal_kem = some s.kem;
          recipient_key_id = some recipient;
          record_ct =
              some
                (b64encode (d.nonce ++ aes_encrypt d.record_key d.nonce (dumps_fields fields) aad));
          wrapped_key =
              some (b64encode (d.wrap_nonce ++ aes_encrypt wrap_key d.wrap_nonce d.record_key aad));
          ephemeral_pub = some (b64encode (public_bytes crypto s.kem_suite d.ephemeral));
        })

  -- `unwrap_record_key`: none is the exception of a decoding or of the tag
  unfoldable pub unwrap_record_key : Envelope → String → Bytes → Option Bytes
  unwrap_record_key e aad shared =
      let info =
        if opt_str_eq e.seal_version (some legacy_version) then wrap_info else wrap_info_v4 in
      bind_option (bind_option e.wrapped_key b64decode) (λ raw. decrypt (hkdf shared info) raw aad)

  -- `open_with_record_key`
  unfoldable pub open_with_record_key : Envelope → String → Bytes → Option Fields
  open_with_record_key e aad record_key =
      bind_option (bind_option e.record_ct b64decode)
        (λ raw. bind_option (decrypt record_key raw aad) loads_fields)

  -- what stands after the agreement, in every opener
  unfoldable pub open_shared : Envelope → String → Bytes → Option Fields
  unfolding unwrap_record_key open_with_record_key
  open_shared e aad shared =
      bind_option (unwrap_record_key e aad shared) (open_with_record_key e aad)

  module _ (lib : Library) where
    -- `RecordOpener.__init__`, with the hex of the public key
    unfoldable pub make_opener :
        Option Bytes → (Bytes → String) → Option String → Result SealingError RecordOpener
    make_opener private hex kem_name = do
      raw ← some_or private invalid_key
      s ← some_or (suite (or_default kem_name default_kem)) invalid_key
      require (is_private crypto s raw) invalid_key
      ok (record {
        kem = or_default kem_name default_kem;
        kem_suite = s;
        private = raw;
        public_hex = hex (public_bytes crypto s raw);
      })

    -- `RecordOpener.accepts`
    unfoldable pub accepts : RecordOpener → Option String → Bool
    accepts o recipient =
        opt_str_eq recipient
          (some (key_id crypto o.kem (public_bytes crypto o.kem_suite o.private)))
        || opt_str_eq recipient (some (legacy_key_id lib o.public_hex))

    -- `RecordOpener.open`
    unfoldable pub open_record : RecordOpener → Envelope → Sighting → Result SealingError Fields
    unfolding envelope_suite aad_for accepts open_shared
    open_record o e at = do
      name ← envelope_suite e
      require (str_eq name o.kem) other_suite
      require (accepts o e.recipient_key_id) other_recipient
      uid ← some_or e.record_uid could_not_open
      peer ← some_or (bind_option e.ephemeral_pub b64decode) could_not_open
      shared ← map_error (λ e. could_not_open) (agree crypto o.kem_suite o.private peer)
      some_or (open_shared e (aad_for json e at) shared) could_not_open
