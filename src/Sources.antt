-- ===== src/Sources.antt =====
-- The sensor sources of justikey/models.py: registered feeds, their credentials, and signed ingest. Moments
-- are microseconds, and `civil` is Python's calendar; a stored time is the canonical text.
pub mod Replay
pub mod Bearer
use Prim.Native.String.{◌++◌}
use justi_key.Common.{
  ℕ, ◌+◌, ◌-◌, ◌*◌, ◌≤◌, Bool, true, false, not, ◌&&◌, ◌||◌, String, List, [], ◌∷◌, Option, none,
  some, Result, ok, raise, require, raise_if, some_or, ◌>>=◌, ◌>>◌, if◌then◌else◌, ltb, ◌==◌,
  is_some, any, keep, str_eq, text_lt, length, bind_option,
}
use justi_key.Statements.{has_text, text_of}
use justi_key.Library.{Library}
use justi_key.Timeutil.{DateTime, to_canonical}

pub data AuthMode : Type 0 where
  bearer hmac : AuthMode

pub data Status : Type 0 where
  active suspended revoked : Status

pub record Source : Type 0 where
  pub id : ℕ
  pub source_key : String
  pub display_name : String
  pub auth_mode : AuthMode
  pub status : Status
  pub revoked_at : Option String

pub record SourceCredential : Type 0 where
  pub key_hash : String
  pub source_id : ℕ
  pub label : String
  pub secret_ct : Option String
  pub revoked_at : Option String

pub record NonceRow : Type 0 where
  pub source_id : ℕ
  pub nonce : String
  pub seen_at : String

pub record Ingest : Type 0 where
  pub sources : List Source
  pub source_credentials : List SourceCredential
  pub ingest_nonces : List NonceRow

pub data IngestError : Type 0 where
  missing_headers unknown_source other_mode malformed_timestamp outside_window signature_mismatch
        replayed :
      IngestError
  -- the EncryptionError of a secret that cannot be encrypted or decrypted
  encryption : IngestError

-- the key of the database: encryption and decryption under a record's name; none is an EncryptionError
pub record Cipher : Type 0 where
  pub encrypt : String → String → String
  pub decrypt : String → String → Option String

-- the headers of a signed request, and its body
pub record SignedRequest : Type 0 where
  pub key_id : Option String
  pub timestamp : Option String
  pub nonce : Option String
  pub signature : Option String
  pub body : String

abbrev pub is_active : Status → Bool
is_active active = true
is_active _ = false

abbrev pub is_hmac : AuthMode → Bool
is_hmac hmac = true
is_hmac bearer = false

-- `crypto_store.source_aad`
abbrev pub source_aad : String → String
source_aad source_key = "source_credentials:secret:" ++ source_key

-- `get_source`, and `get_source_by_key`
unfoldable pub get_source : List Source → ℕ → Option Source
get_source [] i = none
get_source (r ∷ rows) i = if r.id == i then some r else get_source rows i

unfoldable pub get_source_by_key : List Source → String → Option Source
get_source_by_key [] key = none
get_source_by_key (r ∷ rows) key =
    if str_eq r.source_key key then some r else get_source_by_key rows key

-- the credential with a hash, while it is not revoked
unfoldable pub live_credential : List SourceCredential → String → Option SourceCredential
live_credential [] hash = none
live_credential (r ∷ rows) hash =
    if str_eq r.key_hash hash && not (is_some r.revoked_at)
    then some r
    else live_credential rows hash

-- `create_source`, with the id that SQLite draws; none is the IntegrityError of a key that is taken
unfoldable pub create_source : Ingest → ℕ → String → String → AuthMode → Option Ingest
create_source s id key display_name mode = elim (get_source_by_key s.sources key) [
  | some _ ↦ none
  | none ↦ some (record s {
    sources =
        record {
          id = id;
          source_key = key;
          display_name = display_name;
          auth_mode = mode;
          status = active;
          revoked_at = none;
        }
        ∷ s.sources;
  })
]

-- UPDATE sources ... WHERE id = ?
unfoldable pub set_status : ℕ → Status → Option String → List Source → List Source
set_status i status at [] = []
set_status i status at (r ∷ rows) =
    let rest = set_status i status at rows in
    if r.id == i then record r { status = status; revoked_at = at } ∷ rest else r ∷ rest

-- `revoke_source`
unfoldable pub revoke_source : Ingest → String → ℕ → Status → Ingest
unfolding set_status
revoke_source s now i revoked = record s { sources = set_status i revoked (some now) s.sources }
revoke_source s now i status = record s { sources = set_status i status none s.sources }

-- `reactivate_source`
unfoldable pub reactivate_source : Ingest → ℕ → Ingest
unfolding set_status
reactivate_source s i = record s { sources = set_status i active none s.sources }

abbrev is_live_of : ℕ → SourceCredential → Bool
is_live_of i r = (r.source_id == i) && not (is_some r.revoked_at)

unfoldable pub revoke_rows : ℕ → String → List SourceCredential → List SourceCredential
revoke_rows i now [] = []
revoke_rows i now (r ∷ rows) =
    let rest = revoke_rows i now rows in
    if is_live_of i r then record r { revoked_at = some now } ∷ rest else r ∷ rest

-- `revoke_source_credentials`: the store, and how many it revoked
unfoldable pub revoke_source_credentials : Ingest → String → ℕ → Ingest × ℕ
unfolding revoke_rows
revoke_source_credentials s now i = (
  record s { source_credentials = revoke_rows i now s.source_credentials },
  length (keep (is_live_of i) s.source_credentials),
)

-- the rows with a nonce of a source
unfoldable pub has_nonce : ℕ → String → List NonceRow → Bool
has_nonce i nonce rows = any (λ r. (r.source_id == i) && str_eq r.nonce nonce) rows

module _ (lib : Library) (civil : ℕ → DateTime) where
  open lib use {sha256, hmac_sha256, parse_dt}

  -- `signature_base`, and `compute_signature`
  unfoldable pub signature_base : String → String → String → String
  signature_base timestamp nonce body = timestamp ++ "\n" ++ nonce ++ "\n" ++ sha256 body

  unfoldable pub compute_signature : String → String → String → String → String
  compute_signature secret timestamp nonce body =
      hmac_sha256 secret (signature_base timestamp nonce body)

  -- `claim_ingest_nonce` at a moment: INSERT OR IGNORE on (source_id, nonce)
  unfoldable pub claim_ingest_nonce : ℕ → ℕ → String → List NonceRow → List NonceRow × Bool
  unfolding has_nonce
  claim_ingest_nonce at i nonce rows =
      if has_nonce i nonce rows
      then (rows, false)
      else (record { source_id = i; nonce = nonce; seen_at = to_canonical (civil at) } ∷ rows, true)

  -- `purge_ingest_nonces` at a moment; `window` in microseconds
  unfoldable pub purge_ingest_nonces : ℕ → ℕ → List NonceRow → List NonceRow
  purge_ingest_nonces window at rows =
      keep (λ r. not (text_lt r.seen_at (to_canonical (civil (at - window * 2))))) rows

  -- `issue_source_credential`, with the token that it draws
  unfoldable pub issue_source_credential :
      Ingest → Option Cipher → String → ℕ → String → Result IngestError Ingest
  issue_source_credential s cipher key i label = do
    secret ← secret_of (get_source s.sources i)
    ok (record s {
      source_credentials =
          record {
            key_hash = sha256 key;
            source_id = i;
            label = label;
            secret_ct = secret;
            revoked_at = none;
          }
          ∷ s.source_credentials;
    })
    where
      secret_of : Option Source → Result IngestError (Option String)
      secret_of none = ok none
      secret_of (some source) =
          if is_hmac source.auth_mode
          then (some_or cipher encryption >>= λ c.
              ok (some (c.encrypt key (source_aad source.source_key))))
          else ok none

  -- `signing_secrets_for`
  secrets_of : Cipher → Source → List SourceCredential → Result IngestError (List String)
  secrets_of cipher source [] = ok []
  secrets_of cipher source (r ∷ rows) =
      let rest = secrets_of cipher source rows in
      if (r.source_id == source.id) && not (is_some r.revoked_at) && is_some r.secret_ct
      then (some_or
            (bind_option r.secret_ct (λ ct. cipher.decrypt ct (source_aad source.source_key)))
            encryption
          >>= λ secret. rest >>= λ secrets. ok (secret ∷ secrets))
      else rest

  unfoldable pub signing_secrets_for :
      Ingest → Option Cipher → Source → Result IngestError (List String)
  unfolding secrets_of
  signing_secrets_for s none source = ok []
  signing_secrets_for s (some cipher) source = secrets_of cipher source s.source_credentials

  -- the distance of two moments
  abbrev pub distance : ℕ → ℕ → ℕ
  distance a b = if ltb a b then b - a else a - b

  -- what `authenticate_signed_source` checks before it spends the nonce; `now` is the moment of the check
  unfoldable pub check_signed :
      ℕ → ℕ → Ingest → Option Cipher → SignedRequest → Result IngestError Source
  check_signed window now s cipher r = do
    require (has_text r.key_id && has_text r.timestamp && has_text r.nonce && has_text r.signature)
        missing_headers
    source ← some_or (get_source_by_key s.sources (text_of r.key_id)) unknown_source
    require (is_active source.status) unknown_source
    require (is_hmac source.auth_mode) other_mode
    sent ← some_or (parse_dt (text_of r.timestamp)) malformed_timestamp
    raise_if (ltb window (distance now sent)) outside_window
    secrets ← signing_secrets_for s cipher source
    require
        (any
          (λ secret.
            str_eq (compute_signature secret (text_of r.timestamp) (text_of r.nonce) r.body)
              (text_of r.signature))
          secrets)
        signature_mismatch
    ok source

  -- the nonce of a request whose checks have passed is spent, and old ones are forgotten
  unfoldable pub spend_nonce :
      ℕ → ℕ → ℕ → Ingest → String → Result IngestError Source → Ingest × Result IngestError Source
  spend_nonce window claimed_at purged_at s nonce (raise e) = (s, raise e)
  spend_nonce window claimed_at purged_at s nonce (ok source) =
      let (rows, fresh) = claim_ingest_nonce claimed_at source.id nonce s.ingest_nonces in
      if fresh
      then (record s { ingest_nonces = purge_ingest_nonces window purged_at rows }, ok source)
      else (record s { ingest_nonces = rows }, raise replayed)

  -- `authenticate_signed_source`, at the moments of its three readings of the clock
  unfoldable pub authenticate_signed_source :
      ℕ → ℕ × ℕ × ℕ → Ingest → Option Cipher → SignedRequest → Ingest × Result IngestError Source
  unfolding check_signed spend_nonce
  authenticate_signed_source window (now, claimed_at, purged_at) s cipher r =
      spend_nonce window claimed_at purged_at s (text_of r.nonce)
        (check_signed window now s cipher r)

  -- `authenticate_source`
  unfoldable pub authenticate_source : Ingest → Option String → Option Source
  authenticate_source s key =
      if has_text key
      then bind_option (live_credential s.source_credentials (sha256 (text_of key))) (λ c.
        bind_option (get_source s.sources c.source_id) (λ source.
          if is_active source.status && not (is_hmac source.auth_mode) then some source else none))
      else none
