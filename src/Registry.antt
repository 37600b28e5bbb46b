-- ===== src/Registry.antt =====
-- justikey/registry.py and `admit_registry` of justikey/servicekit.py, up to the recording: which file of
-- enrolled keys a service starts with. The principals are of any type, `dumps` is their JSON, and the two
-- values that the `meta` table holds for a role are the number and the text that they spell.
pub mod Startups
use justi_key.Common.{
  ℕ, Bool, true, false, Option, none, some, String, str_eq, ltb, ◌==◌, if◌then◌else◌, Result, ok,
  raise, ◌>>=◌, ◌+◌,
}
use justi_key.Library.{Library}

pub data RegistryError : Type 0 where
  not_object bad_version : RegistryError
  rolled_back swapped : RegistryError

-- the JSON of "version"
pub data Version : Type 0 where
  number : ℕ → Version
  no_natural : Version

-- A file: something that is no object, the versioned envelope (which may lack its version), or an object
-- without a mapping under "principals".
pub data Document (P : Type 0) : Type 0 where
  other : Document P
  envelope : Option Version → P → Document P
  bare : P → Document P

-- `unwrap`
unfoldable pub unwrap : {P : Type 0} → Document P → Result RegistryError (ℕ × P)
unwrap other = raise not_object
unwrap (envelope none principals) = ok (0, principals)
unwrap (envelope (some (number version)) principals) = ok (version, principals)
unwrap (envelope (some no_natural) principals) = raise bad_version
unwrap (bare principals) = ok (0, principals)

-- `wrap`
abbrev pub wrap : {P : Type 0} → P → ℕ → Document P
wrap principals version = envelope (some (number version)) principals

pub data Status : Type 0 where
  unchanged updated new : Status

-- what the ledger has recorded for a role
pub record Recorded : Type 0 where
  pub version : Option ℕ
  pub digest : Option String

module _ {P : Type 0} (lib : Library) (dumps : P → String) where
  -- `digest`
  unfoldable pub digest_of : P → String
  digest_of principals = lib.sha256 (dumps principals)

  abbrev pub same_digest : Option String → String → Bool
  same_digest none d = false
  same_digest (some last) d = str_eq d last

  -- `check`
  unfoldable pub check : ℕ → P → Recorded → Result RegistryError Status
  check version principals recorded = elim recorded.version [
    | none ↦ ok new
    | some last ↦
        if ltb version last
        then raise rolled_back
        else if version == last
        then if same_digest recorded.digest (digest_of principals)
          then ok unchanged
          else raise swapped
        else ok updated
  ]

  -- what `admit_registry` writes on a status
  unfoldable pub record_status : ℕ → P → Recorded → Status → Recorded
  record_status version principals recorded unchanged = recorded
  record_status version principals recorded updated = record {
    version = some version;
    digest = some (digest_of principals);
  }
  record_status version principals recorded new = record {
    version = some version;
    digest = some (digest_of principals);
  }

  -- `admit_registry` on what is recorded: the record after it, and the version and principals admitted
  unfoldable pub settle_status :
      Recorded → ℕ × P → Result RegistryError Status → Recorded × Result RegistryError (ℕ × P)
  unfolding record_status
  settle_status recorded loaded (raise e) = (recorded, raise e)
  settle_status recorded (version, principals) (ok status) =
      (record_status version principals recorded status, ok (version, principals))

  unfoldable pub admit_loaded :
      Recorded → Result RegistryError (ℕ × P) → Recorded × Result RegistryError (ℕ × P)
  unfolding check settle_status
  admit_loaded recorded (raise e) = (recorded, raise e)
  admit_loaded recorded (ok (version, principals)) =
      settle_status recorded (version, principals) (check version principals recorded)

  unfoldable pub admit_registry : Recorded → Document P → Recorded × Result RegistryError (ℕ × P)
  unfolding unwrap admit_loaded
  admit_registry recorded file = admit_loaded recorded (unwrap file)
