-- ===== src/Library.antt =====
-- What the program takes from Python's library and from `cryptography`, as one interface: digests,
-- message authentication, signatures, JSON, and the text functions that it calls. Nothing is assumed
-- of them here; a theorem that needs a law of one names it as a hypothesis.
use justi_key.Common.{ℕ, zero, suc, ◌/◌, ◌%◌, Bool, String, Option, ltb, if◌then◌else◌}
use Prim.Native.String.{◌++◌}
use justi_key.Statements.{Statement, ProofStatement, Proof}

pub record Library : Type 0 where
  -- the hex digest of the text's UTF-8
  pub sha256 : String → String
  -- the hex digest under a key
  pub hmac_sha256 : String → String → String
  -- public key, message, signature, all as texts; false too where a key or a signature is malformed
  pub ed25519_verify : String → String → String → Bool
  -- the hex digest of the bytes that a hex text stands for
  pub sha256_of_hex : String → String
  -- `str.strip` and `str.upper`
  pub strip : String → String
  pub upper : String → String
  -- `datetime.fromisoformat` on what `timeutil.parse_dt` hands it, in microseconds; none is a ValueError
  pub parse_dt : String → Option ℕ
  -- `json.dumps` with sorted keys, of an approval statement and of a statement of presence
  pub dumps_statement : Statement → String
  pub dumps_proof : ProofStatement → String
  -- `json.loads` of a stored proof: none is a JSONDecodeError, and some none a value that is no
  -- object with an "alg"
  pub loads_proof : String → Option (Option Proof)

-- one decimal digit
abbrev pub digit : ℕ → String
digit zero = "0"
digit (suc zero) = "1"
digit (suc (suc zero)) = "2"
digit (suc (suc (suc zero))) = "3"
digit (suc (suc (suc (suc zero)))) = "4"
digit (suc (suc (suc (suc (suc zero))))) = "5"
digit (suc (suc (suc (suc (suc (suc zero)))))) = "6"
digit (suc (suc (suc (suc (suc (suc (suc zero))))))) = "7"
digit (suc (suc (suc (suc (suc (suc (suc (suc zero)))))))) = "8"
digit _ = "9"

-- `str(n)`: `fuel` digits at most, and a number has no more digits than its successor counts
decimal_from : ℕ → ℕ → String
decimal_from zero n = ""
decimal_from (suc fuel) n =
    let front = decimal_from fuel (n / 10) in if ltb n 10 then digit n else front ++ digit (n % 10)

unfoldable pub decimal : ℕ → String
unfolding decimal_from
decimal n = decimal_from (suc n) n
