-- ===== src/Usage/Trace.antt =====
-- What the service's process does to a `UsageStore` over time: any sequence of its calls.
use justi_key.Common.{
  ℕ, ◌+◌, Bool, true, false, String, List, [], ◌∷◌, Option, none, some, lookup, str_eq,
  if◌then◌else◌,
}
use justi_key.Usage.{
  UsageRow, Store, Outcome, claimed, refused, Claim, claim, claim_transport_nonce,
  claim_presence_nonce, record_sign_count, purge_expired,
}

-- A call with the time that it reads; a transport nonce comes with the cutoff that it computes.
pub data Op : Type 0 where
  spend : String → Claim → Op
  transport : String → String → String → Op
  presence : String → String → String → Op
  counter : String → String → ℕ → Op
  purge : String → Op

abbrev pub op_time : Op → String
op_time (spend now _) = now
op_time (transport now _ _) = now
op_time (presence now _ _) = now
op_time (counter now _ _) = now
op_time (purge now) = now

unfoldable pub apply : Store → Op → Store
apply s (spend now c) = (claim s now c).0
apply s (transport now cutoff nonce) = (claim_transport_nonce s now cutoff nonce).0
apply s (presence now nonce expires) = (claim_presence_nonce s now nonce expires).0
apply s (counter now credential count) = record_sign_count s now credential count
apply s (purge now) = purge_expired s now

unfoldable pub run : Store → List Op → Store
run s [] = s
run s (op ∷ ops) = run (apply s op) ops

abbrev pub is_claimed : Outcome → Bool
is_claimed (claimed _) = true
is_claimed (refused _ _) = false

-- one for a claim on the approval that is granted
unfoldable pub grant : String → Store → Op → ℕ
grant n s (spend now c) =
    if str_eq c.nonce n then if is_claimed (claim s now c).1 then 1 else 0 else 0
grant n s _ = 0

-- how many claims on one approval a sequence of calls is granted
unfoldable pub uses : String → Store → List Op → ℕ
uses n s [] = 0
uses n s (op ∷ ops) = grant n s op + uses n (apply s op) ops

abbrev pub count_of : Option UsageRow → ℕ
count_of none = 0
count_of (some row) = row.disclosure_count

-- the count on record
unfoldable pub used : String → Store → ℕ
used n s = count_of (lookup n s.authorization_usage)
