-- ===== src/Usage.antt =====
-- `UsageStore` of justikey/disclosure.py: the counters and the nonces that the holder of the key
-- keeps, over the four tables of the service's ledger (justikey/servicekit.py, SERVICE_SCHEMA).
-- A method takes the time that it reads as a canonical text; a transaction that rolls back returns
-- the store that it began with.
pub mod Trace
pub mod Limit
pub mod Replay
pub mod Claims
use justi_key.Common.{
  ℕ, ◌+◌, max, String, Bool, true, false, not, ◌&&◌, Option, none, some, Table, lookup, upsert,
  keep_rows, ltb, leb, is_some, is_truthy, get_or, text_lt, if◌then◌else◌,
}

-- a row of `authorization_usage`, under its nonce
pub record UsageRow : Type 0 where
  pub authorization_id : Option ℕ
  pub disclosure_count : ℕ
  pub expires_at : String
  pub first_used_at : String
  pub last_used_at : String

-- a row of `presence_nonces`
pub record PresenceRow : Type 0 where
  pub expires_at : String
  pub used_at : String

-- a row of `webauthn_counters`
pub record CounterRow : Type 0 where
  pub sign_count : ℕ
  pub last_used_at : String

pub record Store : Type 0 where
  pub authorization_usage : Table UsageRow
  pub presence_nonces : Table PresenceRow
  pub transport_nonces : Table String
  pub webauthn_counters : Table CounterRow

pub data Refusal : Type 0 where
  presence_used approval_expired limit_reached : Refusal

-- the triple `(ok, count, reason)` that `claim` returns
pub data Outcome : Type 0 where
  claimed : ℕ → Outcome
  refused : ℕ → Refusal → Outcome

-- Python's `a or b` on an optional text
abbrev pub text_or : Option String → String → String
text_or none b = b
text_or (some a) b = if is_truthy a then a else b

-- DELETE FROM presence_nonces WHERE expires_at < now
unfoldable pub purge_presence : String → Table PresenceRow → Table PresenceRow
purge_presence now = keep_rows (λ r. not (text_lt r.expires_at now))

-- The spending of the presence nonce inside `claim`: the table after it, and whether the nonce was new.
unfoldable pub spend_presence :
    Option String → String → String → Table PresenceRow → Table PresenceRow × Bool
unfolding purge_presence
spend_presence none expires now t = (t, true)
spend_presence (some nonce) expires now t =
    let t' = purge_presence now t in
    if is_some (lookup nonce t')
    then (t', false)
    else (upsert nonce (record { expires_at = expires; used_at = now }) t', true)

-- The counter's part of `claim`, on the row of the nonce: the row to write, or the refusal.
pub data Spend : Type 0 where
  write : UsageRow → Spend
  refuse : ℕ → Refusal → Spend

abbrev pub is_limited : ℕ → ℕ → Bool
is_limited limit count = ltb 0 limit && leb limit count

unfoldable pub spend_usage : Option UsageRow → Option ℕ → String → ℕ → String → Spend
spend_usage none authorization_id expires limit now =
    if is_limited limit 0
    then refuse 0 limit_reached
    else write (record {
      authorization_id = authorization_id;
      disclosure_count = 1;
      expires_at = expires;
      first_used_at = now;
      last_used_at = now;
    })
spend_usage (some row) authorization_id expires limit now =
    if text_lt row.expires_at now
    then refuse row.disclosure_count approval_expired
    else if is_limited limit row.disclosure_count
    then refuse row.disclosure_count limit_reached
    else write (record row { disclosure_count = row.disclosure_count + 1; last_used_at = now })

-- The end of `claim`'s transaction. A presence nonce that was used before refuses the claim, and
-- what was purged stays purged (COMMIT); a refusal by the approval's row gives back the store before
-- (ROLLBACK); else both writes stand.
unfoldable pub settle_claim : Store → Table PresenceRow × Bool → String → Spend → Store × Outcome
settle_claim s (presence, false) nonce spend =
    (record s { presence_nonces = presence }, refused 0 presence_used)
settle_claim s (presence, true) nonce (refuse count reason) = (s, refused count reason)
settle_claim s (presence, true) nonce (write row) = (
  record s {
    authorization_usage = upsert nonce row s.authorization_usage;
    presence_nonces = presence;
  },
  claimed row.disclosure_count,
)

pub record Claim : Type 0 where
  pub nonce : String
  pub authorization_id : Option ℕ
  pub expires_at : String
  pub limit : ℕ
  pub presence_nonce : Option String
  pub presence_expires_at : Option String

-- `UsageStore.claim`. A limit of zero or less means none, and is 0 here.
unfoldable pub claim : Store → String → Claim → Store × Outcome
unfolding spend_presence spend_usage settle_claim
claim s now c =
    settle_claim s
      (spend_presence c.presence_nonce (text_or c.presence_expires_at c.expires_at) now
        s.presence_nonces)
      c.nonce
      (spend_usage (lookup c.nonce s.authorization_usage) c.authorization_id c.expires_at c.limit
        now)

-- `claim_transport_nonce`: `cutoff` is the text of the time two windows ago.
unfoldable pub claim_transport_nonce : Store → String → String → String → Store × Bool
claim_transport_nonce s now cutoff nonce =
    let t = keep_rows (λ seen_at. not (text_lt seen_at cutoff)) s.transport_nonces in
    if is_some (lookup nonce t)
    then (record s { transport_nonces = t }, false)
    else (record s { transport_nonces = upsert nonce now t }, true)

-- `claim_presence_nonce`
unfoldable pub claim_presence_nonce : Store → String → String → String → Store × Bool
unfolding spend_presence
claim_presence_nonce s now nonce expires_at =
    let (t, fresh) = spend_presence (some nonce) expires_at now s.presence_nonces in
    (record s { presence_nonces = t }, fresh)

unfoldable pub sign_count : Store → String → Option ℕ
sign_count s credential_id = elim (lookup credential_id s.webauthn_counters) [
  | none ↦ none
  | some row ↦ some row.sign_count
]

-- `record_sign_count`: INSERT, or MAX with the count on record
unfoldable pub record_sign_count : Store → String → String → ℕ → Store
unfolding sign_count
record_sign_count s now credential_id count =
    let stored : ℕ = elim (sign_count s credential_id) [
      | none ↦ count
      | some seen ↦ max seen count
    ] in
    record s {
      webauthn_counters =
          upsert credential_id (record { sign_count = stored; last_used_at = now })
            s.webauthn_counters;
    }

unfoldable pub purge_expired : Store → String → Store
unfolding purge_presence
purge_expired s now = record s {
  authorization_usage = keep_rows (λ r. not (text_lt r.expires_at now)) s.authorization_usage;
  presence_nonces = purge_presence now s.presence_nonces;
}
