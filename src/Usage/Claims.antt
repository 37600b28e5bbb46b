-- ===== src/Usage/Claims.antt =====
-- What one claim leaves, by its outcome; and how the counters of authenticators rise.
use justi_key.Common.{
  ℕ, ◌+◌, ◌≤◌, ◌≡◌, refl, Bool, true, false, String, Option, none, some, lookup, arith,
  lookup-upsert, str_eq_refl, Table, ◌⊎◌, inl, inr, Bool-cases, Option-cases, text_lt, sym, ◌∙◌,
  ◌<◌, max, upsert, keep_rows, not, is_some,
}
use justi_key.Usage.{
  UsageRow, PresenceRow, Store, Outcome, claimed, refused, presence_used, approval_expired,
  limit_reached, Spend, write, refuse, text_or, purge_presence, spend_presence, spend_usage,
  settle_claim, Claim, claim, is_limited, sign_count, record_sign_count,
}
use justi_key.Usage.Trace.{count_of, used}

-- the presence nonces on record that have not expired
abbrev pub unexpired : String → Table PresenceRow → Table PresenceRow
unexpired now = keep_rows (λ r. not (text_lt r.expires_at now))

-- A claim's presence nonce, if it has one, is not among those on record.
abbrev pub Fresh : Option String → String → Table PresenceRow → Type 0
Fresh none now t = Unit
Fresh (some nonce) now t = lookup nonce (unexpired now t) ≡ none

-- The table `t'` has gained that nonce, and lost the expired ones; without a nonce it is as it was.
abbrev pub Gains : Option String → String → String → Table PresenceRow → Table PresenceRow → Type 0
Gains none expires now t t' = t' ≡ t
Gains (some nonce) expires now t t' =
    t' ≡ upsert nonce (record { expires_at = expires; used_at = now }) (unexpired now t)

-- The nonce was on record, and only the expired ones are gone.
abbrev pub Reuses : Option String → String → Table PresenceRow → Table PresenceRow → Type 0
Reuses o now t t' =
    (nonce : String) × (o ≡ some nonce)
    × (is_some (lookup nonce (unexpired now t)) ≡ true)
    × (t' ≡ unexpired now t)

-- What a granted claim leaves of the approval's row: a new row, or the old one used once more.
abbrev pub Continues : Option UsageRow → Claim → String → UsageRow → Type 0
Continues none c now row =
    (row.authorization_id ≡ c.authorization_id)
    × (row.expires_at ≡ c.expires_at)
    × (row.first_used_at ≡ now)
    × (row.last_used_at ≡ now)
Continues (some old) c now row =
    (text_lt old.expires_at now ≡ false)
    × (row.authorization_id ≡ old.authorization_id)
    × (row.expires_at ≡ old.expires_at)
    × (row.first_used_at ≡ old.first_used_at)
    × (row.last_used_at ≡ now)

-- when the row of a presence nonce expires
abbrev pub kept_until : Claim → String
kept_until c = text_or c.presence_expires_at c.expires_at

-- What a claim of `c` at `now` has done to the store, by its outcome.
abbrev pub Ends : Store → String → Claim → Store × Outcome → Type 0
Ends s now c (s', claimed k) =
    (k ≡ used c.nonce s + 1)
    × (used c.nonce s' ≡ k)
    × ((c.limit ≡ 0) ⊎ (k ≤ c.limit))
    × (row : UsageRow) × (row.disclosure_count ≡ k)
    × Continues (lookup c.nonce s.authorization_usage) c now row
    × (s'.authorization_usage ≡ upsert c.nonce row s.authorization_usage)
    × Fresh c.presence_nonce now s.presence_nonces
    × Gains c.presence_nonce (kept_until c) now s.presence_nonces s'.presence_nonces
    × (s'.transport_nonces ≡ s.transport_nonces)
    × (s'.webauthn_counters ≡ s.webauthn_counters)
Ends s now c (s', refused k presence_used) =
    Reuses c.presence_nonce now s.presence_nonces s'.presence_nonces
    × (k ≡ 0)
    × (s'.authorization_usage ≡ s.authorization_usage)
    × (s'.transport_nonces ≡ s.transport_nonces)
    × (s'.webauthn_counters ≡ s.webauthn_counters)
Ends s now c (s', refused k approval_expired) =
    (s' ≡ s)
    × (k ≡ used c.nonce s)
    × Fresh c.presence_nonce now s.presence_nonces
    × (row : UsageRow) × (lookup c.nonce s.authorization_usage ≡ some row)
    × (text_lt row.expires_at now ≡ true)
Ends s now c (s', refused k limit_reached) =
    (s' ≡ s)
    × (k ≡ used c.nonce s)
    × Fresh c.presence_nonce now s.presence_nonces
    × (0 < c.limit)
    × (c.limit ≤ k)

-- What the row of the approval allows a claim to do.
abbrev Allows : Option UsageRow → Claim → String → Spend → Type 0
Allows o c now (write row) =
    (row.disclosure_count ≡ count_of o + 1)
    × ((c.limit ≡ 0) ⊎ (row.disclosure_count ≤ c.limit))
    × Continues o c now row
Allows o c now (refuse k presence_used) = ⊥
Allows o c now (refuse k approval_expired) =
    (k ≡ count_of o) × (row : UsageRow) × (o ≡ some row) × (text_lt row.expires_at now ≡ true)
Allows o c now (refuse k limit_reached) = (k ≡ count_of o) × (0 < c.limit) × (c.limit ≤ k)

spend_usage-Allows :
    (o : Option UsageRow) (c : Claim) (now : String)
    → Allows o c now (spend_usage o c.authorization_id c.expires_at c.limit now)
unfolding spend_usage
spend_usage-Allows none c now = elim (Bool-cases (is_limited c.limit 0)) [
  | inl full ↦ absurd (ground arith)
  | inr room ↦ rw room (ground arith, ground arith, (refl, refl, refl, refl))
]
spend_usage-Allows (some row) c now = elim (Bool-cases (text_lt row.expires_at now)) [
  | inl late ↦ rw late (refl, row, refl, late)
  | inr current ↦ elim (Bool-cases (is_limited c.limit row.disclosure_count)) [
    | inl full ↦ rw (current, full) (refl, ground arith, ground arith)
    | inr room ↦ rw (current, room) (refl, ground arith, (current, refl, refl, refl, refl))
  ]
]

-- What the presence nonce allows.
abbrev Presents :
    Option String → String → String → Table PresenceRow → Table PresenceRow × Bool → Type 0
Presents o expires now t (t', false) = Reuses o now t t'
Presents o expires now t (t', true) = Fresh o now t × Gains o expires now t t'

spend_presence-Presents :
    (o : Option String) (expires now : String) (t : Table PresenceRow)
    → Presents o expires now t (spend_presence o expires now t)
unfolding spend_presence purge_presence
spend_presence-Presents none expires now t = (tt, refl)
spend_presence-Presents (some nonce) expires now t =
    elim (Option-cases (lookup nonce (unexpired now t))) [
      | inl new ↦ rw new (new, refl)
      | inr (row, found) ↦ rw found (nonce, refl, rw found refl, refl)
    ]

used-count_of : (n : String) (s : Store) → used n s ≡ count_of (lookup n s.authorization_usage)
unfolding used
used-count_of n s = refl

settle_claim-Ends :
    (s : Store) (now : String) (c : Claim) (r : Table PresenceRow × Bool) (sp : Spend)
    → Presents c.presence_nonce (kept_until c) now s.presence_nonces r
    → Allows (lookup c.nonce s.authorization_usage) c now sp
    → Ends s now c (settle_claim s r c.nonce sp)
unfolding settle_claim
settle_claim-Ends s now c (t, false) sp p h = (p, refl, refl, refl, refl)
settle_claim-Ends s now c (t, true) (refuse k presence_used) p h = absurd h
settle_claim-Ends s now c (t, true) (refuse k approval_expired) (fresh, gains)
      (count, row, found, late) =
    (refl, count ∙ sym (used-count_of c.nonce s), fresh, row, found, late)
settle_claim-Ends s now c (t, true) (refuse k limit_reached) (fresh, gains) (count, on, full) =
    (refl, count ∙ sym (used-count_of c.nonce s), fresh, on, full)
settle_claim-Ends s now c (t, true) (write row) (fresh, gains) (count, room, continues) = (
  rw (used-count_of c.nonce s) count,
  rw (used-count_of, lookup-upsert, str_eq_refl),
  room,
  row,
  refl,
  continues,
  refl,
  fresh,
  gains,
  refl,
  refl,
)

-- What a claim leaves, on each of its outcomes. If it is granted, the count that it returns is one more than
-- the count on record and respects the limit (when there is one); the approval's row bears that count and
-- the time, is new or else an unexpired one with its other columns kept, and the other approvals' rows are
-- as they were; the presence nonce was not on record unexpired, and is now, with its expiry and the time,
-- beside the other unexpired ones. If the presence nonce was on record, only the expired presence nonces are
-- gone. If the approval has expired or its limit is reached, the whole store is as it was, and the count
-- returned is the one on record. Transport nonces and counters are never touched.
pub claim-Ends : (s : Store) (now : String) (c : Claim) → Ends s now c (claim s now c)
unfolding claim
claim-Ends s now c =
    settle_claim-Ends s now c _ _
      (spend_presence-Presents c.presence_nonce (kept_until c) now s.presence_nonces)
      (spend_usage-Allows (lookup c.nonce s.authorization_usage) c now)

-- A counter that the verifier records is never lowered: after it, the credential's counter is at
-- least what it was and at least the count recorded, and it is one of the two.
pub record_sign_count_rises :
    (s : Store) (now credential : String) (count : ℕ)
    → (k : ℕ) × (sign_count (record_sign_count s now credential count) credential ≡ some k)
      × (count ≤ k)
      × ((old : ℕ) → sign_count s credential ≡ some old → (old ≤ k) × ((k ≡ old) ⊎ (k ≡ count)))
unfolding record_sign_count sign_count
record_sign_count_rises s now credential count =
    elim (Option-cases (lookup credential s.webauthn_counters)) [
      | inl new ↦ (
        count,
        ground (
          arith,
          lookup-upsert credential credential (record { sign_count = count; last_used_at = now })
              s.webauthn_counters,
          str_eq_refl credential,
        ),
        omega arith,
        λ old e. ground arith,
      )
      | inr (row, found) ↦ (
        max row.sign_count count,
        ground (
          arith,
          lookup-upsert credential credential
              (record { sign_count = max row.sign_count count; last_used_at = now })
              s.webauthn_counters,
          str_eq_refl credential,
        ),
        omega arith,
        λ old e. ground arith,
      )
    ]
