-- ===== src/Usage/Limit.antt =====
-- The cap on the disclosures of one approval, over every sequence of calls before it expires.
use justi_key.Common.{
  ℕ, ◌+◌, ◌≤◌, ◌<◌, ◌≡◌, refl, Bool, true, false, String, List, [], ◌∷◌, Option, none, some, inl,
  inr, All, lookup, str_eq, text_lt, arith, str_eq_iff, lookup-upsert, lookup-keep_none,
  lookup-keep_some, Bool-cases, not, keep_rows, str_eq_refl, Table, if◌then◌else◌,
}
use justi_key.Usage.{
  UsageRow, PresenceRow, Store, Outcome, Spend, write, refuse, spend_usage, settle_claim, Claim,
  claim, claim_transport_nonce, claim_presence_nonce, record_sign_count, purge_expired,
}
use justi_key.Usage.Trace.{
  Op, spend, transport, presence, counter, purge, op_time, apply, run, grant, uses, used,
  is_claimed,
}

module _ (n expires : String) (limit : ℕ) where
  -- What is asked of a call: it is made while the approval has not expired, and if it is a claim on
  -- the approval, then with the expiry that the approval was signed with, and the configured limit.
  abbrev pub IsCurrent : Op → Type 0
  IsCurrent (spend now c) =
      (text_lt expires now ≡ false) × (c.nonce ≡ n → (c.expires_at ≡ expires) × (c.limit ≡ limit))
  IsCurrent op = text_lt expires (op_time op) ≡ false

  -- The row of the approval, if there is one, has its expiry and a count within the limit.
  abbrev pub IsRow : Option UsageRow → Type 0
  IsRow none = Unit
  IsRow (some row) = (row.expires_at ≡ expires) × (row.disclosure_count ≤ limit)

  abbrev pub IsWithin : Store → Type 0
  IsWithin s = IsRow (lookup n s.authorization_usage)

  -- What one call does to the row of the approval.
  abbrev pub Counts : Store → Op → Type 0
  Counts s op = IsWithin (apply s op) × (used n (apply s op) ≡ used n s + grant n s op)

  -- A row that the claim writes for the approval.
  abbrev IsNext : Option UsageRow → Spend → Type 0
  IsNext o (refuse _ _) = Unit
  IsNext none (write row) = IsRow (some row) × (row.disclosure_count ≡ 1)
  IsNext (some old) (write row) =
      IsRow (some row) × (row.disclosure_count ≡ old.disclosure_count + 1)

  spend_usage-IsNext :
      (o : Option UsageRow) (auth : Option ℕ) (now : String)
      → 0 < limit
      → IsRow o
      → IsNext o (spend_usage o auth expires limit now)
  unfolding spend_usage
  spend_usage-IsNext none auth now pos h = ground arith
  spend_usage-IsNext (some row) auth now pos h = ground arith

  abbrev Settles : Store → ℕ → Store × Outcome → Type 0
  Settles s k (s', o) = IsWithin s' × (used n s' ≡ used n s + (if is_claimed o then k else 0))

  settle_claim_same :
      (s : Store) (p : Table PresenceRow × Bool) (sp : Spend)
      → IsWithin s
      → IsNext (lookup n s.authorization_usage) sp
      → Settles s 1 (settle_claim s p n sp)
  unfolding settle_claim used
  settle_claim_same s (t, false) sp h k = (h, omega arith)
  settle_claim_same s (t, true) (refuse count reason) h k = (h, omega arith)
  settle_claim_same s (t, true) (write row) h k =
      ground (arith, lookup-upsert n n row s.authorization_usage, str_eq_refl n)

  settle_claim_other :
      (s : Store) (p : Table PresenceRow × Bool) (m : String) (sp : Spend)
      → IsWithin s
      → str_eq m n ≡ false
      → Settles s 0 (settle_claim s p m sp)
  unfolding settle_claim used
  settle_claim_other s (t, false) m sp h k = (h, omega arith)
  settle_claim_other s (t, true) m (refuse count reason) h k = (h, omega arith)
  settle_claim_other s (t, true) m (write row) h k =
      ground (arith, lookup-upsert m n row s.authorization_usage)

  claim-Settles :
      (s : Store) (now : String) (c : Claim)
      → 0 < limit
      → IsCurrent (spend now c)
      → IsWithin s
      → Settles s (if str_eq c.nonce n then 1 else 0) (claim s now c)
  unfolding claim
  claim-Settles s now c pos cur h = elim (Bool-cases (str_eq c.nonce n)) [
    | inl same ↦
        let e = (str_eq_iff c.nonce n).0 same in
        rw (same, e, (cur.1 e).0, (cur.1 e).1)
          (settle_claim_same s _ _ h (spend_usage-IsNext _ c.authorization_id now pos h))
    | inr other ↦ rw other (settle_claim_other s _ c.nonce _ h other)
  ]

  Counts_of_keep :
      (o : Option UsageRow) (now : String) (t : Table UsageRow)
      → lookup n t ≡ o
      → IsRow o
      → text_lt expires now ≡ false
      → lookup n (keep_rows (λ r. not (text_lt r.expires_at now)) t) ≡ o
  Counts_of_keep none now t e h cur = lookup-keep_none _ n t e
  Counts_of_keep (some row) now t e h cur =
      lookup-keep_some (λ (r : UsageRow). not (text_lt r.expires_at now)) n row t e (rw (h.0, cur))

  -- One call keeps the row within the limit, and raises the count by the claims it grants.
  pub apply-Counts : (s : Store) (op : Op) → 0 < limit → IsCurrent op → IsWithin s → Counts s op
  unfolding apply grant used claim_transport_nonce claim_presence_nonce record_sign_count
      purge_expired
  apply-Counts s (spend now c) pos cur h = ground (arith, claim-Settles s now c pos cur h)
  apply-Counts s (transport now cutoff nonce) pos cur h = ground arith
  apply-Counts s (presence now nonce e) pos cur h = (h, omega arith)
  apply-Counts s (counter now credential count) pos cur h = (h, omega arith)
  apply-Counts s (purge now) pos cur h =
      let same = Counts_of_keep _ now s.authorization_usage refl h cur in
      (rw same h, rw (same, used) (omega arith))

  run-Counts :
      (s : Store) (ops : List Op)
      → 0 < limit
      → All IsCurrent ops
      → IsWithin s
      → IsWithin (run s ops) × (used n (run s ops) ≡ used n s + uses n s ops)
  unfolding run uses
  run-Counts s [] pos cur h = (h, omega arith)
  run-Counts s (op ∷ ops) pos cur h =
      let (h', step) = apply-Counts s op pos cur.0 h in
      let (within, total) = run-Counts (apply s op) ops pos cur.1 h' in (within, omega arith)

  pub used-le : (s : Store) → IsWithin s → used n s ≤ limit
  unfolding used
  used-le s h = ground arith

  -- However the calls of a service interleave (claims on this and other approvals, transport and
  -- presence nonces, counters, purges), while the approval has not expired it is granted at most
  -- `limit` claims in all: what was on record before and what is granted are together within the
  -- limit, and the count on record at the end is exactly their sum.
  pub uses-le-limit :
      (s : Store) (ops : List Op)
      → 0 < limit
      → All IsCurrent ops
      → IsWithin s
      → (used n s + uses n s ops ≤ limit) × (used n (run s ops) ≡ used n s + uses n s ops)
  uses-le-limit s ops pos cur h =
      let (within, total) = run-Counts s ops pos cur h in
      (omega (arith, used-le (run s ops) within), total)
