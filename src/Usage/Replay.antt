-- ===== src/Usage/Replay.antt =====
-- A proof of presence is spent once: the row of a spent nonce outlives every call before it expires.
use justi_key.Common.{
  ◌≡◌, refl, Bool, true, false, String, List, [], ◌∷◌, Option, none, some, inl, inr, All, lookup,
  str_eq, text_lt, arith, str_eq_iff, lookup-upsert, lookup-keep_some, Bool-cases, not, str_eq_refl,
  Table, sym, subst, is_some,
}
use justi_key.Usage.{
  PresenceRow, Store, refused, presence_used, Spend, write, refuse, spend_presence, purge_presence,
  settle_claim, Claim, text_or, claim, claim_transport_nonce, claim_presence_nonce,
  record_sign_count, purge_expired,
}
use justi_key.Usage.Trace.{
  Op, spend, transport, presence, counter, purge, op_time, apply, run, is_claimed,
}

module _ (p e : String) where
  -- The nonce is on record, with its expiry.
  abbrev pub IsSpent : Table PresenceRow → Type 0
  IsSpent t = (row : PresenceRow) × (lookup p t ≡ some row) × (row.expires_at ≡ e)

  abbrev IsBefore : Op → Type 0
  IsBefore op = text_lt e (op_time op) ≡ false

  purge_presence-IsSpent :
      (now : String) (t : Table PresenceRow)
      → text_lt e now ≡ false
      → IsSpent t
      → IsSpent (purge_presence now t)
  unfolding purge_presence
  purge_presence-IsSpent now t cur (row, found, exp) = (
    row,
    lookup-keep_some (λ (r : PresenceRow). not (text_lt r.expires_at now)) p row t found
        (rw (exp, cur)),
    exp,
  )

  -- A spent nonce is refused.
  spend_spent :
      (now exp : String) (t : Table PresenceRow)
      → text_lt e now ≡ false
      → IsSpent t
      → (spend_presence (some p) exp now t).1 ≡ false
  unfolding spend_presence
  spend_spent now exp t cur h = let (row, found, _) = purge_presence-IsSpent now t cur h in rw found

  spend_presence-IsSpent :
      (o : Option String) (exp now : String) (t : Table PresenceRow)
      → text_lt e now ≡ false
      → IsSpent t
      → IsSpent (spend_presence o exp now t).0
  unfolding spend_presence
  spend_presence-IsSpent none exp now t cur h = h
  spend_presence-IsSpent (some q) exp now t cur h =
      let (row, found, ex) = purge_presence-IsSpent now t cur h in
      elim (Bool-cases (str_eq q p)) [
        | inl same ↦ (row, ground (arith, str_eq_iff q p), ex)
        | inr other ↦ (
          row,
          ground (
            arith,
            lookup-upsert q p (record { expires_at = exp; used_at = now }) (purge_presence now t),
          ),
          ex,
        )
      ]

  settle_claim-IsSpent :
      (s : Store) (r : Table PresenceRow × Bool) (m : String) (sp : Spend)
      → IsSpent s.presence_nonces
      → IsSpent r.0
      → IsSpent (settle_claim s r m sp).0.presence_nonces
  unfolding settle_claim
  settle_claim-IsSpent s (t, false) m sp h k = k
  settle_claim-IsSpent s (t, true) m (refuse count reason) h k = h
  settle_claim-IsSpent s (t, true) m (write row) h k = k

  apply-IsSpent :
      (s : Store) (op : Op)
      → IsBefore op
      → IsSpent s.presence_nonces
      → IsSpent (apply s op).presence_nonces
  unfolding apply claim claim_transport_nonce claim_presence_nonce record_sign_count purge_expired
  apply-IsSpent s (spend now c) cur h =
      settle_claim-IsSpent s _ c.nonce _ h
        (spend_presence-IsSpent c.presence_nonce _ now s.presence_nonces cur h)
  apply-IsSpent s (transport now cutoff nonce) cur (row, found, ex) = (row, ground arith, ex)
  apply-IsSpent s (presence now nonce ex) cur h =
      spend_presence-IsSpent (some nonce) ex now s.presence_nonces cur h
  apply-IsSpent s (counter now credential count) cur h = h
  apply-IsSpent s (purge now) cur h = purge_presence-IsSpent now s.presence_nonces cur h

  run-IsSpent :
      (s : Store) (ops : List Op)
      → All IsBefore ops
      → IsSpent s.presence_nonces
      → IsSpent (run s ops).presence_nonces
  unfolding run
  run-IsSpent s [] cur h = h
  run-IsSpent s (op ∷ ops) cur h = run-IsSpent (apply s op) ops cur.1 (apply-IsSpent s op cur.0 h)

  settle_refused :
      (s : Store) (r : Table PresenceRow × Bool) (m : String) (sp : Spend)
      → r.1 ≡ false
      → (settle_claim s r m sp).1 ≡ refused 0 presence_used
  unfolding settle_claim
  settle_refused s (t, false) m sp h = refl
  settle_refused s (t, true) m sp h = cc

  settle_granted :
      (s : Store) (r : Table PresenceRow × Bool) (m : String) (sp : Spend)
      → is_claimed (settle_claim s r m sp).1 ≡ true
      → (r.1 ≡ true) × ((settle_claim s r m sp).0.presence_nonces ≡ r.0)
  unfolding settle_claim
  settle_granted s (t, false) m sp h = cc
  settle_granted s (t, true) m (refuse count reason) h = cc
  settle_granted s (t, true) m (write row) h = (refl, refl)

  spend_fresh :
      (now : String) (t : Table PresenceRow)
      → (spend_presence (some p) e now t).1 ≡ true
      → IsSpent (spend_presence (some p) e now t).0
  unfolding spend_presence
  spend_fresh now t h = elim (Bool-cases (is_some (lookup p (purge_presence now t)))) [
    | inl old ↦ absurd (ground arith)
    | inr new ↦ rw new (
      record { expires_at = e; used_at = now },
      rw (lookup-upsert p p (record { expires_at = e; used_at = now }) (purge_presence now t))
          (rw (str_eq_refl p)),
      refl,
    )
  ]

-- A granted claim leaves its presence nonce spent.
granted-IsSpent :
    (p : String) (s : Store) (now : String) (c : Claim)
    → c.presence_nonce ≡ some p
    → is_claimed (claim s now c).1 ≡ true
    → IsSpent p (text_or c.presence_expires_at c.expires_at) (claim s now c).0.presence_nonces
unfolding claim
granted-IsSpent p s now c hp h =
    let e = text_or c.presence_expires_at c.expires_at in
    let (fresh, same) = settle_granted p e s _ c.nonce _ h in
    rw same (
      subst
        (λ (o : Option String).
          (spend_presence o e now s.presence_nonces).1 ≡ true
          → IsSpent p e (spend_presence o e now s.presence_nonces).0)
        (sym hp) (spend_fresh p e now s.presence_nonces) fresh)

-- A claim with a spent nonce is refused.
claim-spent :
    (p e : String) (s : Store) (now : String) (c : Claim)
    → c.presence_nonce ≡ some p
    → text_lt e now ≡ false
    → IsSpent p e s.presence_nonces
    → (claim s now c).1 ≡ refused 0 presence_used
unfolding claim
claim-spent p e s now c hp cur h =
    settle_refused p e s _ c.nonce _ (rw hp (spend_spent p e now _ s.presence_nonces cur h))

-- One proof of presence buys one disclosure. After a claim that spends the presence nonce `p` is
-- granted, then whatever calls follow while that proof has not expired (claims, purges and single
-- spendings among them), every further claim with `p` is refused as already used, whichever
-- approval it names.
pub claim_presence_once :
    (p : String) (s : Store) (now later : String) (c c' : Claim) (ops : List Op)
    → c.presence_nonce ≡ some p
    → c'.presence_nonce ≡ some p
    → is_claimed (claim s now c).1 ≡ true
    → All (λ op. text_lt (text_or c.presence_expires_at c.expires_at) (op_time op) ≡ false) ops
    → text_lt (text_or c.presence_expires_at c.expires_at) later ≡ false
    → (claim (run (claim s now c).0 ops) later c').1 ≡ refused 0 presence_used
claim_presence_once p s now later c c' ops hp hp' granted before fresh =
    let e = text_or c.presence_expires_at c.expires_at in
    claim-spent p e (run (claim s now c).0 ops) later c' hp' fresh
      (run-IsSpent p e (claim s now c).0 ops before (granted-IsSpent p s now c hp granted))
