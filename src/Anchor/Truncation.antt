-- ===== src/Anchor/Truncation.antt =====
-- A history of audited events: how far behind the checkpoints are, and what a cut of the ledger's end
-- shows.
use justi_key.Common.{
  ℕ, zero, suc, ◌+◌, ◌-◌, ◌≤◌, ◌<◌, ◌≡◌, refl, subst, ap, ◌∙◌, String, List, [], ◌∷◌, ◌++◌, none,
  arith, length, Option-cases, inl, inr, ◌⊎◌, take,
}
use justi_key.Library.{Library}
use justi_key.Audit.{
  Entry, Ledger, last, head_seq, genesis_hash, intact, verify_chain, append_entry, next_entry,
}
use justi_key.Audit.Chain.{verify_chain_iff, take-IsChain}
use justi_key.Audit.Append.{append_entry-intact}
use justi_key.Anchor.{
  Payload, Anchor, Line, truncated, verified, no_anchors, read_all, highest, check_points,
  check_links, check_ledger, check_records, verify_anchors, entries_since_last_anchor, Event,
  append_event, append_events,
}
use justi_key.Anchor.Records.{last-append, last-highest, check_points-grow}
use justi_key.Anchor.History.{IsAnchored, head_seq-length, maybe_anchor-IsAnchored}

module _ (lib : Library) (dumps : Payload → String) (key : String) (interval : ℕ) where
  -- A ledger of `n` entries that is intact, whose checkpoints are in order and less than an interval
  -- behind.
  abbrev pub IsKept : ℕ → Ledger × List Line → Type 0
  IsKept n (rows, lines) =
      (verify_chain lib rows ≡ intact n)
      × IsAnchored lib dumps key rows lines
      × (entries_since_last_anchor lib dumps key rows lines < interval)

  grow-IsAnchored :
      (rows : Ledger) (e : Entry) (lines : List Line)
      → head_seq rows ≤ head_seq (rows ++ (e ∷ []))
      → IsAnchored lib dumps key rows lines
      → IsAnchored lib dumps key (rows ++ (e ∷ [])) lines
  grow-IsAnchored rows e lines grown h = record {
    clean = h.clean;
    linked = h.linked;
    points = check_points-grow rows e (read_all lines).0 h.points;
    below = omega (arith, h.below, grown);
  }

  append_event-IsKept :
      (n : ℕ) (s : Ledger × List Line) (ev : Event)
      → 0 < interval
      → IsKept n s
      → IsKept (n + 1) (append_event lib dumps key interval s ev)
  unfolding append_event append_entry
  append_event-IsKept n (rows, lines) ev on (good, h, since) =
      let e = next_entry lib rows ev.timestamp ev.event_type ev.actor ev.details in
      let good' =
        append_entry-intact lib rows n ev.timestamp ev.event_type ev.actor ev.details good in
      let (size, chain) = (verify_chain_iff lib rows n).0 good in
      let (size', chain') = (verify_chain_iff lib (rows ++ (e ∷ [])) (n + 1)).0 good' in
      let seq = head_seq-length lib dumps key rows chain in
      let seq' = head_seq-length lib dumps key (rows ++ (e ∷ [])) chain' in
      let (h', since') =
        maybe_anchor-IsAnchored lib dumps key interval (rows ++ (e ∷ [])) ev.anchored_at lines e on
          chain' (last-append rows e) (omega (arith, size', seq'))
          (grow-IsAnchored rows e lines (omega (arith, size, size', seq, seq')) h) in
      (good', h', since')

  append_events-IsKept :
      (n : ℕ) (s : Ledger × List Line) (events : List Event)
      → 0 < interval
      → IsKept n s
      → IsKept (n + length events) (append_events lib dumps key interval s events)
  unfolding append_events
  append_events-IsKept n s [] on h = subst (λ k. IsKept k s) (omega arith) h
  append_events-IsKept n s (ev ∷ events) on h =
      let rest =
        append_events-IsKept (n + 1) (append_event lib dumps key interval s ev) events on
          (append_event-IsKept n s ev on h) in
      subst
        (λ k.
          IsKept k (
            append_events lib dumps key interval (append_event lib dumps key interval s ev) events))
        (omega arith) rest

  -- Checkpoints that are in order verify.
  verify_anchors-IsAnchored :
      (rows : Ledger) (lines : List Line)
      → IsAnchored lib dumps key rows lines
      → (verify_anchors lib dumps key rows lines ≡ no_anchors)
        ⊎ (verify_anchors lib dumps key rows lines
            ≡ verified (length (read_all lines).0) (highest (read_all lines).0))
  unfolding verify_anchors check_records check_ledger
  verify_anchors-IsAnchored rows lines h = go (read_all lines) h.clean h.linked h.points h.below
    where
      go :
          (r : List Anchor × List ℕ)
          → r.1 ≡ []
          → check_links lib dumps key genesis_hash 1 r.0 ≡ none
          → check_points rows r.0 ≡ none
          → highest r.0 ≤ head_seq rows
          → (check_records lib dumps key rows r ≡ no_anchors)
            ⊎ (check_records lib dumps key rows r ≡ verified (length r.0) (highest r.0))
      go ([], []) clean linked points below = inl refl
      go (a ∷ records, []) clean linked points below = inr (ground (arith, linked, points, below))
      go (records, n ∷ bad) clean linked points below = cc

  cut-truncated :
      (rows : Ledger) (r : List Anchor × List ℕ)
      → r.1 ≡ []
      → check_links lib dumps key genesis_hash 1 r.0 ≡ none
      → head_seq rows < highest r.0
      → check_records lib dumps key rows r ≡ truncated (highest r.0 - head_seq rows)
  unfolding check_records check_ledger highest
  cut-truncated rows ([], []) clean linked cut = absurd (omega (arith, cut))
  cut-truncated rows (a ∷ records, []) clean linked cut = ground (arith, linked)
  cut-truncated rows (records, n ∷ bad) clean linked cut = cc

  length-take : {A : Type 0} (k : ℕ) (xs : List A) → k ≤ length xs → length (take k xs) ≡ k
  length-take zero xs h = refl
  length-take (suc k) [] h = absurd (omega (arith, h))
  length-take (suc k) (x ∷ xs) h = ap suc (length-take k xs (omega (arith, h)))

  -- the last checkpoint is less than an interval behind
  last-near :
      (n k : ℕ) (s : Ledger × List Line)
      → IsKept n s
      → k + interval ≤ n
      → n < highest (read_all s.1).0 + interval
  unfolding entries_since_last_anchor
  last-near n k (rows, lines) (good, h, since) room =
      let (size, chain) = (verify_chain_iff lib rows n).0 good in
      let seq = head_seq-length lib dumps key rows chain in
      elim (Option-cases (last (read_all lines).0)) [
        | inl first ↦ absurd (ground (arith, seq, size))
        | inr (a, found) ↦
            let behind : head_seq rows - a.payload.audit_seq < interval = ground arith in
            omega (arith, behind, seq, size, last-highest (read_all lines).0 a found, room)
      ]

  events-IsKept :
      (events : List Event)
      → 0 < interval
      → IsKept (length events) (append_events lib dumps key interval ([], []) events)
  unfolding verify_chain entries_since_last_anchor check_links check_points highest head_seq last
  events-IsKept events on =
      subst (λ n. IsKept n (append_events lib dumps key interval ([], []) events)) (omega arith)
        (append_events-IsKept 0 ([], []) events on
          (
            refl,
            record { clean = refl; linked = refl; points = refl; below = omega arith },
            omega (arith, on),
          ))

  -- An audited history is in order. After any events from an empty ledger and an empty log, the ledger
  -- verifies with one entry for each event, the checkpoints verify against it (or there are none yet),
  -- and fewer than `interval` entries are not yet covered by a checkpoint.
  pub append_events_verify :
      (events : List Event)
      → 0 < interval
      → let (rows, lines) = append_events lib dumps key interval ([], []) events in
        (verify_chain lib rows ≡ intact (length events))
        × ((verify_anchors lib dumps key rows lines ≡ no_anchors)
            ⊎ (verify_anchors lib dumps key rows lines
                ≡ verified (length (read_all lines).0) (highest (read_all lines).0)))
        × (entries_since_last_anchor lib dumps key rows lines < interval)
  append_events_verify events on =
      let s = append_events lib dumps key interval ([], []) events in
      let (good, h, since) = events-IsKept events on in
      (good, verify_anchors-IsAnchored s.0 s.1 h, since)

  -- Entries removed from the end are missed. After any events from an empty ledger and an empty log,
  -- a ledger cut to its first `k` entries, where that removes at least `interval` of them, is reported
  -- as truncated; and the number of missing entries that is reported is never more than were removed,
  -- and less than `interval` short of it.
  pub truncation_reported :
      (events : List Event) (k : ℕ)
      → 0 < interval
      → k + interval ≤ length events
      → let (rows, lines) = append_events lib dumps key interval ([], []) events in
        (missing : ℕ) × (verify_anchors lib dumps key (take k rows) lines ≡ truncated missing)
        × (k + missing ≤ length events)
        × (length events < k + missing + interval)
  unfolding verify_anchors
  truncation_reported events k on room =
      let s = append_events lib dumps key interval ([], []) events in
      let kept = events-IsKept events on in
      let (size, chain) = (verify_chain_iff lib s.0 (length events)).0 kept.0 in
      let near = last-near (length events) k s kept room in
      let seq = head_seq-length lib dumps key s.0 chain in
      let left : head_seq (take k s.0) ≡ k =
        head_seq-length lib dumps key (take k s.0) (take-IsChain lib k genesis_hash 1 s.0 chain)
        ∙ length-take k s.0 (omega (arith, room, size)) in
      (
        highest (read_all s.1).0 - head_seq (take k s.0),
        cut-truncated (take k s.0) (read_all s.1) kept.1.clean kept.1.linked
            (omega (arith, near, left, room)),
        omega (arith, near, left, kept.1.below, seq, size, room),
        omega (arith, near, left, kept.1.below, seq, size, room),
      )
