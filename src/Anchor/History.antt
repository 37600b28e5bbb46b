-- ===== src/Anchor/History.antt =====
-- What `create_anchor` and `maybe_anchor` do to a log that is in order.
use justi_key.Common.{
  ℕ, ◌≤◌, ◌<◌, ◌≡◌, refl, false, String, List, [], ◌∷◌, ◌++◌, none, some, arith, ◌==◌, length,
  Bool-cases, Option-cases, inl, inr, ◌⊎◌, ltb,
}
use justi_key.Library.{Library}
use justi_key.Audit.{Entry, Ledger, last, head_seq, head_hash, genesis_hash}
use justi_key.Audit.Chain.{IsChain}
use justi_key.Anchor.{
  Payload, Anchor, Line, parsed, read_all, hash_at, highest, check_points, check_links, next_anchor,
  build_anchor, has_moved, create_anchor, entries_since_last_anchor, maybe_anchor,
}
use justi_key.Anchor.Records.{
  end_anchor-last, end_link-last, last-append, read_from-append, highest-append,
  check_points-append, check_links-append, hash_at-head,
}

module _ (lib : Library) (dumps : Payload → String) (key : String) where
  -- Every line is a checkpoint, they are linked and signed, and each holds of the ledger.
  pub record IsAnchored (rows : Ledger) (lines : List Line) : Type 0 where
    pub clean : (read_all lines).1 ≡ []
    pub linked : check_links lib dumps key genesis_hash 1 (read_all lines).0 ≡ none
    pub points : check_points rows (read_all lines).0 ≡ none
    pub below : highest (read_all lines).0 ≤ head_seq rows

  pub head_seq-length :
      (rows : Ledger) → IsChain lib genesis_hash 1 rows → head_seq rows ≡ length rows
  unfolding head_seq last
  head_seq-length [] chain = refl
  head_seq-length (e ∷ rows) chain = elim (Option-cases (last (e ∷ rows))) [
    | inl bad ↦ absurd (last_some e rows bad)
    | inr (d, found) ↦ rw (found, head_seq) (hash_at-head lib dumps key (e ∷ rows) d chain found).1
  ]
    where
      last_some : (e : Entry) (rows : Ledger) → last (e ∷ rows) ≡ none → ⊥
      last_some e [] bad = cc
      last_some e (d ∷ rows) bad = last_some d rows bad

  read_all-append :
      (lines : List Line) (a : Anchor)
      → read_all (lines ++ (parsed a ∷ [])) ≡ ((read_all lines).0 ++ (a ∷ []), (read_all lines).1)
  unfolding read_all
  read_all-append lines a = read_from-append 1 lines a

  hash_at-head_seq :
      (rows : Ledger) (e : Entry)
      → IsChain lib genesis_hash 1 rows
      → last rows ≡ some e
      → hash_at (head_seq rows) rows ≡ some (head_hash rows)
  unfolding head_seq head_hash
  hash_at-head_seq rows e chain found =
      let s : head_seq rows ≡ e.seq = rw (found, head_seq) refl in
      let t : head_hash rows ≡ e.hash = rw (found, head_hash) refl in
      rw (s, t) (hash_at-head lib dumps key rows e chain found).0

  write-IsAnchored :
      (rows : Ledger) (now : String) (lines : List Line) (e : Entry)
      → IsChain lib genesis_hash 1 rows
      → last rows ≡ some e
      → IsAnchored rows lines
      → IsAnchored rows
          (lines ++ (parsed (next_anchor lib dumps key rows now (last (read_all lines).0)) ∷ []))
  unfolding next_anchor build_anchor
  write-IsAnchored rows now lines e chain found h =
      let a = next_anchor lib dumps key rows now (last (read_all lines).0) in
      record {
        clean = rw (read_all-append lines a) h.clean;
        linked = rw (read_all-append lines a) (
            check_links-append lib dumps key genesis_hash 1 (read_all lines).0 a h.linked
              (end_anchor-last 1 (read_all lines).0) (end_link-last genesis_hash (read_all lines).0)
              refl refl);
        points = rw (read_all-append lines a) (
            check_points-append rows (read_all lines).0 a h.points
              (hash_at-head_seq rows e chain found));
        below =
            rw (read_all-append lines a)
              (omega (arith, highest-append (read_all lines).0 a, h.below));
      }

  abbrev written : Ledger → String → List Line → List Line
  written rows now lines =
      lines ++ (parsed (next_anchor lib dumps key rows now (last (read_all lines).0)) ∷ [])

  written-entries :
      (rows : Ledger) (now : String) (lines : List Line)
      → entries_since_last_anchor lib dumps key rows (written rows now lines) ≡ 0
  unfolding entries_since_last_anchor
  written-entries rows now lines =
      let a = next_anchor lib dumps key rows now (last (read_all lines).0) in
      let at_head : a.payload.audit_seq ≡ head_seq rows = unfold next_anchor build_anchor in refl in
      rw (read_all-append lines a, last-append (read_all lines).0 a) (omega (arith, at_head))

  -- A checkpoint is written, unless the head is anchored already.
  create_anchor-cases :
      (rows : Ledger) (now : String) (lines : List Line)
      → 0 < head_seq rows
      → ((create_anchor lib dumps key rows now lines ≡ lines)
          × (entries_since_last_anchor lib dumps key rows lines ≡ 0))
        ⊎ (create_anchor lib dumps key rows now lines ≡ written rows now lines)
  unfolding create_anchor entries_since_last_anchor has_moved
  create_anchor-cases rows now lines pos = elim (Option-cases (last (read_all lines).0)) [
    | inl first ↦ inr (ground arith)
    | inr (a, found) ↦ elim (Bool-cases (a.payload.audit_seq == head_seq rows)) [
      | inl same ↦ inl (ground arith, rw found (ground arith))
      | inr moved ↦ inr (ground arith)
    ]
  ]

  create_anchor-IsAnchored :
      (rows : Ledger) (now : String) (lines : List Line) (e : Entry)
      → IsChain lib genesis_hash 1 rows
      → last rows ≡ some e
      → 0 < head_seq rows
      → IsAnchored rows lines
      → IsAnchored rows (create_anchor lib dumps key rows now lines)
        × (entries_since_last_anchor lib dumps key rows (create_anchor lib dumps key rows now lines)
            ≡ 0)
  create_anchor-IsAnchored rows now lines e chain found pos h =
      elim (create_anchor-cases rows now lines pos) [
        | inl (same, none_since) ↦ rw same (h, none_since)
        | inr wrote ↦
            rw wrote
              (write-IsAnchored rows now lines e chain found h, written-entries rows now lines)
      ]

  pub maybe_anchor-IsAnchored :
      (interval : ℕ) (rows : Ledger) (now : String) (lines : List Line) (e : Entry)
      → 0 < interval
      → IsChain lib genesis_hash 1 rows
      → last rows ≡ some e
      → 0 < head_seq rows
      → IsAnchored rows lines
      → IsAnchored rows (maybe_anchor lib dumps key interval rows now lines)
        × (entries_since_last_anchor lib dumps key rows
              (maybe_anchor lib dumps key interval rows now lines)
            < interval)
  unfolding maybe_anchor
  maybe_anchor-IsAnchored interval rows now lines e on chain found pos h =
      let (kept, since) = create_anchor-IsAnchored rows now lines e chain found pos h in
      let nonzero : (interval == 0) ≡ false = ground arith in
      elim (Bool-cases (ltb (entries_since_last_anchor lib dumps key rows lines) interval)) [
        | inl early ↦ rw (nonzero, early) (h, ground arith)
        | inr due ↦ rw (nonzero, due) (kept, omega (arith, since, on))
      ]
