-- ===== src/Sources/Replay.antt =====
-- Signed ingest cannot be replayed: how long `ingest_nonces` of justikey/models.py keeps a nonce, beside how
-- long a timestamp is fresh.
use justi_key.Common.{
  some_inj, ℕ, ◌+◌, ◌-◌, ◌*◌, ◌≤◌, ◌<◌, ◌≡◌, ◌≢◌, refl, sym, ap, subst, ◌∙◌, true, false, ◌&&◌,
  String, List, [], ◌∷◌, Option, some, Result, ok, raise, require, raise_if, some_or, >>=-eq-ok,
  >>-eq-ok, raise_if-false, some_or-some, arith, ltb, ◌==◌, str_eq, str_eq_refl, text_lt, All,
  Bool-cases, inl, inr, ◌⊎◌,
}
use justi_key.Statements.{has_text, text_of}
use justi_key.Library.{Library}
use justi_key.Timeutil.{DateTime, to_canonical, IsCalendar, text_lt-civil}
use justi_key.Sources.{
  missing_headers, unknown_source, other_mode, malformed_timestamp, get_source_by_key, is_active,
  is_hmac, Source, NonceRow, Ingest, IngestError, outside_window, Cipher, SignedRequest, has_nonce,
  claim_ingest_nonce, purge_ingest_nonces, check_signed, spend_nonce, authenticate_signed_source,
  distance,
}

-- what happens to the nonces between two requests
pub data Op : Type 0 where
  spend : ℕ → ℕ → String → Op
  purge : ℕ → Op

abbrev pub op_at : Op → ℕ
op_at (spend at i nonce) = at
op_at (purge at) = at

module _ (lib : Library) (civil : ℕ → DateTime) (window bound : ℕ) where
  unfoldable pub run : List NonceRow → List Op → List NonceRow
  run rows [] = rows
  run rows (spend at i nonce ∷ ops) = run (claim_ingest_nonce lib civil at i nonce rows).0 ops
  run rows (purge at ∷ ops) = run (purge_ingest_nonces lib civil window at rows) ops

  module _ (i : ℕ) (nonce : String) (since : ℕ) where
    -- the nonce was recorded at `since`, or the table holds such a row among others
    abbrev pub IsKept : List NonceRow → Type 0
    IsKept [] = ⊥
    IsKept (r ∷ rows) =
        (((r.source_id == i) && str_eq r.nonce nonce) ≡ true)
          × (r.seen_at ≡ to_canonical (civil since))
        ⊎ IsKept rows

    kept_has : (rows : List NonceRow) → IsKept rows → has_nonce i nonce rows ≡ true
    unfolding has_nonce
    kept_has [] h = absurd h
    kept_has (r ∷ rows) (inl (same, _)) = rw same refl
    kept_has (r ∷ rows) (inr later) = ground (arith, kept_has rows later)

    purge_kept :
        (rows : List NonceRow) (at : ℕ)
        → IsCalendar civil bound
        → since < bound
        → at < bound
        → at ≤ since + window * 2
        → IsKept rows
        → IsKept (purge_ingest_nonces lib civil window at rows)
    unfolding purge_ingest_nonces
    purge_kept [] at c hs ha near h = absurd h
    purge_kept (r ∷ rows) at c hs ha near (inl (same, seen)) =
        let order : text_lt (to_canonical (civil since)) (to_canonical (civil (at - window * 2)))
            ≡ ltb since (at - window * 2) =
          text_lt-civil civil bound since (at - window * 2) c hs (omega (arith, ha)) in
        let young : ltb since (at - window * 2) ≡ false = ground (arith, near) in
        let stays : text_lt r.seen_at (to_canonical (civil (at - window * 2))) ≡ false =
          ap (λ t. text_lt t (to_canonical (civil (at - window * 2)))) seen ∙ order ∙ young in
        rw stays (inl (same, seen))
    purge_kept (r ∷ rows) at c hs ha near (inr later) =
        elim (Bool-cases (text_lt r.seen_at (to_canonical (civil (at - window * 2))))) [
          | inl old ↦ rw old (purge_kept rows at c hs ha near later)
          | inr young ↦ rw young (inr (purge_kept rows at c hs ha near later))
        ]

    claim_kept :
        (rows : List NonceRow) (at j : ℕ) (other : String)
        → IsKept rows
        → IsKept (claim_ingest_nonce lib civil at j other rows).0
    unfolding claim_ingest_nonce
    claim_kept rows at j other kept = elim (Bool-cases (has_nonce j other rows)) [
      | inl old ↦ rw old kept
      | inr new ↦ rw new (inr kept)
    ]

    -- every operation within the time that a nonce is kept
    abbrev IsNear : Op → Type 0
    IsNear op = (op_at op < bound) × (op_at op ≤ since + window * 2)

    run_kept :
        (ops : List Op) (rows : List NonceRow)
        → IsCalendar civil bound
        → since < bound
        → All IsNear ops
        → IsKept rows
        → IsKept (run rows ops)
    unfolding run
    run_kept [] rows c hs near kept = kept
    run_kept (spend at j other ∷ ops) rows c hs near kept =
        run_kept ops (claim_ingest_nonce lib civil at j other rows).0 c hs near.1
          (claim_kept rows at j other kept)
    run_kept (purge at ∷ ops) rows c hs near kept =
        run_kept ops (purge_ingest_nonces lib civil window at rows) c hs near.1
          (purge_kept rows at c hs near.0.0 near.0.1 kept)

  -- the checks of a signed request leave its timestamp within the window
  check_signed-window :
      (now : ℕ) (s : Ingest) (cipher : Option Cipher) (r : SignedRequest) (source : Source)
      → check_signed lib civil window now s cipher r ≡ ok source
      → (sent : ℕ) × (lib.parse_dt (text_of r.timestamp) ≡ some sent)
        × (distance lib civil now sent ≤ window)
  unfolding check_signed
  check_signed-window now s cipher r source h =
      let (_, h1) =
        >>-eq-ok
          (require
            (has_text r.key_id && has_text r.timestamp && has_text r.nonce && has_text r.signature)
            missing_headers)
          _ h in
      let (found, _, h2) =
        >>=-eq-ok (some_or (get_source_by_key s.sources (text_of r.key_id)) unknown_source) _ h1 in
      let (_, h3) = >>-eq-ok (require (is_active found.status) unknown_source) _ h2 in
      let (_, h4) = >>-eq-ok (require (is_hmac found.auth_mode) other_mode) _ h3 in
      let (sent, parsed, h5) =
        >>=-eq-ok (some_or (lib.parse_dt (text_of r.timestamp)) malformed_timestamp) _ h4 in
      let (near, _) =
        >>-eq-ok (raise_if (ltb window (distance lib civil now sent)) outside_window) _ h5 in
      let within = raise_if-false (ltb window (distance lib civil now sent)) outside_window near in
      (
        sent,
        some_or-some (lib.parse_dt (text_of r.timestamp)) malformed_timestamp sent parsed,
        ground (arith, within),
      )

  recorded :
      (claimed_at purged_at : ℕ) (s : Ingest) (nonce : String) (found : Source)
      → IsCalendar civil bound
      → claimed_at < bound
      → purged_at < bound
      → purged_at ≤ claimed_at + window * 2
      → has_nonce found.id nonce s.ingest_nonces ≡ false
      → IsKept found.id nonce claimed_at
          (spend_nonce lib civil window claimed_at purged_at s nonce (ok found)).0.ingest_nonces
  unfolding spend_nonce claim_ingest_nonce
  recorded claimed_at purged_at s nonce found c hc hp near new =
      let row : NonceRow = record {
        source_id = found.id;
        nonce = nonce;
        seen_at = to_canonical (civil claimed_at);
      } in
      let same : ((found.id == found.id) && str_eq nonce nonce) ≡ true =
        ground (arith, str_eq_refl nonce) in
      rw new (
        purge_kept found.id nonce claimed_at (row ∷ s.ingest_nonces) purged_at c hc hp near
          (inl (same, refl)))

  spent_found :
      (claimed_at purged_at : ℕ) (s : Ingest) (nonce : String) (found source : Source)
      → (spend_nonce lib civil window claimed_at purged_at s nonce (ok found)).1 ≡ ok source
      → (has_nonce found.id nonce s.ingest_nonces ≡ false) × (found ≡ source)
  unfolding spend_nonce claim_ingest_nonce
  spent_found claimed_at purged_at s nonce found source h =
      elim (Bool-cases (has_nonce found.id nonce s.ingest_nonces)) [
        | inl old ↦ absurd (ground arith)
        | inr new ↦ (new, ground arith)
      ]

  spend_nonce-kept :
      (claimed_at purged_at : ℕ) (s : Ingest) (nonce : String) (checked : Result IngestError Source)
      (source : Source)
      → IsCalendar civil bound
      → claimed_at < bound
      → purged_at < bound
      → purged_at ≤ claimed_at + window * 2
      → (spend_nonce lib civil window claimed_at purged_at s nonce checked).1 ≡ ok source
      → (checked ≡ ok source)
        × IsKept source.id nonce claimed_at
            (spend_nonce lib civil window claimed_at purged_at s nonce checked).0.ingest_nonces
  spend_nonce-kept claimed_at purged_at s nonce (raise e) source c hc hp near h =
      absurd (unfold spend_nonce in cc)
  spend_nonce-kept claimed_at purged_at s nonce (ok found) source c hc hp near h =
      let (new, same) = spent_found claimed_at purged_at s nonce found source h in
      (
        ap ok same,
        subst
            (λ (x : Source).
              IsKept x.id nonce claimed_at
                (spend_nonce lib civil window claimed_at purged_at s nonce
                  (ok found)).0.ingest_nonces)
            same (recorded claimed_at purged_at s nonce found c hc hp near new),
      )

  spend_nonce-refused :
      (claimed_at purged_at : ℕ) (s : Ingest) (nonce : String) (checked : Result IngestError Source)
      (source : Source)
      → has_nonce source.id nonce s.ingest_nonces ≡ true
      → (spend_nonce lib civil window claimed_at purged_at s nonce checked).1 ≢ ok source
  spend_nonce-refused claimed_at purged_at s nonce (raise e) source held h =
      unfold spend_nonce in cc
  spend_nonce-refused claimed_at purged_at s nonce (ok found) source held h =
      let (new, same) = spent_found claimed_at purged_at s nonce found source h in
      let new' : has_nonce source.id nonce s.ingest_nonces ≡ false =
        subst (λ (x : Source). has_nonce x.id nonce s.ingest_nonces ≡ false) same new in
      cc

  spend_nonce-checked :
      (claimed_at purged_at : ℕ) (s : Ingest) (nonce : String) (checked : Result IngestError Source)
      (source : Source)
      → (spend_nonce lib civil window claimed_at purged_at s nonce checked).1 ≡ ok source
      → checked ≡ ok source
  spend_nonce-checked claimed_at purged_at s nonce (raise e) source h =
      absurd (unfold spend_nonce in cc)
  spend_nonce-checked claimed_at purged_at s nonce (ok found) source h =
      ap ok (spent_found claimed_at purged_at s nonce found source h).1

  distance-le : (a b : ℕ) → distance lib civil a b ≤ window → (a ≤ b + window) × (b ≤ a + window)
  distance-le a b h = (ground (arith, h), ground (arith, h))

  weaken :
      (later until : ℕ) (ops : List Op)
      → later < bound
      → later ≤ until
      → All (λ op. op_at op ≤ later) ops
      → All (λ op. (op_at op < bound) × (op_at op ≤ until)) ops
  weaken later until [] hb hu h = tt
  weaken later until (op ∷ ops) hb hu h =
      ((omega (arith, hb, h.0), omega (arith, hu, h.0)), weaken later until ops hb hu h.1)

  -- A signed request cannot be replayed. After a signed request has been accepted for a source, then,
  -- whatever nonces are claimed and purged in between, no later request with the same nonce and timestamp is
  -- accepted for that source, at any later time and whatever else it holds: while its timestamp is fresh the
  -- nonce is still on record. The readings of the clock are in their order, and the calendar serves them.
  pub signed_replay-refused :
      (s t : Ingest) (cipher cipher' : Option Cipher) (r r' : SignedRequest)
      (source source' : Source) (ops : List Op)
      (now claimed_at purged_at now' claimed_at' purged_at' : ℕ)
      → IsCalendar civil bound
      → (authenticate_signed_source lib civil window (now, claimed_at, purged_at) s cipher r).1
        ≡ ok source
      → now ≤ claimed_at
      → purged_at ≤ now'
      → All (λ op. op_at op ≤ now') ops
      → claimed_at < bound
      → now' < bound
      → t.ingest_nonces
        ≡ run
            (authenticate_signed_source lib civil window
              (now, claimed_at, purged_at)
              s
              cipher
              r).0.ingest_nonces
            ops
      → text_of r'.nonce ≡ text_of r.nonce
      → text_of r'.timestamp ≡ text_of r.timestamp
      → source'.id ≡ source.id
      → (authenticate_signed_source lib civil window (now', claimed_at', purged_at') t cipher' r').1
        ≢ ok source'
  unfolding authenticate_signed_source
  signed_replay-refused s t cipher cipher' r r' source source' ops now claimed_at purged_at now'
        claimed_at' purged_at' c accepted ordered before between hc hn nonces same_nonce same_time
        same_source again =
      let first =
        spend_nonce-checked claimed_at purged_at s (text_of r.nonce)
          (check_signed lib civil window now s cipher r) source accepted in
      let second =
        spend_nonce-checked claimed_at' purged_at' t (text_of r'.nonce)
          (check_signed lib civil window now' t cipher' r') source' again in
      let (sent, parsed, near) = check_signed-window now s cipher r source first in
      let (sent', parsed', near') = check_signed-window now' t cipher' r' source' second in
      let same_sent : sent' ≡ sent =
        some_inj (sym parsed' ∙ ap (λ x. lib.parse_dt x) same_time ∙ parsed) in
      let fresh : now' ≤ claimed_at + window * 2 = omega (
        arith,
        (distance-le now sent near).1,
        (distance-le now' sent' near').0,
        same_sent,
        ordered,
      ) in
      let (_, kept) =
        spend_nonce-kept claimed_at purged_at s (text_of r.nonce)
          (check_signed lib civil window now s cipher r) source c hc (omega (arith, before, hn))
          (omega (arith, before, fresh)) accepted in
      let kept' =
        run_kept source.id (text_of r.nonce) claimed_at ops _ c hc
          (weaken now' (claimed_at + window * 2) ops hn fresh between) kept in
      let held : has_nonce source'.id (text_of r'.nonce) t.ingest_nonces ≡ true =
        rw (nonces, same_nonce, same_source)
          (kept_has source.id (text_of r.nonce) claimed_at _ kept') in
      spend_nonce-refused claimed_at' purged_at' t (text_of r'.nonce)
        (check_signed lib civil window now' t cipher' r') source' held again
