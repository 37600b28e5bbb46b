-- ===== src/Anchor.antt =====
-- justikey/anchor.py: signed checkpoints of the ledger's head. The log is its lines in order. Keys, the
-- file and the sending to the witness are not modelled; `json.dumps` of a payload is `dumps`.
pub mod Records
pub mod History
pub mod Truncation
use justi_key.Common.{
  ℕ, ◌+◌, ◌-◌, max, Bool, true, false, String, List, [], ◌∷◌, ◌++◌, Option, none, some, str_eq,
  ◌==◌, if◌then◌else◌, length, ltb,
}
use justi_key.Library.{Library}
use justi_key.Audit.{Entry, Ledger, last, head_seq, head_hash, genesis_hash, append_entry}

-- what is signed
pub record Payload : Type 0 where
  pub anchor_seq : ℕ
  pub audit_seq : ℕ
  pub audit_hash : String
  pub entry_count : ℕ
  pub created_at : String
  pub prev_anchor_hash : String

pub record Anchor : Type 0 where
  pub payload : Payload
  pub hash : String
  pub mac : String

-- a line of the log
pub data Line : Type 0 where
  parsed : Anchor → Line
  blank unparseable : Line

-- what `verify_anchors` reports
pub data AnchorVerdict : Type 0 where
  malformed : List ℕ → AnchorVerdict
  no_anchors : AnchorVerdict
  broken_anchor_chain forged : ℕ → AnchorVerdict
  truncated : ℕ → AnchorVerdict
  rewritten : ℕ → AnchorVerdict
  verified : ℕ → ℕ → AnchorVerdict

-- `AnchorStore.read_all`, from line `n` on: the records, and the numbers of the lines that are none
unfoldable pub read_from : ℕ → List Line → List Anchor × List ℕ
read_from n [] = ([], [])
read_from n (parsed a ∷ lines) = let (records, bad) = read_from (n + 1) lines in (a ∷ records, bad)
read_from n (blank ∷ lines) = read_from (n + 1) lines
read_from n (unparseable ∷ lines) =
    let (records, bad) = read_from (n + 1) lines in (records, n ∷ bad)

unfoldable pub read_all : List Line → List Anchor × List ℕ
unfolding read_from
read_all lines = read_from 1 lines

-- SELECT hash FROM audit_log WHERE seq=?
unfoldable pub hash_at : ℕ → Ledger → Option String
hash_at seq [] = none
hash_at seq (e ∷ rows) = if e.seq == seq then some e.hash else hash_at seq rows

-- max(r["audit_seq"] for r in records)
unfoldable pub highest : List Anchor → ℕ
highest [] = 0
highest (a ∷ records) = max a.payload.audit_seq (highest records)

-- Each anchored point must still hold the hash that was published for it.
unfoldable pub check_points : Ledger → List Anchor → Option AnchorVerdict
unfolding hash_at
check_points rows [] = none
check_points rows (a ∷ records) =
    let rest = check_points rows records in
    elim (hash_at a.payload.audit_seq rows) [
      | none ↦ some (truncated 1)
      | some h ↦
          if str_eq h a.payload.audit_hash then rest else some (rewritten a.payload.audit_seq)
    ]

-- what one audited event brings: its columns, and the times of its entry and of its checkpoint
pub record Event : Type 0 where
  pub timestamp : String
  pub event_type : String
  pub actor : String
  pub details : String
  pub anchored_at : String

module _ (lib : Library) (dumps : Payload → String) (key : String) where
  open lib use {sha256, hmac_sha256}

  -- `build_anchor`, on the payload
  unfoldable pub build_anchor : Payload → Anchor
  build_anchor p = record { payload = p; hash = sha256 (dumps p); mac = hmac_sha256 key (dumps p) }

  -- the checkpoint that `create_anchor` writes after `previous`
  unfoldable pub next_anchor : Ledger → String → Option Anchor → Anchor
  unfolding build_anchor
  next_anchor rows now previous = build_anchor (record {
    anchor_seq = elim previous [ none ↦ 1 | some a ↦ a.payload.anchor_seq + 1 ];
    audit_seq = head_seq rows;
    audit_hash = head_hash rows;
    entry_count = length rows;
    created_at = now;
    prev_anchor_hash = elim previous [ none ↦ genesis_hash | some a ↦ a.hash ];
  })

  -- whether the head of the ledger has already been anchored
  unfoldable pub has_moved : Ledger → Option Anchor → Bool
  has_moved rows none = true
  has_moved rows (some a) = if a.payload.audit_seq == head_seq rows then false else true

  -- `create_anchor`: the log after it
  unfoldable pub create_anchor : Ledger → String → List Line → List Line
  unfolding has_moved next_anchor read_all
  create_anchor rows now lines =
      let previous = last (read_all lines).0 in
      if head_seq rows == 0
      then lines
      else if has_moved rows previous
      then lines ++ (parsed (next_anchor rows now previous) ∷ [])
      else lines

  unfoldable pub entries_since_last_anchor : Ledger → List Line → ℕ
  unfolding read_all
  entries_since_last_anchor rows lines =
      head_seq rows - elim (last (read_all lines).0) [ none ↦ 0 | some a ↦ a.payload.audit_seq ]

  -- `maybe_anchor`: an interval of zero or less is 0. Where the anchored head lies beyond the ledger,
  -- the source's difference is negative and this one is 0: both are below the interval.
  unfoldable pub maybe_anchor : ℕ → Ledger → String → List Line → List Line
  unfolding create_anchor entries_since_last_anchor
  maybe_anchor interval rows now lines =
      if interval == 0
      then lines
      else if ltb (entries_since_last_anchor rows lines) interval
      then lines
      else create_anchor rows now lines

  -- the first loop of `verify_anchors`: the failure, if there is one
  unfoldable pub check_links : String → ℕ → List Anchor → Option AnchorVerdict
  check_links prev_hash expected [] = none
  check_links prev_hash expected (a ∷ records) =
      let rest = check_links a.hash (expected + 1) records in
      if a.payload.anchor_seq == expected
      then if str_eq a.payload.prev_anchor_hash prev_hash
        then if str_eq (sha256 (dumps a.payload)) a.hash
          then if str_eq (hmac_sha256 key (dumps a.payload)) a.mac
            then rest
            else some (forged a.payload.anchor_seq)
          else some (forged a.payload.anchor_seq)
        else some (broken_anchor_chain a.payload.anchor_seq)
      else some (broken_anchor_chain expected)

  -- the rest of `verify_anchors`, on a log with records
  unfoldable pub check_ledger : Ledger → List Anchor → AnchorVerdict
  unfolding check_points highest
  check_ledger rows records =
      if ltb (head_seq rows) (highest records)
      then truncated (highest records - head_seq rows)
      else elim (check_points rows records) [
        | some v ↦ v
        | none ↦ verified (length records) (highest records)
      ]

  unfoldable pub check_records : Ledger → List Anchor × List ℕ → AnchorVerdict
  unfolding check_links check_ledger
  check_records rows (records, n ∷ bad) = malformed (n ∷ bad)
  check_records rows ([], []) = no_anchors
  check_records rows (a ∷ records, []) = elim (check_links genesis_hash 1 (a ∷ records)) [
    | some v ↦ v
    | none ↦ check_ledger rows (a ∷ records)
  ]

  unfoldable pub verify_anchors : Ledger → List Line → AnchorVerdict
  unfolding read_all check_records
  verify_anchors rows lines = check_records rows (read_all lines)

  -- `audit.append_event`: the entry, and then the checkpoint that may be due
  unfoldable pub append_event : ℕ → Ledger × List Line → Event → Ledger × List Line
  unfolding append_entry maybe_anchor
  append_event interval (rows, lines) ev =
      let rows' = append_entry lib rows ev.timestamp ev.event_type ev.actor ev.details in
      (rows', maybe_anchor interval rows' ev.anchored_at lines)

  unfoldable pub append_events : ℕ → Ledger × List Line → List Event → Ledger × List Line
  unfolding append_event
  append_events interval s [] = s
  append_events interval s (ev ∷ events) =
      append_events interval (append_event interval s ev) events
