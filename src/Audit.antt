-- ===== src/Audit.antt =====
-- justikey/audit.py: the hash-chained ledger. The table `audit_log` is its rows in the order of their
-- sequence numbers, which is how every query reads it. A transaction is one step: BEGIN IMMEDIATE
-- lets no other append in between. `append_event`'s call of `maybe_anchor` stands in Anchor.
pub mod Chain
pub mod Append
pub mod Tamper
use Prim.Native.String.{◌++◌}
use justi_key.Common.{
  ℕ, ◌+◌, Bool, true, false, String, List, [], ◌∷◌, ◌++◌ as append, Option, none, some, str_eq,
  ◌==◌, if◌then◌else◌, length,
}
use justi_key.Library.{Library, decimal}

-- a row of `audit_log`
pub record Entry : Type 0 where
  pub seq : ℕ
  pub timestamp : String
  pub event_type : String
  pub actor : String
  pub details : String
  pub prev_hash : String
  pub hash : String

abbrev pub Ledger : Type 0
Ledger = List Entry

-- "0" * 64
abbrev pub genesis_hash : String
genesis_hash = "0000000000000000000000000000000000000000000000000000000000000000"

-- the row of `ORDER BY seq DESC LIMIT 1`
unfoldable pub last : {A : Type 0} → List A → Option A
last [] = none
last (x ∷ []) = some x
last (x ∷ y ∷ xs) = last (y ∷ xs)

-- what `verify_chain` returns
pub data Verdict : Type 0 where
  intact : ℕ → Verdict
  gap unlinked altered : ℕ → Verdict

-- the text that `_entry_hash` hashes
unfoldable pub entry_payload : ℕ → String → String → String → String → String → String
entry_payload seq timestamp event_type actor details prev_hash =
    (decimal seq
      ++ ("|" ++ (timestamp ++ ("|" ++ (event_type ++ ("|" ++ (actor ++ ("|" ++ details))))))))
    ++ ("|" ++ prev_hash)

abbrev pub payload_of : Entry → String
payload_of e = entry_payload e.seq e.timestamp e.event_type e.actor e.details e.prev_hash

-- the sequence number and the hash of the ledger's head
unfoldable pub head_seq : Ledger → ℕ
head_seq rows = elim (last rows) [ none ↦ 0 | some e ↦ e.seq ]

unfoldable pub head_hash : Ledger → String
head_hash rows = elim (last rows) [ none ↦ genesis_hash | some e ↦ e.hash ]

module _ (lib : Library) where
  open lib use {sha256}

  -- `_entry_hash`
  abbrev pub entry_hash : Entry → String
  entry_hash e = sha256 (payload_of e)

  -- the row that an append writes
  unfoldable pub next_entry : Ledger → String → String → String → String → Entry
  next_entry rows now event_type actor details =
      let seq = head_seq rows + 1 in
      let prev_hash = head_hash rows in
      record {
        seq = seq;
        timestamp = now;
        event_type = event_type;
        actor = actor;
        details = details;
        prev_hash = prev_hash;
        hash = sha256 (entry_payload seq now event_type actor details prev_hash);
      }

  -- the transaction of `append_event`, on the time and the JSON of the details
  unfoldable pub append_entry : Ledger → String → String → String → String → Ledger
  append_entry rows now event_type actor details =
      append rows (next_entry rows now event_type actor details ∷ [])

  -- the loop of `verify_chain`, with the number of rows that it answers at the end
  unfoldable pub verify_from : ℕ → String → ℕ → Ledger → Verdict
  verify_from total expected_prev expected_seq [] = intact total
  verify_from total expected_prev expected_seq (e ∷ rows) =
      let rest = verify_from total e.hash (expected_seq + 1) rows in
      if e.seq == expected_seq
      then if str_eq e.prev_hash expected_prev
        then if str_eq (entry_hash e) e.hash then rest else altered e.seq
        else unlinked e.seq
      else gap e.seq

  unfoldable pub verify_chain : Ledger → Verdict
  unfolding verify_from
  verify_chain rows = verify_from (length rows) genesis_hash 1 rows
