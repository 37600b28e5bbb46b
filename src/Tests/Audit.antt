-- ===== src/Tests/Audit.antt =====
-- Ledgers, checkpoints and the witness, on small inputs.
use Prim.Native.String.{◌++◌ as glue}
use justi_key.Common.{
  ℕ, ◌≡◌, ◌≢◌, refl, ◌↔◌, String, List, [], ◌∷◌, ◌++◌, map, length, take, arith, ◌≤◌, ◌<◌, ◌+◌, ◌⊎◌,
}
use justi_key.Library.{Library, decimal}
use justi_key.Audit.{
  Entry, Ledger, genesis_hash, intact, entry_payload, last, head_seq, head_hash, next_entry,
  append_entry, verify_chain,
}
use justi_key.Audit.Chain.{IsChain, verify_chain_iff}
use justi_key.Audit.Tamper.{joined, Collide, verify_chain_payloads, verify_chain_shift}
use justi_key.Anchor.{
  Payload, Anchor, Line, Event, append_events, truncated, verified, no_anchors, verify_anchors,
  entries_since_last_anchor, read_all, highest,
}
use justi_key.Anchor.Truncation.{append_events_verify, truncation_reported}
use justi_key.Witness.{record_anchor, submit, conflict, recorded}
use justi_key.Witness
use justi_key.Tests.Samples.{toy}

-- digests that are the text itself
abbrev plain : Library
plain = record toy { sha256 = λ s. s }

abbrev ledger : Ledger
unfolding decimal
ledger =
    append_entry plain (append_entry plain [] "t1" "login" "alice" "{}") "t2" "logout" "alice" "{}"

ledger-intact : verify_chain plain ledger ≡ intact 2
unfolding verify_chain append_entry next_entry head_seq head_hash last entry_payload decimal
ledger-intact = refl

verify_chain_iff_example :
    (verify_chain plain ledger ≡ intact 2)
    ↔ ((2 ≡ length ledger) × IsChain plain genesis_hash 1 ledger)
verify_chain_iff_example = verify_chain_iff plain ledger 2

-- one row, with the actor and the details divided in two ways
abbrev divided : Ledger
unfolding decimal
divided = append_entry plain [] "t1" "login" "a|b" "{}"

abbrev redivided : Ledger
redivided =
    record {
      seq = 1;
      timestamp = "t1";
      event_type = "login";
      actor = "a";
      details = "b|{}";
      prev_hash = genesis_hash;
      hash = entry_payload 1 "t1" "login" "a" "b|{}" genesis_hash;
    }
    ∷ []

divided-intact : verify_chain plain divided ≡ intact 1
unfolding verify_chain append_entry next_entry head_seq head_hash last entry_payload decimal
divided-intact = refl

redivided-intact : verify_chain plain redivided ≡ intact 1
unfolding verify_chain entry_payload decimal
redivided-intact = refl

verify_chain_payloads_example :
    (map joined divided ≡ map joined redivided) ⊎ Collide (λ s. s) divided redivided
unfolding append_entry next_entry head_seq head_hash last entry_payload decimal
verify_chain_payloads_example =
    verify_chain_payloads plain divided redivided 1 1 divided-intact redivided-intact refl

abbrev split_entry : Entry
split_entry = record {
  seq = 1;
  timestamp = "t";
  event_type = "login";
  actor = "a|b";
  details = "{}";
  prev_hash = genesis_hash;
  hash = "h";
}

verify_chain_shift_example :
    verify_chain plain ([] ++ (split_entry ∷ []))
    ≡ verify_chain plain
        ([] ++ (record split_entry { actor = "a"; details = glue "b" (glue "|" "{}") } ∷ []))
verify_chain_shift_example = verify_chain_shift plain [] [] split_entry "a" "b" refl

abbrev dumps : Payload → String
dumps p = glue p.audit_hash p.prev_anchor_hash

abbrev event : String → Event
event t = record {
  timestamp = t;
  event_type = "login";
  actor = "alice";
  details = "{}";
  anchored_at = t;
}

abbrev events : List Event
events = event "t1" ∷ event "t2" ∷ event "t3" ∷ []

abbrev history : Ledger × List Line
history = append_events plain dumps "k" 2 ([], []) events

append_events_verify_example :
    (verify_chain plain history.0 ≡ intact 3)
    × ((verify_anchors plain dumps "k" history.0 history.1 ≡ no_anchors)
        ⊎ (verify_anchors plain dumps "k" history.0 history.1
            ≡ verified (length (read_all history.1).0) (highest (read_all history.1).0)))
    × (entries_since_last_anchor plain dumps "k" history.0 history.1 < 2)
append_events_verify_example = append_events_verify plain dumps "k" 2 events (omega arith)

truncation_reported_example :
    (missing : ℕ) × (verify_anchors plain dumps "k" (take 1 history.0) history.1
      ≡ truncated missing)
    × (1 + missing ≤ 3)
    × (3 < 1 + missing + 2)
truncation_reported_example =
    truncation_reported plain dumps "k" 2 events 1 (omega arith) (omega arith)

abbrev checkpoint : String → Anchor
checkpoint h = record {
  payload = record {
    anchor_seq = 1;
    audit_seq = 4;
    audit_hash = "x";
    entry_count = 4;
    created_at = "t";
    prev_anchor_hash = genesis_hash;
  };
  hash = h;
  mac = "m";
}

checkpoint_taken : (record_anchor [] (checkpoint "h")).1 ≢ conflict
unfolding record_anchor Witness.by_seq
checkpoint_taken h = cc

submit_no_rewrite_example :
    record_anchor
      (submit (record_anchor [] (checkpoint "h")).0 (checkpoint "h" ∷ []))
      (checkpoint "forged")
    ≡ (submit (record_anchor [] (checkpoint "h")).0 (checkpoint "h" ∷ []), conflict)
submit_no_rewrite_example =
    Witness.submit_no_rewrite [] (checkpoint "h" ∷ []) (checkpoint "h") (checkpoint "forged")
      checkpoint_taken refl
