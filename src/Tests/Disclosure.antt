-- ===== src/Tests/Disclosure.antt =====
-- `disclose` on the sample request.
use justi_key.Common.{
  ℕ, ◌+◌, ◌≤◌, Bool, true, arith, if◌then◌else◌, ◌≡◌, refl, ◌↔◌, String, List, [], ◌∷◌, Option,
  none, some, ok, raise, keep,
}
use justi_key.Statements.{Statement, text_of}
use justi_key.Presence.{Present}
use justi_key.Custody.{by_software}
use justi_key.Disclosure.{
  Row, Fields, Opened, Disclosed, other_requester, disclose, in_scope, blind_index, reveal,
  verify_approval,
}
use justi_key.Disclosure.Authority.{IsApproved, verify_approval_iff}
use justi_key.Disclosure.Scope.{OpensAll, reveal_agree}
use justi_key.Disclosure.Atomic.{IsAdmitted, disclose_needs, disclose_refusal_keeps}
use justi_key.Presence
use justi_key.Presence.Binding.{IsPresence, verify-IsPresence_iff}
use justi_key.Statements.{object, ed25519, software}
use justi_key.Usage.Trace.{used}
use justi_key.Disclosure.Cap.{Call, disclosures, disclosures-le-max}
use Prim.Native.String.{◌++◌}
use justi_key.Tests.Samples.{
  proof_of, toy, no_hardware, statement, rows, open_row, service, at_half_past, empty, request,
  program,
}

abbrev opened : ℕ → Opened
opened id = record { id = id; plate = some "ABC123"; location = some "kABC123" }

abbrev disclosed : Disclosed
disclosed = record {
  opened = opened 1 ∷ opened 4 ∷ [];
  use_count = some 1;
  presence = some (record { proved = by_software; requester = "alice"; request_nonce = "r1" });
}

run_request : (disclose toy no_hardware service at_half_past (some empty) request).1 ≡ ok disclosed
unfolding program
run_request = refl

disclose_needs_example :
    (st : Statement) × IsAdmitted toy no_hardware service at_half_past
      (some empty)
      request
      st
      disclosed.presence
    × (key : String) × (service.index_key ≡ some key)
    × OpensAll open_row
        (keep (in_scope (blind_index toy key (text_of st.target_plate)) st) rows)
        disclosed.opened
disclose_needs_example =
    disclose_needs toy no_hardware service at_half_past (some empty) request disclosed run_request

-- the same request for somebody else
run_stolen :
    (disclose toy no_hardware service at_half_past
      (some empty)
      (record request { requester = "mallory" })).1
    ≡ raise other_requester
unfolding program
run_stolen = refl

disclose_refusal_keeps_example :
    (disclose toy no_hardware service at_half_past
      (some empty)
      (record request { requester = "mallory" })).0
    ≡ some empty
disclose_refusal_keeps_example =
    disclose_refusal_keeps toy no_hardware service at_half_past (some empty)
      (record request { requester = "mallory" }) other_requester run_stolen tt

verify_approval_iff_example :
    (verify_approval toy service "2026-02-01T10:30" (some statement) (some "carolkeyABC123alice")
      ≡ ok "carolkey")
    ↔ ((a : IsApproved toy service "2026-02-01T10:30" (some "carolkeyABC123alice") statement)
        × (text_of a.entry.public_key ≡ "carolkey"))
verify_approval_iff_example =
    verify_approval_iff toy service "2026-02-01T10:30" statement (some "carolkeyABC123alice")
      "carolkey"

-- two openers that differ only on a row out of scope
abbrev covers : Row → Bool
covers = in_scope "kABC123" statement

abbrev open_but : Row → Option Fields
open_but r = if covers r then open_row r else none

reveal_agree_example : reveal open_row covers rows ≡ reveal open_but covers rows
reveal_agree_example = reveal_agree open_row open_but covers rows (λ r h. rw h refl)

abbrev call : String → Call
call nonce = record {
  times = at_half_past;
  request = record request {
    proof_statement = some (proof_of nonce);
    proof = object (some (ed25519 (some ("alicekey" ++ nonce))));
  };
}

abbrev calls : List Call
calls = call "r1" ∷ call "r2" ∷ call "r3" ∷ []

disclosures-le-max_example :
    used "n1" empty + disclosures toy no_hardware service "n1" "2026-02-01T11" empty calls ≤ 2
unfolding program
disclosures-le-max_example =
    disclosures-le-max toy no_hardware service "n1" "2026-02-01T11" empty calls (omega arith)
      ((refl, λ e. refl), ((refl, λ e. refl), ((refl, λ e. refl), tt))) tt

-- two of the three requests are answered
run_calls : disclosures toy no_hardware service "n1" "2026-02-01T11" empty calls ≡ 2
unfolding program disclosures
run_calls = refl

verify-IsPresence_iff_example :
    (Presence.verify toy no_hardware
        (software "alicekey")
        (some (proof_of "r1"))
        (object (some (ed25519 (some "alicekeyr1"))))
        statement
        "alice"
        "2026-02-01T10:30"
        300
        true
      ≡ ok (record { proved = by_software; requester = "alice"; request_nonce = "r1" }))
    ↔ IsPresence toy no_hardware
        (software "alicekey")
        (proof_of "r1")
        (object (some (ed25519 (some "alicekeyr1"))))
        statement
        "alice"
        "2026-02-01T10:30"
        300
        true
        (record { proved = by_software; requester = "alice"; request_nonce = "r1" })
verify-IsPresence_iff_example =
    verify-IsPresence_iff toy no_hardware (software "alicekey") (proof_of "r1")
      (object (some (ed25519 (some "alicekeyr1")))) statement "alice" "2026-02-01T10:30" 300 true
      (record { proved = by_software; requester = "alice"; request_nonce = "r1" })
