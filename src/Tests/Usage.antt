-- ===== src/Tests/Usage.antt =====
-- The usage store on small inputs.
use justi_key.Common.{ℕ, ◌+◌, ◌≤◌, ◌≡◌, refl, List, [], ◌∷◌, some, ◌⊎◌, arith}
use justi_key.Usage.{refused, presence_used, claim, sign_count, record_sign_count}
use justi_key.Usage.Trace.{Op, spend, purge, run, uses, used}
use justi_key.Usage.Limit.{uses-le-limit}
use justi_key.Usage.Replay.{claim_presence_once}
use justi_key.Usage.Claims.{Ends, claim-Ends, record_sign_count_rises}
use justi_key.Tests.Samples.{empty, claim_with, program}

-- three claims under a limit of two, with a purge between them
abbrev ops : List Op
ops =
    spend "2026-02-01T10:30" (claim_with "r1")
    ∷ purge "2026-02-01T10:31"
    ∷ spend "2026-02-01T10:32" (claim_with "r2")
    ∷ spend "2026-02-01T10:33" (claim_with "r3")
    ∷ []

uses-le-limit_example :
    (used "n1" empty + uses "n1" empty ops ≤ 2)
    × (used "n1" (run empty ops) ≡ used "n1" empty + uses "n1" empty ops)
unfolding program
uses-le-limit_example =
    uses-le-limit "n1" "2026-02-01T11" 2 empty ops (omega arith)
      (
        (refl, λ e. (refl, refl)),
        (refl, ((refl, λ e. (refl, refl)), ((refl, λ e. (refl, refl)), tt))),
      )
      tt

claim_presence_once_example :
    (claim
      (run (claim empty "2026-02-01T10:30" (claim_with "r1")).0 (purge "2026-02-01T10:31" ∷ []))
      "2026-02-01T10:32"
      (record (claim_with "r1") { nonce = "n2" })).1
    ≡ refused 0 presence_used
unfolding program
claim_presence_once_example =
    claim_presence_once "r1" empty "2026-02-01T10:30" "2026-02-01T10:32" (claim_with "r1")
      (record (claim_with "r1") { nonce = "n2" }) (purge "2026-02-01T10:31" ∷ []) refl refl refl
      (refl, tt) refl

claim-Ends_example :
    Ends empty "2026-02-01T10:30"
      (claim_with "r1")
      (claim empty "2026-02-01T10:30" (claim_with "r1"))
claim-Ends_example = claim-Ends empty "2026-02-01T10:30" (claim_with "r1")

record_sign_count_rises_example :
    (k : ℕ) × (sign_count (record_sign_count (record_sign_count empty "t" "c" 7) "u" "c" 3) "c"
      ≡ some k)
    × (3 ≤ k)
    × ((old : ℕ)
        → sign_count (record_sign_count empty "t" "c" 7) "c" ≡ some old
        → (old ≤ k) × ((k ≡ old) ⊎ (k ≡ 3)))
record_sign_count_rises_example =
    record_sign_count_rises (record_sign_count empty "t" "c" 7) "u" "c" 3
