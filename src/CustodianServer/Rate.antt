-- ===== src/CustodianServer/Rate.antt =====
-- The limit on scope tokens: `_rate_ok` of scripts/custodian_server.py over a whole run.
use justi_key.Common.{
  ℕ, suc, ◌+◌, ◌-◌, ◌≤◌, ◌<◌, ◌≡◌, refl, true, false, List, [], ◌∷◌, ◌++◌, arith, if◌then◌else◌,
  ltb, leb, ◌==◌, length, length-append, Bool-cases, inl, inr,
}
use justi_key.CustodianServer.{recent, rate_ok}

-- the calls that are granted, one after another, at the moments of the list
unfoldable pub granted : ℕ → List ℕ → List ℕ → List ℕ
granted limit calls [] = []
granted limit calls (now ∷ later) =
    let rest = granted limit (rate_ok limit now calls).0 later in
    if (rate_ok limit now calls).1 then now ∷ rest else rest

-- the moments of a run, none before the one that precedes it
abbrev pub IsOrdered : ℕ → List ℕ → Type 0
IsOrdered since [] = Unit
IsOrdered since (now ∷ later) = (since ≤ now) × IsOrdered now later

-- how many of the moments lie within 60 seconds after `start`
abbrev pub within : ℕ → List ℕ → ℕ
within start [] = 0
within start (now ∷ later) =
    if leb start now
    then (if leb now (start + 60000000) then suc (within start later) else within start later)
    else within start later

length-recent : (now : ℕ) (calls : List ℕ) → length (recent now calls) ≤ length calls
unfolding recent
length-recent now [] = omega arith
length-recent now (call ∷ calls) = ground (arith, length-recent now calls)

-- what was counted within the span from `start` is still in the bucket, up to its end
within-recent :
    (start now : ℕ) (calls : List ℕ)
    → now ≤ start + 60000000
    → within start (recent now calls) ≡ within start calls
unfolding recent
within-recent start now [] h = refl
within-recent start now (call ∷ calls) h = elim (Bool-cases (ltb 60000000 (now - call))) [
  | inl old ↦
      let before : leb start call ≡ false = ground (arith, old, h) in
      rw (old, before) (within-recent start now calls h)
  | inr young ↦ rw young refl
]

within-append :
    (start : ℕ) (xs : List ℕ) (now : ℕ)
    → within start (xs ++ now ∷ []) ≡ within start xs + within start (now ∷ [])
within-append start [] now = omega arith
within-append start (x ∷ xs) now = ground (arith, within-append start xs now)

within-le : (start : ℕ) (calls : List ℕ) → within start calls ≤ length calls
within-le start [] = omega arith
within-le start (x ∷ xs) = ground (arith, within-le start xs)

-- after the end of the span nothing more counts
within-late :
    (start since : ℕ) (moments : List ℕ)
    → start + 60000000 < since
    → IsOrdered since moments
    → within start moments ≡ 0
within-late start since [] h o = refl
within-late start since (now ∷ later) h o =
    ground (arith, h, o.0, within-late start now later (omega (arith, h, o.0)) o.1)

granted-late :
    (limit start since : ℕ) (calls moments : List ℕ)
    → start + 60000000 < since
    → IsOrdered since moments
    → within start (granted limit calls moments) ≡ 0
unfolding granted
granted-late limit start since calls [] h o = refl
granted-late limit start since calls (now ∷ later) h o =
    let ih =
      granted-late limit start now (rate_ok limit now calls).0 later (omega (arith, h, o.0)) o.1 in
    let after : leb now (start + 60000000) ≡ false = ground (arith, h, o.0) in
    elim (Bool-cases (rate_ok limit now calls).1) [
      | inl passed ↦ rw (passed, after) (ground (arith, ih))
      | inr refused ↦ rw refused ih
    ]

-- what one call leaves, where a limit is set
rate_ok-full :
    (limit now : ℕ) (calls : List ℕ)
    → 0 < limit
    → leb limit (length (recent now calls)) ≡ true
    → rate_ok limit now calls ≡ (recent now calls, false)
unfolding rate_ok
rate_ok-full limit now calls set full =
    let positive : (limit == 0) ≡ false = ground (arith, set) in rw (positive, full) refl

rate_ok-room :
    (limit now : ℕ) (calls : List ℕ)
    → 0 < limit
    → leb limit (length (recent now calls)) ≡ false
    → rate_ok limit now calls ≡ (recent now calls ++ now ∷ [], true)
unfolding rate_ok
rate_ok-room limit now calls set room =
    let positive : (limit == 0) ≡ false = ground (arith, set) in rw (positive, room) refl

granted-le :
    (limit start : ℕ) (calls : List ℕ) (since : ℕ) (moments : List ℕ)
    → 0 < limit
    → length calls ≤ limit
    → IsOrdered since moments
    → within start calls + within start (granted limit calls moments) ≤ limit
unfolding granted
granted-le limit start calls since [] set fits o = omega (arith, fits, within-le start calls)
granted-le limit start calls since (now ∷ later) set fits o =
    elim (Bool-cases (leb now (start + 60000000))) [
      | inr after ↦
          let none_later =
            granted-late limit start now calls (now ∷ later) (ground (arith, after))
              (omega arith, o.1) in
          omega (arith, none_later, within-le start calls, fits)
      | inl inside ↦ elim (Bool-cases (leb limit (length (recent now calls)))) [
        | inl full ↦
            let ih =
              granted-le limit start (recent now calls) now later set
                (omega (arith, fits, length-recent now calls)) o.1 in
            rw (rate_ok-full limit now calls set full)
              (omega (arith, ih, within-recent start now calls (ground (arith, inside))))
        | inr room ↦
            let bucket = recent now calls ++ now ∷ [] in
            let sized : length bucket ≤ limit =
              ground (arith, room, length-append (recent now calls) (now ∷ [])) in
            let ih = granted-le limit start bucket now later set sized o.1 in
            let split = within-append start (recent now calls) now in
            let same = within-recent start now calls (ground (arith, inside)) in
            rw (rate_ok-room limit now calls set room) (ground (arith, ih, split, same))
      ]
    ]

-- Within any 60 seconds the server grants at most `limit` scope tokens of a kind, where a limit is set,
-- over every run of calls whose moments are in their order, from an empty bucket.
pub rate_ok-le :
    (limit start : ℕ) (moments : List ℕ)
    → 0 < limit
    → IsOrdered 0 moments
    → within start (granted limit [] moments) ≤ limit
rate_ok-le limit start moments set ordered =
    omega (arith, granted-le limit start [] 0 moments set (omega arith) ordered)
