-- ===== src/Common/Text.antt =====
-- Texts. Python compares `str` by code points, and SQLite compares TEXT by its UTF-8 bytes, which
-- is the same order; both are the lexicographic order below.
use Prim.Native.Nat.{ℕ}
use Prim.Native.Char.{code}
use Prim.Native.String.{String}
use mathlib.Core.Path.{◌≡◌, refl}
use mathlib.Core.Bool.{Bool, true, false, not}
use mathlib.Core.Logic.{◌↔◌}
use mathlib.Core.List.{List, [], ◌∷◌}
use native.Mathlib.Omega.{arith}
use text.Mathlib.Text
use text.Mathlib.TextEquality
use text.Mathlib.TextPositions
use justi_key.Common.Tests.{ltb, if◌then◌else◌}

abbrev pub codes : String → List ℕ
codes String.[] = []
codes (String.◌∷◌ c s) = code c ∷ codes s

abbrev pub codes_lt : List ℕ → List ℕ → Bool
codes_lt xs [] = false
codes_lt [] (y ∷ ys) = true
codes_lt (x ∷ xs) (y ∷ ys) = if ltb x y then true else if ltb y x then false else codes_lt xs ys

-- `s < t` and `s <= t` on texts. They are shut, so that proofs go by their laws.
unfoldable pub text_lt : String → String → Bool
text_lt s t = codes_lt (codes s) (codes t)

abbrev pub text_le : String → String → Bool
text_le s t = not (text_lt t s)

-- `s == t`
abbrev pub str_eq : String → String → Bool
str_eq s t = Text.◌==◌ s t

-- the truth of a text: it is not empty
abbrev pub is_truthy : String → Bool
is_truthy s = not (str_eq s "")

pub str_eq_iff : (s t : String) → (str_eq s t ≡ true) ↔ (s ≡ t)
str_eq_iff s t = TextEquality.eq_iff s t

pub str_eq_refl : (s : String) → str_eq s s ≡ true
str_eq_refl s = TextPositions.eq_refl s

pub codes_lt_irrefl : (xs : List ℕ) → codes_lt xs xs ≡ false
codes_lt_irrefl [] = refl
codes_lt_irrefl (x ∷ xs) = ground (arith, codes_lt_irrefl xs)

pub codes_lt_trans :
    (xs ys zs : List ℕ) → codes_lt xs ys ≡ true → codes_lt ys zs ≡ true → codes_lt xs zs ≡ true
codes_lt_trans xs ys [] h k = k
codes_lt_trans xs [] (z ∷ zs) h k = cc
codes_lt_trans [] (y ∷ ys) (z ∷ zs) h k = refl
codes_lt_trans (x ∷ xs) (y ∷ ys) (z ∷ zs) h k = ground (arith, codes_lt_trans xs ys zs)

-- with `codes_lt_trans`: a strict order whose complement is transitive
pub codes_le_lt_trans :
    (xs ys zs : List ℕ) → codes_lt ys xs ≡ false → codes_lt ys zs ≡ true → codes_lt xs zs ≡ true
codes_le_lt_trans xs ys [] h k = absurd (ground arith)
codes_le_lt_trans [] ys (z ∷ zs) h k = refl
codes_le_lt_trans (x ∷ xs) [] (z ∷ zs) h k = cc
codes_le_lt_trans (x ∷ xs) (y ∷ ys) (z ∷ zs) h k = ground (arith, codes_le_lt_trans xs ys zs)

pub codes_lt_le_trans :
    (xs ys zs : List ℕ) → codes_lt xs ys ≡ true → codes_lt zs ys ≡ false → codes_lt xs zs ≡ true
codes_lt_le_trans xs [] zs h k = absurd (ground arith)
codes_lt_le_trans xs (y ∷ ys) [] h k = cc
codes_lt_le_trans [] (y ∷ ys) (z ∷ zs) h k = refl
codes_lt_le_trans (x ∷ xs) (y ∷ ys) (z ∷ zs) h k = ground (arith, codes_lt_le_trans xs ys zs)

pub text_lt_irrefl : (s : String) → text_lt s s ≡ false
unfolding text_lt
text_lt_irrefl s = codes_lt_irrefl (codes s)

pub text_lt_trans : (s t u : String) → text_lt s t ≡ true → text_lt t u ≡ true → text_lt s u ≡ true
unfolding text_lt
text_lt_trans s t u = codes_lt_trans (codes s) (codes t) (codes u)

pub text_le_lt_trans :
    (s t u : String) → text_lt t s ≡ false → text_lt t u ≡ true → text_lt s u ≡ true
unfolding text_lt
text_le_lt_trans s t u = codes_le_lt_trans (codes s) (codes t) (codes u)

pub text_lt_le_trans :
    (s t u : String) → text_lt s t ≡ true → text_lt u t ≡ false → text_lt s u ≡ true
unfolding text_lt
text_lt_le_trans s t u = codes_lt_le_trans (codes s) (codes t) (codes u)
