-- ===== src/Timeutil.antt =====
-- justikey/timeutil.py: the canonical text of a time, which the rest of the program compares as text.
-- Python's `datetime` is its seven fields in UTC.
use Prim.Native.Char.{code}
use Prim.Native.String.{String, ◌++◌}
use Prim.Native.String.append
use justi_key.Common.{
  ℕ, zero, suc, ◌+◌, ◌*◌, ◌/◌, ◌%◌, ◌<◌, ◌≡◌, refl, sym, ap, ◌∙◌, Bool, true, false, List, [], ◌∷◌,
  arith, ltb, if◌then◌else◌, codes, codes_lt, codes_lt_irrefl, text_lt, is_truthy, str_eq,
  str_eq_iff, Bool-cases, inl, inr,
}
use justi_key.Common
use justi_key.Library.{digit}

pub record DateTime : Type 0 where
  pub year : ℕ
  pub month : ℕ
  pub day : ℕ
  pub hour : ℕ
  pub minute : ℕ
  pub second : ℕ
  pub microsecond : ℕ

-- `%0wd`, for a number of at most `w` digits
unfoldable pub pad : ℕ → ℕ → String
pad zero n = ""
pad (suc w) n = pad w (n / 10) ++ digit (n % 10)

-- `to_canonical`
unfoldable pub to_canonical : DateTime → String
to_canonical t =
    pad 4 t.year
    ++ ("-"
        ++ (pad 2 t.month
            ++ ("-"
                ++ (pad 2 t.day
                    ++ ("T"
                        ++ (pad 2 t.hour
                            ++ (":"
                                ++ (pad 2 t.minute
                                    ++ (":"
                                        ++ (pad 2 t.second
                                            ++ ("." ++ (pad 6 t.microsecond ++ "+00:00"))))))))))))

-- 10 to the power of `w`
abbrev pub limit : ℕ → ℕ
limit zero = 1
limit (suc w) = 10 * limit w

-- the ranges that `datetime` keeps to, as far as the text depends on them
pub record IsDateTime (t : DateTime) : Type 0 where
  pub year_lt : t.year < 10000
  pub month_lt : t.month < 100
  pub day_lt : t.day < 100
  pub hour_lt : t.hour < 100
  pub minute_lt : t.minute < 100
  pub second_lt : t.second < 100
  pub microsecond_lt : t.microsecond < 1000000

-- one field, and what decides where it is the same
abbrev pub before : ℕ → ℕ → Bool → Bool
before a b rest = if ltb a b then true else if ltb b a then false else rest

-- `a < b` on two times
abbrev pub earlier : DateTime → DateTime → Bool
earlier a b = before a.year b.year (
    before a.month b.month (
      before a.day b.day (
        before a.hour b.hour (
          before a.minute b.minute
            (before a.second b.second (before a.microsecond b.microsecond false))))))

codes-append : (s t : String) → codes (s ++ t) ≡ Common.◌++◌ (codes s) (codes t)
codes-append String.[] t = ap codes (append.nil t)
codes-append (String.◌∷◌ c s) t =
    ap codes (append.cons c s t) ∙ ap (λ xs. code c ∷ xs) (codes-append s t)

codes-digit : (d : ℕ) → d < 10 → codes (digit d) ≡ (48 + d) ∷ []
codes-digit zero h = refl
codes-digit (suc zero) h = refl
codes-digit (suc (suc zero)) h = refl
codes-digit (suc (suc (suc zero))) h = refl
codes-digit (suc (suc (suc (suc zero)))) h = refl
codes-digit (suc (suc (suc (suc (suc zero))))) h = refl
codes-digit (suc (suc (suc (suc (suc (suc zero)))))) h = refl
codes-digit (suc (suc (suc (suc (suc (suc (suc zero))))))) h = refl
codes-digit (suc (suc (suc (suc (suc (suc (suc (suc zero)))))))) h = refl
codes-digit (suc (suc (suc (suc (suc (suc (suc (suc (suc zero))))))))) h = refl
codes-digit (suc (suc (suc (suc (suc (suc (suc (suc (suc (suc d)))))))))) h =
    absurd (omega (arith, h))

append_assoc :
    (xs ys zs : List ℕ) → Common.◌++◌ (Common.◌++◌ xs ys) zs ≡ Common.◌++◌ xs (Common.◌++◌ ys zs)
append_assoc [] ys zs = refl
append_assoc (x ∷ xs) ys zs = ap (λ t. x ∷ t) (append_assoc xs ys zs)

digit_code :
    (w n : ℕ) (xs : List ℕ)
    → Common.◌++◌ (codes (pad w (n / 10) ++ digit (n % 10))) xs
      ≡ Common.◌++◌ (codes (pad w (n / 10))) ((48 + n % 10) ∷ xs)
digit_code w n xs =
    ap (λ t. Common.◌++◌ t xs) (codes-append (pad w (n / 10)) (digit (n % 10)))
    ∙ append_assoc (codes (pad w (n / 10))) (codes (digit (n % 10))) xs
    ∙ ap (λ t. Common.◌++◌ (codes (pad w (n / 10))) (Common.◌++◌ t xs))
        (codes-digit (n % 10) (omega arith))

-- Two numbers of at most `w` digits compare as their texts, whatever follows.
codes_lt-pad :
    (w a b : ℕ) (xs ys : List ℕ)
    → a < limit w
    → b < limit w
    → codes_lt (Common.◌++◌ (codes (pad w a)) xs) (Common.◌++◌ (codes (pad w b)) ys)
      ≡ before a b (codes_lt xs ys)
unfolding pad
codes_lt-pad zero a b xs ys ha hb = ground (arith, ha, hb)
codes_lt-pad (suc w) a b xs ys ha hb =
    let da = digit_code w a xs in
    let db = digit_code w b ys in
    let ih =
      codes_lt-pad w (a / 10) (b / 10) ((48 + a % 10) ∷ xs) ((48 + b % 10) ∷ ys) (omega (arith, ha))
        (omega (arith, hb)) in
    rw (da, db) (ih ∙ ground arith)

-- one field of a time, with the sign behind it
field_lt :
    (w a b c : ℕ) (sep s t : String) (later : Bool)
    → a < limit w
    → b < limit w
    → codes sep ≡ c ∷ []
    → codes_lt (codes s) (codes t) ≡ later
    → codes_lt (codes (pad w a ++ (sep ++ s))) (codes (pad w b ++ (sep ++ t))) ≡ before a b later
field_lt w a b c sep s t later ha hb hc rest =
    let x : codes (sep ++ s) ≡ c ∷ codes s =
      codes-append sep s ∙ ap (λ xs. Common.◌++◌ xs (codes s)) hc in
    let y : codes (sep ++ t) ≡ c ∷ codes t =
      codes-append sep t ∙ ap (λ xs. Common.◌++◌ xs (codes t)) hc in
    let step : codes_lt (c ∷ codes s) (c ∷ codes t) ≡ codes_lt (codes s) (codes t) = ground arith in
    rw (codes-append (pad w a) (sep ++ s), codes-append (pad w b) (sep ++ t), x, y)
      (codes_lt-pad w a b (c ∷ codes s) (c ∷ codes t) ha hb ∙ ap (before a b) (step ∙ rest))

last_lt :
    (w a b : ℕ) (s : String)
    → a < limit w
    → b < limit w
    → codes_lt (codes (pad w a ++ s)) (codes (pad w b ++ s)) ≡ before a b false
last_lt w a b s ha hb =
    rw (codes-append (pad w a) s, codes-append (pad w b) s)
      (codes_lt-pad w a b (codes s) (codes s) ha hb ∙ ap (before a b) (codes_lt_irrefl (codes s)))

-- The canonical texts of two times compare as texts exactly as the times do, field by field from the
-- year down to the microsecond, whatever the fields are within their ranges.
pub text_lt-to_canonical :
    (a b : DateTime)
    → IsDateTime a
    → IsDateTime b
    → text_lt (to_canonical a) (to_canonical b) ≡ earlier a b
unfolding text_lt to_canonical
text_lt-to_canonical a b ra rb =
    field_lt 4 a.year b.year 45 "-" _ _ _ (omega (arith, ra.year_lt)) (omega (arith, rb.year_lt))
      refl
      (field_lt 2 a.month b.month 45 "-" _ _ _ (omega (arith, ra.month_lt))
        (omega (arith, rb.month_lt)) refl
        (field_lt 2 a.day b.day 84 "T" _ _ _ (omega (arith, ra.day_lt)) (omega (arith, rb.day_lt))
          refl
          (field_lt 2 a.hour b.hour 58 ":" _ _ _ (omega (arith, ra.hour_lt))
            (omega (arith, rb.hour_lt)) refl
            (field_lt 2 a.minute b.minute 58 ":" _ _ _ (omega (arith, ra.minute_lt))
              (omega (arith, rb.minute_lt)) refl
              (field_lt 2 a.second b.second 46 "." _ _ _ (omega (arith, ra.second_lt))
                (omega (arith, rb.second_lt)) refl
                (last_lt 6 a.microsecond b.microsecond "+00:00" (omega (arith, ra.microsecond_lt))
                  (omega (arith, rb.microsecond_lt))))))))

-- a canonical text is not empty
pub to_canonical-is_truthy : (t : DateTime) → is_truthy (to_canonical t) ≡ true
unfolding to_canonical
to_canonical-is_truthy t = elim (Bool-cases (str_eq (to_canonical t) "")) [
  | inl empty ↦ absurd (
      not_nil (codes (pad 4 t.year)) (codes-append "-" _)
        (sym (codes-append (pad 4 t.year) _) ∙ ap codes ((str_eq_iff (to_canonical t) "").0 empty)))
  | inr other ↦ rw other refl
]
  where
    not_nil : (xs : List ℕ) {ys zs : List ℕ} {c : ℕ} → ys ≡ c ∷ zs → Common.◌++◌ xs ys ≡ [] → ⊥
    not_nil [] e h = cc
    not_nil (x ∷ xs) e h = cc

-- Python's calendar, up to a bound: the fields of a moment, given in microseconds, are in their ranges,
-- and later moments have later fields.
pub record IsCalendar (civil : ℕ → DateTime) (bound : ℕ) : Type 0 where
  pub ranges : (n : ℕ) → n < bound → IsDateTime (civil n)
  pub ordered : (m n : ℕ) → m < bound → n < bound → earlier (civil m) (civil n) ≡ ltb m n

-- canonical texts are in the order of their moments
pub text_lt-civil :
    (civil : ℕ → DateTime) (bound : ℕ) (m n : ℕ)
    → IsCalendar civil bound
    → m < bound
    → n < bound
    → text_lt (to_canonical (civil m)) (to_canonical (civil n)) ≡ ltb m n
text_lt-civil civil bound m n c hm hn =
    text_lt-to_canonical (civil m) (civil n) (c.ranges m hm) (c.ranges n hn) ∙ c.ordered m n hm hn
