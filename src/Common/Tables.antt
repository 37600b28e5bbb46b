-- ===== src/Common/Tables.antt =====
-- A table with a unique text key, as an association list: SELECT, INSERT OR REPLACE and DELETE.
use Prim.Native.String.{String}
use mathlib.Core.Path.{◌≡◌, refl}
use mathlib.Core.Bool.{Bool, true}
use mathlib.Core.Option.{Option, none, some}
use mathlib.Core.List.{List, [], ◌∷◌}
use native.Mathlib.Omega.{arith}
use justi_key.Common.Tests.{if◌then◌else◌}
use justi_key.Common.Text.{str_eq, str_eq_iff}

abbrev pub Table : Type 0 → Type 0
Table V = List (String × V)

module _ {V : Type 0} where
  -- the row of a key, or none
  abbrev pub lookup : String → Table V → Option V
  lookup k [] = none
  lookup k ((j, v) ∷ t) = if str_eq j k then some v else lookup k t

  -- INSERT ... ON CONFLICT DO UPDATE
  abbrev pub upsert : String → V → Table V → Table V
  upsert k v [] = (k, v) ∷ []
  upsert k v ((j, w) ∷ t) = if str_eq j k then (k, v) ∷ t else (j, w) ∷ upsert k v t

  -- DELETE ... WHERE, keeping the rows that pass the test
  abbrev pub keep_rows : (V → Bool) → Table V → Table V
  keep_rows p [] = []
  keep_rows p ((j, v) ∷ t) = if p v then (j, v) ∷ keep_rows p t else keep_rows p t

  -- each key once: the table's PRIMARY KEY
  abbrev pub IsKeyed : Table V → Type 0
  IsKeyed [] = Unit
  IsKeyed ((j, v) ∷ t) = (lookup j t ≡ none) × IsKeyed t

  pub lookup-upsert :
      (k j : String) (v : V) (t : Table V)
      → lookup j (upsert k v t) ≡ (if str_eq k j then some v else lookup j t)
  lookup-upsert k j v [] = refl
  lookup-upsert k j v ((i, w) ∷ t) =
      ground (arith, str_eq_iff k j, str_eq_iff i k, str_eq_iff i j, lookup-upsert k j v t)

  pub upsert-IsKeyed : (k : String) (v : V) (t : Table V) → IsKeyed t → IsKeyed (upsert k v t)
  upsert-IsKeyed k v [] h = (refl, tt)
  upsert-IsKeyed k v ((j, w) ∷ t) h =
      ground (arith, str_eq_iff j k, str_eq_iff k j, upsert-IsKeyed k v t, lookup-upsert k j v t)

  pub lookup-keep_none :
      (p : V → Bool) (k : String) (t : Table V)
      → lookup k t ≡ none
      → lookup k (keep_rows p t) ≡ none
  lookup-keep_none p k [] h = refl
  lookup-keep_none p k ((j, v) ∷ t) h = ground (arith, lookup-keep_none p k t)

  -- a row that passes the test stays
  pub lookup-keep_some :
      (p : V → Bool) (k : String) (v : V) (t : Table V)
      → lookup k t ≡ some v
      → p v ≡ true
      → lookup k (keep_rows p t) ≡ some v
  lookup-keep_some p k v [] h q = cc
  lookup-keep_some p k v ((j, w) ∷ t) h q = ground (arith, lookup-keep_some p k v t)

  -- a row that is found after the deletion was there before, and passes
  pub lookup-keep_inv :
      (p : V → Bool) (k : String) (v : V) (t : Table V)
      → IsKeyed t
      → lookup k (keep_rows p t) ≡ some v
      → (lookup k t ≡ some v) × (p v ≡ true)
  lookup-keep_inv p k v [] u h = cc
  lookup-keep_inv p k v ((j, w) ∷ t) u h =
      ground (arith, str_eq_iff j k, lookup-keep_inv p k v t, lookup-keep_none p j t)
