-- ===== src/Tests/Registry.antt =====
-- Startups with two versions of a registry.
use justi_key.Common.{ℕ, ◌≤◌, ◌≡◌, refl, List, [], ◌∷◌, none, String, ok}
use justi_key.Registry.{Recorded, Document, wrap, digest_of, admit_registry}
use justi_key.Registry.Startups.{startups, startups_never_back}
use justi_key.Tests.Samples.{toy}

abbrev fresh : Recorded
fresh = record { version = none; digest = none }

abbrev dumps : String → String
dumps p = p

-- version 3, then an older file (refused) and the same file again
abbrev files : List (Document String)
files = wrap "old" 2 ∷ wrap "alice" 3 ∷ []

admitted : (admit_registry toy dumps fresh (wrap "alice" 3)).1 ≡ ok (3, "alice")
unfolding admit_registry
admitted = refl

admitted_later :
    (admit_registry toy dumps
      (startups toy dumps (admit_registry toy dumps fresh (wrap "alice" 3)).0 files)
      (wrap "bob" 4)).1
    ≡ ok (4, "bob")
unfolding admit_registry startups digest_of
admitted_later = refl

startups_never_back_example :
    (3 ≤ 4) × (◌≡◌ {A = ℕ} 4 3 → digest_of toy dumps "bob" ≡ digest_of toy dumps "alice")
startups_never_back_example =
    startups_never_back toy dumps fresh (wrap "alice" 3) (wrap "bob" 4) files 3 4 "alice" "bob"
      admitted admitted_later
