-- ===== src/Registry/Startups.antt =====
-- A registry never goes back, over every sequence of startups.
use justi_key.Common.{
  some_inj, ℕ, ◌≤◌, ◌<◌, ◌≡◌, refl, sym, ap, subst, ◌∙◌, true, List, [], ◌∷◌, Option, none, some,
  String, str_eq_iff, Result, ok, raise, arith, Option-cases, inl, inr,
}
use justi_key.Library.{Library}
use justi_key.Registry.{
  RegistryError, Document, unwrap, Status, unchanged, updated, new, Recorded, digest_of,
  same_digest, check, record_status, settle_status, admit_loaded, admit_registry,
}

module _ {P : Type 0} (lib : Library) (dumps : P → String) where
  -- any files, one startup after another
  unfoldable pub startups : Recorded → List (Document P) → Recorded
  startups recorded [] = recorded
  startups recorded (file ∷ files) = startups (admit_registry lib dumps recorded file).0 files

  -- What is recorded is version `v` with digest `d`, or a later version.
  abbrev pub IsPast : ℕ → String → Recorded → Type 0
  IsPast v d recorded =
      (last : ℕ) × (recorded.version ≡ some last)
      × (v ≤ last)
      × (last ≡ v → recorded.digest ≡ some d)

  same_digest-eq : (o : Option String) (d : String) → same_digest lib dumps o d ≡ true → o ≡ some d
  same_digest-eq none d h = cc
  same_digest-eq (some e) d h = ap some (sym ((str_eq_iff d e).0 h))

  -- An admitted version is recorded, and is no older than what was.
  check-IsPast :
      (v last : ℕ) (d : String) (recorded : Recorded) (version : ℕ) (principals : P)
      (status : Status)
      → recorded.version ≡ some last
      → v ≤ last
      → (last ≡ v → recorded.digest ≡ some d)
      → check lib dumps version principals recorded ≡ ok status
      → IsPast v d (record_status lib dumps version principals recorded status)
        × (v ≤ version)
        × (version ≡ v → digest_of lib dumps principals ≡ d)
  unfolding check record_status
  check-IsPast v last d recorded version principals unchanged found le same h =
      let equal : version ≡ last = ground arith in
      let digest : same_digest lib dumps recorded.digest (digest_of lib dumps principals) ≡ true =
        ground arith in
      (
        (last, found, le, same),
        omega (arith, equal, le),
        λ e. some_inj (
            sym (same_digest-eq recorded.digest (digest_of lib dumps principals) digest)
            ∙ same (sym equal ∙ e)),
      )
  check-IsPast v last d recorded version principals updated found le same h =
      let above : last < version = ground arith in
      (
        (version, refl, omega arith, λ e. absurd (omega arith)),
        omega arith,
        λ e. absurd (omega arith),
      )
  check-IsPast v last d recorded version principals new found le same h = absurd (ground arith)

  -- What a startup leaves and admits, when `v` and `d` were recorded.
  abbrev pub Admits : ℕ → String → Recorded × Result RegistryError (ℕ × P) → Type 0
  Admits v d (recorded, result) =
      IsPast v d recorded
      × ((version : ℕ) (principals : P)
          → result ≡ ok (version, principals)
          → (v ≤ version) × (version ≡ v → digest_of lib dumps principals ≡ d))

  settle-Admits :
      (v : ℕ) (d : String) (recorded : Recorded) (version : ℕ) (principals : P)
      (r : Result RegistryError Status)
      → check lib dumps version principals recorded ≡ r
      → IsPast v d recorded
      → Admits v d (settle_status lib dumps recorded (version, principals) r)
  unfolding settle_status
  settle-Admits v d recorded version principals (raise e) h past = (past, λ w q k. cc)
  settle-Admits v d recorded version principals (ok status) h (last, found, le, same) =
      let (past, le', same') =
        check-IsPast v last d recorded version principals status found le same h in
      (past, λ w q k. admitted w q k le' same')
    where
      admitted :
          (w : ℕ) (q : P)
          → ◌≡◌ {A = Result RegistryError (ℕ × P)} (ok (version, principals)) (ok (w, q))
          → v ≤ version
          → (version ≡ v → digest_of lib dumps principals ≡ d)
          → (v ≤ w) × (w ≡ v → digest_of lib dumps q ≡ d)
      admitted w q k le' same' =
          let number' : version ≡ w = cc in
          let keys : principals ≡ q = cc in
          (
            omega (arith, number', le'),
            λ e. ap (digest_of lib dumps) (sym keys) ∙ same' (number' ∙ e),
          )

  admit-Admits :
      (v : ℕ) (d : String) (recorded : Recorded) (file : Document P)
      → IsPast v d recorded
      → Admits v d (admit_registry lib dumps recorded file)
  unfolding admit_registry
  admit-Admits v d recorded file past = loaded (unwrap file)
    where
      loaded : (m : Result RegistryError (ℕ × P)) → Admits v d (admit_loaded lib dumps recorded m)
      loaded (raise e) = unfold admit_loaded in (past, λ w q k. cc)
      loaded (ok (version, principals)) =
          unfold admit_loaded in
          settle-Admits v d recorded version principals
            (check lib dumps version principals recorded) refl past

  startups-IsPast :
      (v : ℕ) (d : String) (recorded : Recorded) (files : List (Document P))
      → IsPast v d recorded
      → IsPast v d (startups recorded files)
  unfolding startups
  startups-IsPast v d recorded [] past = past
  startups-IsPast v d recorded (file ∷ files) past =
      startups-IsPast v d (admit_registry lib dumps recorded file).0 files
        (admit-Admits v d recorded file past).0

  -- Admission leaves its version on record.
  check-recorded :
      (recorded : Recorded) (version : ℕ) (principals : P) (status : Status)
      → check lib dumps version principals recorded ≡ ok status
      → IsPast version
          (digest_of lib dumps principals)
          (record_status lib dumps version principals recorded status)
  unfolding check record_status
  check-recorded recorded version principals updated h = (version, refl, omega arith, λ e. refl)
  check-recorded recorded version principals new h = (version, refl, omega arith, λ e. refl)
  check-recorded recorded version principals unchanged h = elim (Option-cases recorded.version) [
    | inl first ↦ absurd (ground arith)
    | inr (last, found) ↦
        let equal : version ≡ last = ground arith in
        let digest : same_digest lib dumps recorded.digest (digest_of lib dumps principals) ≡ true =
          ground arith in
        (
          last,
          found,
          omega (arith, equal),
          λ e. same_digest-eq recorded.digest (digest_of lib dumps principals) digest,
        )
  ]

  settle-recorded :
      (recorded : Recorded) (version w : ℕ) (principals q : P) (r : Result RegistryError Status)
      → check lib dumps version principals recorded ≡ r
      → (settle_status lib dumps recorded (version, principals) r).1 ≡ ok (w, q)
      → IsPast w
          (digest_of lib dumps q)
          (settle_status lib dumps recorded (version, principals) r).0
  unfolding settle_status
  settle-recorded recorded version w principals q (raise e) h k = cc
  settle-recorded recorded version w principals q (ok status) h k =
      let number' : version ≡ w = cc in
      let keys : principals ≡ q = cc in
      subst
        (λ (x : ℕ × P).
          IsPast x.0 (digest_of lib dumps x.1)
            (record_status lib dumps version principals recorded status))
        (pair_eq number' keys) (check-recorded recorded version principals status h)
    where
      pair_eq : {v w : ℕ} {p q : P} → v ≡ w → p ≡ q → ◌≡◌ {A = ℕ × P} (v, p) (w, q)
      pair_eq a b = cc

  admitted-IsPast :
      (recorded : Recorded) (file : Document P) (version : ℕ) (principals : P)
      → (admit_registry lib dumps recorded file).1 ≡ ok (version, principals)
      → IsPast version (digest_of lib dumps principals) (admit_registry lib dumps recorded file).0
  unfolding admit_registry
  admitted-IsPast recorded file version principals h = loaded (unwrap file) h
    where
      loaded :
          (m : Result RegistryError (ℕ × P))
          → (admit_loaded lib dumps recorded m).1 ≡ ok (version, principals)
          → IsPast version (digest_of lib dumps principals) (admit_loaded lib dumps recorded m).0
      loaded (raise e) h = unfold admit_loaded in cc
      loaded (ok (v, p)) h =
          unfold admit_loaded in
          settle-recorded recorded v version p principals (check lib dumps v p recorded) refl h

  -- A registry never goes back. After a startup that admits a version, and any further startups with any
  -- files, a startup admits only that version or a later one; and that same version only with principals
  -- that have the same digest.
  pub startups_never_back :
      (recorded : Recorded) (file later : Document P) (files : List (Document P))
      (version version' : ℕ) (principals principals' : P)
      → (admit_registry lib dumps recorded file).1 ≡ ok (version, principals)
      → (admit_registry lib dumps
          (startups (admit_registry lib dumps recorded file).0 files)
          later).1
        ≡ ok (version', principals')
      → (version ≤ version')
        × (version' ≡ version → digest_of lib dumps principals' ≡ digest_of lib dumps principals)
  startups_never_back recorded file later files version version' principals principals' first
        again =
      let s = (admit_registry lib dumps recorded file).0 in
      let d = digest_of lib dumps principals in
      let past =
        startups-IsPast version d s files
          (admitted-IsPast recorded file version principals first) in
      (admit-Admits version d (startups s files) later past).1 version' principals' again
