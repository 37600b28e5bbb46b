-- ===== src/Accounts/Lockout.antt =====
-- The lock after failed sign-ins, and the single use of TOTP codes (justikey/models.py).
use justi_key.Common.{
  ℕ, suc, ◌+◌, ◌-◌, ◌*◌, ◌/◌, ◌≡◌, refl, Bool, true, false, ◌&&◌, String, List, [], ◌∷◌, Option,
  none, some, arith, if◌then◌else◌, ltb, leb, ◌==◌, Bool-cases, inl, inr, Table, lookup,
  lookup-upsert, str_eq, str_eq_refl, bind_option, get_or, any, length,
}
use justi_key.Library.{Library}
use justi_key.Timeutil.{DateTime, to_canonical, to_canonical-is_truthy}
use justi_key.Accounts.{
  LoginFailures, UsedTotp, login_lock_remaining, record_login_failure, consume_totp,
}

module _ (lib : Library) (civil : ℕ → DateTime) (most lockout : ℕ) where
  -- the failures on record
  abbrev pub failures_of : Table LoginFailures → String → ℕ
  failures_of rows username = get_or (bind_option (lookup username rows) (λ r. some r.failures)) 0

  -- failed attempts, one after another
  unfoldable pub fail_all : Table LoginFailures → String → List ℕ → Table LoginFailures
  fail_all rows username [] = rows
  fail_all rows username (now ∷ later) =
      fail_all (record_login_failure lib civil most lockout rows now username).0 username later

  failures_record :
      (rows : Table LoginFailures) (now : ℕ) (username : String)
      → failures_of (record_login_failure lib civil most lockout rows now username).0 username
        ≡ suc (failures_of rows username)
  unfolding record_login_failure
  failures_record rows now username =
      rw (lookup-upsert username username _ rows) (rw (str_eq_refl username) refl)

  -- the row that a failure writes
  row_record :
      (rows : Table LoginFailures) (now : ℕ) (username : String)
      → lookup username (record_login_failure lib civil most lockout rows now username).0
        ≡ some (record {
          failures = suc (failures_of rows username);
          locked_until =
              if ltb 0 most && leb most (suc (failures_of rows username))
              then some (to_canonical (civil (now + lockout * 1000000)))
              else none;
        })
  unfolding record_login_failure
  row_record rows now username =
      rw (lookup-upsert username username _ rows) (rw (str_eq_refl username) refl)

  failures_all :
      (moments : List ℕ) (rows : Table LoginFailures) (username : String)
      → failures_of (fail_all rows username moments) username
        ≡ failures_of rows username + length moments
  unfolding fail_all
  failures_all [] rows username = omega arith
  failures_all (now ∷ later) rows username =
      let ih =
        failures_all later (record_login_failure lib civil most lockout rows now username).0
          username in
      omega (arith, ih, failures_record rows now username)

  -- After any sequence of failed attempts and one more at `last`, the account is locked exactly if a limit
  -- is set and the failures on record, those before and all of these, have reached it; the seconds that
  -- remain at a moment are those from then until `lockout` seconds after `last`, and none once they are over.
  pub login_lock_remaining-fail_all :
      (rows : Table LoginFailures) (username : String) (moments : List ℕ) (last now : ℕ)
      → lib.parse_dt (to_canonical (civil (last + lockout * 1000000)))
        ≡ some (last + lockout * 1000000)
      → login_lock_remaining lib civil
          (record_login_failure lib civil most lockout
            (fail_all rows username moments)
            last
            username).0
          now
          username
        ≡ some (
            if ltb 0 most && leb most (suc (failures_of rows username + length moments))
            then (last + lockout * 1000000 - now) / 1000000
            else 0)
  unfolding login_lock_remaining
  login_lock_remaining-fail_all rows username moments last now parsed =
      rw (login_lock_remaining, row_record (fail_all rows username moments) last username)
        (rw (failures_all moments rows username)
          (elim (Bool-cases
            (ltb 0 most && leb most (suc (failures_of rows username + length moments)))) [
              | inl locks ↦
                  rw locks (
                    rw (to_canonical-is_truthy (civil (last + lockout * 1000000))) (rw parsed refl))
              | inr free ↦ rw free refl
            ]))

-- one attempt with a code: the user, the purpose and the step that the code matches
pub record Attempt : Type 0 where
  pub user : ℕ
  pub purpose : String
  pub counter : Option ℕ

module _ (lib : Library) (civil : ℕ → DateTime) where
  unfoldable pub attempt_all : List UsedTotp → List Attempt → List UsedTotp
  attempt_all rows [] = rows
  attempt_all rows (a ∷ later) =
      attempt_all (consume_totp lib civil rows a.user a.purpose a.counter).0 later

  abbrev is_used : List UsedTotp → ℕ → ℕ → String → Bool
  is_used rows user counter purpose =
      any (λ r. (r.user_id == user) && (r.counter == counter) && str_eq r.purpose purpose) rows

  used_step :
      (rows : List UsedTotp) (u : ℕ) (p : String) (step : Option ℕ) (user counter : ℕ)
      (purpose : String)
      → is_used rows user counter purpose ≡ true
      → is_used (consume_totp lib civil rows u p step).0 user counter purpose ≡ true
  unfolding consume_totp
  used_step rows u p none user counter purpose h = h
  used_step rows u p (some c) user counter purpose h = elim (Bool-cases (is_used rows u c p)) [
    | inl old ↦ rw old h
    | inr new ↦ rw new (ground (arith, h))
  ]

  consume-used :
      (rows : List UsedTotp) (a : Attempt) (user counter : ℕ) (purpose : String)
      → is_used rows user counter purpose ≡ true
      → is_used (consume_totp lib civil rows a.user a.purpose a.counter).0 user counter purpose
        ≡ true
  unfolding consume_totp
  consume-used rows a user counter purpose h =
      used_step rows a.user a.purpose a.counter user counter purpose h

  attempts-used :
      (later : List Attempt) (rows : List UsedTotp) (user counter : ℕ) (purpose : String)
      → is_used rows user counter purpose ≡ true
      → is_used (attempt_all rows later) user counter purpose ≡ true
  unfolding attempt_all
  attempts-used [] rows user counter purpose h = h
  attempts-used (a ∷ later) rows user counter purpose h =
      attempts-used later (consume_totp lib civil rows a.user a.purpose a.counter).0 user counter
        purpose (consume-used rows a user counter purpose h)

  consumed :
      (rows : List UsedTotp) (user counter : ℕ) (purpose : String)
      → is_used (consume_totp lib civil rows user purpose (some counter)).0 user counter purpose
        ≡ true
  unfolding consume_totp
  consumed rows user counter purpose = elim (Bool-cases (is_used rows user counter purpose)) [
    | inl old ↦ rw old old
    | inr new ↦ rw new (ground (arith, str_eq_refl purpose))
  ]

  -- A TOTP code is used once. After one attempt with the code of a step, by a user and for a purpose, and
  -- whatever attempts follow, a further attempt of that user with the code of that step for that purpose
  -- fails and changes nothing.
  pub consume_totp_once :
      (rows : List UsedTotp) (user counter : ℕ) (purpose : String) (later : List Attempt)
      → consume_totp lib civil
          (attempt_all (consume_totp lib civil rows user purpose (some counter)).0 later)
          user
          purpose
          (some counter)
        ≡ (attempt_all (consume_totp lib civil rows user purpose (some counter)).0 later, false)
  consume_totp_once rows user counter purpose later =
      refused (attempt_all (consume_totp lib civil rows user purpose (some counter)).0 later) user
        counter purpose
        (attempts-used later (consume_totp lib civil rows user purpose (some counter)).0 user
          counter purpose (consumed rows user counter purpose))
    where
      refused :
          (rows : List UsedTotp) (user counter : ℕ) (purpose : String)
          → is_used rows user counter purpose ≡ true
          → consume_totp lib civil rows user purpose (some counter) ≡ (rows, false)
      refused rows user counter purpose h = unfold consume_totp in rw h refl
