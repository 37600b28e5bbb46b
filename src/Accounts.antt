-- ===== src/Accounts.antt =====
-- Signing in (justikey/models.py): sessions, TOTP codes that are used once, and the lock after failed
-- attempts. Moments are microseconds, and `civil` is Python's calendar; a stored time is the canonical text.
pub mod Sessions
pub mod Lockout
use justi_key.Common.{
  ℕ, zero, suc, ◌+◌, ◌-◌, ◌*◌, ◌/◌, ◌≤◌, Bool, true, false, not, ◌&&◌, ◌||◌, String, List, [], ◌∷◌,
  Option, none, some, if◌then◌else◌, ltb, leb, ◌==◌, is_some, any, keep, str_eq, text_lt, text_le,
  Table, lookup, upsert, bind_option, get_or,
}
use justi_key.Library.{Library}
use justi_key.Statements.{has_text, text_of, opt_str_eq}
use justi_key.Timeutil.{DateTime, to_canonical}

pub data SessionKind : Type 0 where
  pending full : SessionKind

pub record Session : Type 0 where
  pub user_id : ℕ
  pub csrf_token : String
  pub kind : SessionKind
  pub created_at : String
  pub expires_at : String

pub record UsedTotp : Type 0 where
  pub user_id : ℕ
  pub counter : ℕ
  pub purpose : String

pub record LoginFailures : Type 0 where
  pub failures : ℕ
  pub locked_until : Option String

abbrev pub same_kind : SessionKind → SessionKind → Bool
same_kind pending pending = true
same_kind full full = true
same_kind _ _ = false

-- DELETE FROM sessions WHERE token_hash = ?
unfoldable pub delete_row : String → Table Session → Table Session
delete_row hash [] = []
delete_row hash ((h, row) ∷ rows) =
    if str_eq h hash then delete_row hash rows else (h, row) ∷ delete_row hash rows

unfoldable pub purge_rows : String → Table Session → Table Session
purge_rows now [] = []
purge_rows now ((h, row) ∷ rows) =
    if text_le row.expires_at now then purge_rows now rows else (h, row) ∷ purge_rows now rows

module _ (lib : Library) (civil : ℕ → DateTime) where
  open lib use {sha256, parse_dt}

  -- `_create_session` at a moment, with the two tokens that it draws and a lifetime in microseconds
  unfoldable pub create_session :
      Table Session → ℕ → ℕ → String → String → ℕ → SessionKind → Table Session
  create_session rows now lifetime token csrf user kind =
      (
        sha256 token,
        record {
          user_id = user;
          csrf_token = csrf;
          kind = kind;
          created_at = to_canonical (civil now);
          expires_at = to_canonical (civil (now + lifetime));
        },
      )
      ∷ rows

  unfoldable pub create_pending_session :
      Table Session → ℕ → ℕ → String → String → ℕ → Table Session
  unfolding create_session
  create_pending_session rows now lifetime token csrf user =
      create_session rows now lifetime token csrf user pending

  -- `purge_expired_sessions`
  unfoldable pub purge_expired_sessions : Table Session → ℕ → Table Session
  unfolding purge_rows
  purge_expired_sessions rows now = purge_rows (to_canonical (civil now)) rows

  -- `create_full_session`, which reads the clock twice
  unfoldable pub create_full_session :
      Table Session → ℕ → ℕ → ℕ → String → String → ℕ → Table Session
  unfolding create_session purge_expired_sessions
  create_full_session rows purged_at now lifetime token csrf user =
      create_session (purge_expired_sessions rows purged_at) now lifetime token csrf user full

  -- `get_session`: a session that has expired is deleted
  unfoldable pub get_session :
      Table Session → ℕ → Option String → Option SessionKind → Table Session × Option Session
  unfolding delete_row
  get_session rows now token kind =
      if not (has_text token) then (rows, none) else elim (lookup (sha256 (text_of token)) rows) [
        | none ↦ (rows, none)
        | some row ↦
            if text_le row.expires_at (to_canonical (civil now))
            then (delete_row (sha256 (text_of token)) rows, none)
            else if is_some kind && not (same_kind row.kind (get_or kind row.kind))
            then (rows, none)
            else (rows, some row)
      ]

  -- `delete_session`
  unfoldable pub delete_session : Table Session → Option String → Table Session
  unfolding delete_row
  delete_session rows token =
      if has_text token then delete_row (sha256 (text_of token)) rows else rows

  -- `login_lock_remaining`, in whole seconds; the stored text was written by `record_login_failure`
  unfoldable pub login_lock_remaining : Table LoginFailures → ℕ → String → Option ℕ
  login_lock_remaining rows now username =
      elim (bind_option (lookup username rows) (λ r. r.locked_until)) [
        | none ↦ some 0
        | some until ↦
            if has_text (some until)
            then bind_option (parse_dt until) (λ end. some ((end - now) / 1000000))
            else some 0
      ]

  -- `record_login_failure` at a moment: the failures, and for how long the account is locked
  unfoldable pub record_login_failure :
      ℕ → ℕ → Table LoginFailures → ℕ → String → Table LoginFailures × ℕ × ℕ
  record_login_failure most lockout rows now username =
      let failures = suc (get_or (bind_option (lookup username rows) (λ r. some r.failures)) 0) in
      let locks = ltb 0 most && leb most failures in
      (
        upsert username
            (record {
              failures = failures;
              locked_until =
                  if locks then some (to_canonical (civil (now + lockout * 1000000))) else none;
            })
            rows,
        failures,
        if locks then lockout else 0,
      )

  -- `clear_login_failures`
  unfoldable pub clear_login_failures : Table LoginFailures → String → Table LoginFailures
  clear_login_failures [] username = []
  clear_login_failures ((u, row) ∷ rows) username =
      let rest = clear_login_failures rows username in
      if str_eq u username then rest else (u, row) ∷ rest

  -- `match_totp_counter` of a code of digits: the step whose code it is, among the one before, this one and
  -- the next; `hotp` is the code of a step
  unfoldable pub match_counter : (ℕ → String) → ℕ → String → Option ℕ
  match_counter hotp counter code =
      if str_eq (hotp (counter - 1)) code
      then some (counter - 1)
      else if str_eq (hotp counter) code
      then some counter
      else if str_eq (hotp (counter + 1)) code
      then some (counter + 1)
      else none

  -- `consume_totp` with the step that the code matches: INSERT OR IGNORE on (user, counter, purpose)
  unfoldable pub consume_totp : List UsedTotp → ℕ → String → Option ℕ → List UsedTotp × Bool
  consume_totp rows user purpose none = (rows, false)
  consume_totp rows user purpose (some counter) =
      if any (λ r. (r.user_id == user) && (r.counter == counter) && str_eq r.purpose purpose) rows
      then (rows, false)
      else (record { user_id = user; counter = counter; purpose = purpose } ∷ rows, true)
