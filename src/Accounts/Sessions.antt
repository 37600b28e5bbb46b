-- ===== src/Accounts/Sessions.antt =====
-- How long a session of justikey/models.py lasts, and what ends it.
use justi_key.Common.{
  ℕ, ◌+◌, ◌<◌, ◌≡◌, refl, true, ◌&&◌, String, [], ◌∷◌, Option, none, some, arith, if◌then◌else◌,
  ltb, Bool-cases, inl, inr, Table, lookup, str_eq, str_eq_refl, text_lt,
}
use justi_key.Library.{Library}
use justi_key.Statements.{has_text, text_of}
use justi_key.Timeutil.{DateTime, to_canonical, IsCalendar, text_lt-civil}
use justi_key.Accounts.{
  Session, SessionKind, same_kind, delete_row, create_session, get_session, delete_session,
}

lookup-delete_row :
    (hash : String) (rows : Table Session) → lookup hash (delete_row hash rows) ≡ none
unfolding delete_row
lookup-delete_row hash [] = refl
lookup-delete_row hash ((h, row) ∷ rows) = elim (Bool-cases (str_eq h hash)) [
  | inl same ↦ rw same (lookup-delete_row hash rows)
  | inr other ↦ rw other (rw other (lookup-delete_row hash rows))
]

module _ (lib : Library) (civil : ℕ → DateTime) where
  -- the session that `_create_session` writes
  abbrev pub session_of : ℕ → ℕ → String → ℕ → SessionKind → Session
  session_of created lifetime csrf user kind = record {
    user_id = user;
    csrf_token = csrf;
    kind = kind;
    created_at = to_canonical (civil created);
    expires_at = to_canonical (civil (created + lifetime));
  }

  -- A session is answered for its token exactly until its lifetime is over, and only where a session of its
  -- own kind is asked for: the token of a sign-in that still waits for its second factor never opens a full
  -- session.
  pub get_session-create_session :
      (rows : Table Session) (created lifetime now bound : ℕ) (token csrf : String) (user : ℕ)
      (kind asked : SessionKind)
      → IsCalendar civil bound
      → created + lifetime < bound
      → now < bound
      → has_text (some token) ≡ true
      → (get_session lib civil
          (create_session lib civil rows created lifetime token csrf user kind)
          now
          (some token)
          (some asked)).1
        ≡ (if ltb now (created + lifetime) && same_kind kind asked
            then some (session_of created lifetime csrf user kind)
            else none)
  unfolding get_session create_session
  get_session-create_session rows created lifetime now bound token csrf user kind asked c he hn
        given =
      let order : text_lt (to_canonical (civil now)) (to_canonical (civil (created + lifetime)))
          ≡ ltb now (created + lifetime) =
        text_lt-civil civil bound now (created + lifetime) c hn he in
      rw (given, str_eq_refl (lib.sha256 token), order) (ground arith)

  -- After a session is deleted its token is answered with nothing, at any time and for any kind.
  pub get_session-delete_session :
      (rows : Table Session) (now : ℕ) (token : Option String) (kind : Option SessionKind)
      → (get_session lib civil (delete_session lib civil rows token) now token kind).1 ≡ none
  unfolding get_session delete_session
  get_session-delete_session rows now token kind = elim (Bool-cases (has_text token)) [
    | inl given ↦ rw given (rw (lookup-delete_row (lib.sha256 (text_of token)) rows) refl)
    | inr empty' ↦ rw empty' refl
  ]
