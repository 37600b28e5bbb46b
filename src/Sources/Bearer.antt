-- ===== src/Sources/Bearer.antt =====
-- `authenticate_source` and `revoke_source` of justikey/models.py, and what a refused signed request leaves.
use justi_key.Common.{
  ℕ, ◌≡◌, refl, sym, ap, ◌∙◌, true, false, not, ◌&&◌, String, List, [], ◌∷◌, Option, none, some,
  Result, ok, raise, arith, ◌==◌, ltb, bind_option, map_option, if◌then◌else◌, Bool-cases, inl, inr,
  >>=-eq-ok, >>-eq-ok, require, raise_if, some_or, require-true, some_or-some, any, str_eq, subst,
}
use justi_key.Statements.{has_text, text_of}
use justi_key.Library.{Library}
use justi_key.Timeutil.{DateTime}
use justi_key.Sources.{
  SourceCredential, Source, Status, active, suspended, revoked, Ingest, IngestError,
  missing_headers, unknown_source, other_mode, malformed_timestamp, outside_window,
  signature_mismatch, Cipher, SignedRequest, is_active, is_hmac, get_source, get_source_by_key,
  live_credential, set_status, revoke_source, has_nonce, claim_ingest_nonce, compute_signature,
  signing_secrets_for, check_signed, spend_nonce, authenticate_signed_source, authenticate_source,
  distance,
}

-- the row that an UPDATE by id leaves
abbrev updated : ℕ → Status → Option String → Source → Source
updated i status at r = if r.id == i then record r { status = status; revoked_at = at } else r

get_source-set_status :
    (i : ℕ) (status : Status) (at : Option String) (rows : List Source) (j : ℕ)
    → get_source (set_status i status at rows) j
      ≡ map_option (updated i status at) (get_source rows j)
unfolding get_source set_status
get_source-set_status i status at [] j = refl
get_source-set_status i status at (r ∷ rows) j = elim (Bool-cases (r.id == i)) [
  | inl here ↦ elim (Bool-cases (r.id == j)) [
    | inl found ↦ rw (here, found) (ap some (rw here refl))
    | inr other ↦ rw (here, other) (get_source-set_status i status at rows j)
  ]
  | inr there ↦ elim (Bool-cases (r.id == j)) [
    | inl found ↦ rw (there, found) (ap some (rw there refl))
    | inr other ↦ rw (there, other) (get_source-set_status i status at rows j)
  ]
]

-- a source that passes: active, and no signing source
abbrev passes : Source → Option Source
passes source =
    if is_active source.status && not (is_hmac source.auth_mode) then some source else none

-- all but one source
abbrev pub but : ℕ → Source → Option Source
but i source = if source.id == i then none else some source

passes-updated :
    (i : ℕ) (status : Status) (at : Option String) (o : Option Source)
    → is_active status ≡ false
    → bind_option (map_option (updated i status at) o) passes
      ≡ bind_option (bind_option o passes) (but i)
passes-updated i status at none h = refl
passes-updated i status at (some r) h = elim (Bool-cases (r.id == i)) [
  | inl here ↦ elim (Bool-cases (is_active r.status && not (is_hmac r.auth_mode))) [
    | inl passed ↦ rw (here, h) (rw passed (rw here refl))
    | inr stopped ↦ rw (here, h) (rw stopped refl)
  ]
  | inr there ↦ elim (Bool-cases (is_active r.status && not (is_hmac r.auth_mode))) [
    | inl passed ↦ rw there (rw passed (rw there refl))
    | inr stopped ↦ rw there (rw stopped refl)
  ]
]

of_row :
    (before after : List Source) (i : ℕ)
    → ((j : ℕ)
        → bind_option (get_source after j) passes
          ≡ bind_option (bind_option (get_source before j) passes) (but i))
    → (o : Option SourceCredential)
    → bind_option o (λ c. bind_option (get_source after c.source_id) passes)
      ≡ bind_option
          (bind_option o (λ c. bind_option (get_source before c.source_id) passes))
          (but i)
of_row before after i each none = refl
of_row before after i each (some c) = each c.source_id

module _ (lib : Library) (civil : ℕ → DateTime) where
  by_credential :
      (s t : Ingest) (i : ℕ) (key : Option String)
      → s.source_credentials ≡ t.source_credentials
      → ((j : ℕ)
          → bind_option (get_source t.sources j) passes
            ≡ bind_option (bind_option (get_source s.sources j) passes) (but i))
      → authenticate_source lib civil t key
        ≡ bind_option (authenticate_source lib civil s key) (but i)
  unfolding authenticate_source
  by_credential s t i key same each = elim (Bool-cases (has_text key)) [
    | inr empty' ↦ rw empty' refl
    | inl given ↦
        rw (given, sym same)
          (of_row s.sources t.sources i each
            (live_credential s.source_credentials (lib.sha256 (text_of key))))
  ]

  -- Revoking or suspending one source stops that source and no other: afterwards a bearer credential
  -- resolves as before, except that whatever resolved to this source resolves to nothing.
  pub authenticate_source-revoke_source :
      (s : Ingest) (now : String) (i : ℕ) (status : Status) (key : Option String)
      → is_active status ≡ false
      → authenticate_source lib civil (revoke_source s now i status) key
        ≡ bind_option (authenticate_source lib civil s key) (but i)
  unfolding revoke_source
  authenticate_source-revoke_source s now i active key h = cc
  authenticate_source-revoke_source s now i suspended key h =
      by_credential s (revoke_source s now i suspended) i key refl (λ j.
        ap (λ o. bind_option o passes) (get_source-set_status i suspended none s.sources j)
        ∙ passes-updated i suspended none (get_source s.sources j) refl)
  authenticate_source-revoke_source s now i revoked key h =
      by_credential s (revoke_source s now i revoked) i key refl (λ j.
        ap (λ o. bind_option o passes) (get_source-set_status i revoked (some now) s.sources j)
        ∙ passes-updated i revoked (some now) (get_source s.sources j) refl)

  spend_nonce-refusal :
      (window claimed_at purged_at : ℕ) (s : Ingest) (nonce : String)
      (checked : Result IngestError Source) (e : IngestError)
      → (spend_nonce lib civil window claimed_at purged_at s nonce checked).1 ≡ raise e
      → (spend_nonce lib civil window claimed_at purged_at s nonce checked).0 ≡ s
  unfolding spend_nonce claim_ingest_nonce
  spend_nonce-refusal window claimed_at purged_at s nonce (raise e') e h = refl
  spend_nonce-refusal window claimed_at purged_at s nonce (ok source) e h =
      elim (Bool-cases (has_nonce source.id nonce s.ingest_nonces)) [
        | inl old ↦ rw old refl
        | inr new ↦ absurd (ground arith)
      ]

  -- What the acceptance of a signed request establishes: the source registered under the request's key id
  -- is active and is a signing source, and the signature is the HMAC under one of its live secrets of this
  -- timestamp, nonce and body.
  pub record IsSigned (s : Ingest) (cipher : Option Cipher) (r : SignedRequest) (source : Source)
      : Type 0 where
    pub registered : get_source_by_key s.sources (text_of r.key_id) ≡ some source
    pub live : is_active source.status ≡ true
    pub signing : is_hmac source.auth_mode ≡ true
    pub secrets : List String
    pub held : signing_secrets_for lib civil s cipher source ≡ ok secrets
    pub signed :
        any
          (λ secret.
            str_eq
              (compute_signature lib civil secret (text_of r.timestamp) (text_of r.nonce) r.body)
              (text_of r.signature))
          secrets
        ≡ true

  check_signed-IsSigned :
      (window now : ℕ) (s : Ingest) (cipher : Option Cipher) (r : SignedRequest) (source : Source)
      → check_signed lib civil window now s cipher r ≡ ok source
      → IsSigned s cipher r source
  unfolding check_signed
  check_signed-IsSigned window now s cipher r source h =
      let (_, h1) =
        >>-eq-ok
          (require
            (has_text r.key_id && has_text r.timestamp && has_text r.nonce && has_text r.signature)
            missing_headers)
          _ h in
      let (found, named, h2) =
        >>=-eq-ok (some_or (get_source_by_key s.sources (text_of r.key_id)) unknown_source) _ h1 in
      let (live, h3) = >>-eq-ok (require (is_active found.status) unknown_source) _ h2 in
      let (mode, h4) = >>-eq-ok (require (is_hmac found.auth_mode) other_mode) _ h3 in
      let (sent, _, h5) =
        >>=-eq-ok (some_or (lib.parse_dt (text_of r.timestamp)) malformed_timestamp) _ h4 in
      let (_, h6) =
        >>-eq-ok (raise_if (ltb window (distance lib civil now sent)) outside_window) _ h5 in
      let (secrets, held, h7) = >>=-eq-ok (signing_secrets_for lib civil s cipher found) _ h6 in
      let matches =
        any
          (λ secret.
            str_eq
              (compute_signature lib civil secret (text_of r.timestamp) (text_of r.nonce) r.body)
              (text_of r.signature))
          secrets in
      let (matched, h8) = >>-eq-ok (require matches signature_mismatch) _ h7 in
      let same : found ≡ source = cc in
      subst (IsSigned s cipher r) same (record {
        registered =
            some_or-some (get_source_by_key s.sources (text_of r.key_id)) unknown_source found
              named;
        live = require-true (is_active found.status) unknown_source live;
        signing = require-true (is_hmac found.auth_mode) other_mode mode;
        secrets = secrets;
        held = held;
        signed = require-true matches signature_mismatch matched;
      })

  spend_nonce-source :
      (window claimed_at purged_at : ℕ) (s : Ingest) (nonce : String)
      (checked : Result IngestError Source) (source : Source)
      → (spend_nonce lib civil window claimed_at purged_at s nonce checked).1 ≡ ok source
      → (checked ≡ ok source) × (has_nonce source.id nonce s.ingest_nonces ≡ false)
  unfolding spend_nonce claim_ingest_nonce
  spend_nonce-source window claimed_at purged_at s nonce (raise e) source h = cc
  spend_nonce-source window claimed_at purged_at s nonce (ok found) source h =
      elim (Bool-cases (has_nonce found.id nonce s.ingest_nonces)) [
        | inl old ↦ absurd (ground arith)
        | inr new ↦
            let same : found ≡ source = ground arith in
            (
              ap ok same,
              subst (λ (x : Source). has_nonce x.id nonce s.ingest_nonces ≡ false) same new,
            )
      ]

  -- A signed request is accepted only for an active signing source registered under its key id, with the
  -- HMAC of its own timestamp, nonce and body under one of that source's live secrets, and a nonce that the
  -- source has not used.
  pub authenticate_signed_source-IsSigned :
      (window : ℕ) (times : ℕ × ℕ × ℕ) (s : Ingest) (cipher : Option Cipher) (r : SignedRequest)
      (source : Source)
      → (authenticate_signed_source lib civil window times s cipher r).1 ≡ ok source
      → IsSigned s cipher r source × (has_nonce source.id (text_of r.nonce) s.ingest_nonces ≡ false)
  unfolding authenticate_signed_source
  authenticate_signed_source-IsSigned window (now, claimed_at, purged_at) s cipher r source h =
      let (checked, fresh) =
        spend_nonce-source window claimed_at purged_at s (text_of r.nonce)
          (check_signed lib civil window now s cipher r) source h in
      (check_signed-IsSigned window now s cipher r source checked, fresh)

  -- A signed request that is refused, for whatever reason, leaves every table as it was, so that it cannot
  -- use up a nonce.
  pub authenticate_signed_source-refusal :
      (window : ℕ) (times : ℕ × ℕ × ℕ) (s : Ingest) (cipher : Option Cipher) (r : SignedRequest)
      (e : IngestError)
      → (authenticate_signed_source lib civil window times s cipher r).1 ≡ raise e
      → (authenticate_signed_source lib civil window times s cipher r).0 ≡ s
  unfolding authenticate_signed_source
  authenticate_signed_source-refusal window (now, claimed_at, purged_at) s cipher r e h =
      spend_nonce-refusal window claimed_at purged_at s (text_of r.nonce)
        (check_signed lib civil window now s cipher r) e h
