-- ===== src/Custodian/Software.antt =====
-- A custodian with a software key (`LocalAgreement` of justikey/custodian.py) beside `RecordOpener.open` of
-- justikey/sealing.py with the same key.
use justi_key.Common.{
  ℕ, ◌≡◌, ap, ◌∙◌, true, String, Option, none, some, arith, Result, ok, raise, ◌↔◌, ◌>>=◌,
  require-true, >>=-eq-ok, >>-eq-ok, require, map_error, some_or, Option-cases, inl, inr,
  bind_option, any, str_eq, str_eq_refl,
}
use justi_key.Library.{Library}
use justi_key.Approvals.{legacy_key_id}
use justi_key.Custody.{Authenticators}
use justi_key.Kem
use justi_key.Kem.{Bytes, Crypto, AgreeError, suite, validate_peer_public, public_bytes, agree}
use justi_key.Sealing
use justi_key.Sealing.{
  SealingError, Envelope, Json, Sighting, RecordOpener, envelope_suite, aad_for, accepts,
  open_record, open_shared,
}
use justi_key.Disclosure.{Fields}
use justi_key.Presence.{raise_some}
use justi_key.Custodian.{
  sighting_of, Custodian, CustodianError, Call, Opened, Admitted, Identity, unsealable,
  envelope_missing, suite_refused, key_not_held, unusable_point, could_not_open, no_agreement,
  check_identity, missing_column, check_envelope, derive_and_open,
}
use justi_key.Custodian.Backends.{
  LocalAgreement, accepts_key, passed_on, local_agree, local_agreement,
}

module _ (lib : Library) (crypto : Crypto) (json : Json) (web : Authenticators) where
  -- the backend with an opener's key
  abbrev pub local_of : RecordOpener → LocalAgreement
  local_of o = record {
    kem = o.kem;
    kem_suite = o.kem_suite;
    private = o.private;
    key_id = Kem.key_id crypto o.kem (public_bytes crypto o.kem_suite o.private);
    legacy_key_id = legacy_key_id lib o.public_hex;
  }

  -- a custodian that holds an opener's key
  abbrev pub holding : Custodian → RecordOpener → Custodian
  holding c o = record c { agreement = local_agreement crypto (local_of o) }

  map_error_ok :
      {A : Type 0} (r : Result SealingError A) {a : A}
      → map_error {F = CustodianError} unsealable r ≡ ok a
      → r ≡ ok a
  map_error_ok (ok x) h = let same : x ≡ _ = cc in ap ok same
  map_error_ok (raise e) h = cc

  uid_of :
      (e : Envelope)
      → raise_some envelope_missing (missing_column e) ≡ ok tt
      → (uid : String) × (e.record_uid ≡ some uid)
  unfolding missing_column
  uid_of e whole = elim (Option-cases e.record_uid) [
    | inl none' ↦ absurd (ground arith)
    | inr (uid, stated) ↦ (uid, stated)
  ]

  check_envelope_facts :
      (c : Custodian) (o : RecordOpener) (e : Envelope) (i : Identity) (name : String)
      → check_envelope crypto (holding c o) e i ≡ ok name
      → (envelope_suite e ≡ ok name)
        × (accepts crypto json lib o e.recipient_key_id ≡ true)
        × (uid : String) × (e.record_uid ≡ some uid)
  unfolding check_envelope local_agreement accepts_key accepts missing_column
  check_envelope_facts c o e i name h =
      let (whole, h1) = >>-eq-ok (raise_some envelope_missing (missing_column e)) _ h in
      let (name', named, h2) = >>=-eq-ok (map_error unsealable (envelope_suite e)) _ h1 in
      let (_, h3) = >>-eq-ok (require (any (str_eq name') c.accepted_kems) suite_refused) _ h2 in
      let (held, h4) =
        >>-eq-ok (require (accepts crypto json lib o e.recipient_key_id) key_not_held) _ h3 in
      let (s, _, h5) = >>=-eq-ok (some_or (suite name') unusable_point) _ h4 in
      let (peer, _, h6) =
        >>=-eq-ok (some_or (bind_option e.ephemeral_pub crypto.b64decode) unusable_point) _ h5 in
      let (_, h7) = >>-eq-ok (require (validate_peer_public crypto s peer) unusable_point) _ h6 in
      let (_, h8) = >>-eq-ok (check_identity e i) _ h7 in
      let same : name' ≡ name = cc in
      let (uid, stated) = uid_of e whole in
      (
        map_error_ok (envelope_suite e) named ∙ ap ok same,
        require-true (accepts crypto json lib o e.recipient_key_id) key_not_held held,
        uid,
        stated,
      )

  fields_same :
      (r : Option Fields) (f : Fields) (g : Fields → Opened)
      → ((x y : Fields) → g x ≡ g y → x ≡ y)
      → (some_or r Sealing.could_not_open ≡ ok f)
        ↔ ((some_or r could_not_open >>= λ fields. ok (g fields)) ≡ ok (g f))
  fields_same none f g inj = (λ h. cc, λ h. cc)
  fields_same (some x) f g inj = (
    λ h. let same : x ≡ f = cc in ap (λ y. ok (g y)) same,
    λ h. let same : g x ≡ g f = cc in ap ok (inj x f same),
  )

  opened_same :
      (r : Result AgreeError Bytes) (opened : Bytes → Option Fields) (f : Fields)
      (g : Fields → Opened)
      → ((x y : Fields) → g x ≡ g y → x ≡ y)
      → ((map_error (λ e. Sealing.could_not_open) r >>= λ shared.
            some_or (opened shared) Sealing.could_not_open)
          ≡ ok f)
        ↔ ((map_error no_agreement (map_error passed_on r) >>= λ shared.
              some_or (opened shared) could_not_open >>= λ fields. ok (g fields))
            ≡ ok (g f))
  opened_same (raise e) opened f g inj = (λ h. cc, λ h. cc)
  opened_same (ok shared) opened f g inj = fields_same (opened shared) f g inj

  -- a step that has its value
  with_uid :
      (r : Option String) (uid : String) {next : Result SealingError Fields} {f : Fields}
      {X : Type 0}
      → r ≡ some uid
      → (next ≡ ok f) ↔ X
      → ((some_or r Sealing.could_not_open >>= λ u. next) ≡ ok f) ↔ X
  with_uid none uid e h = absurd cc
  with_uid (some u) uid e h = h

  opening_same :
      (r : Option Bytes) (agreed : Bytes → Result AgreeError Bytes) (opened : Bytes → Option Fields)
      (f : Fields) (g : Fields → Opened)
      → ((x y : Fields) → g x ≡ g y → x ≡ y)
      → ((some_or r Sealing.could_not_open >>= λ peer.
            map_error (λ e. Sealing.could_not_open) (agreed peer) >>= λ shared.
            some_or (opened shared) Sealing.could_not_open)
          ≡ ok f)
        ↔ ((some_or r could_not_open >>= λ peer.
              map_error no_agreement (map_error passed_on (agreed peer)) >>= λ shared.
              some_or (opened shared) could_not_open >>= λ fields. ok (g fields))
            ≡ ok (g f))
  opening_same none agreed opened f g inj = (λ h. cc, λ h. cc)
  opening_same (some peer) agreed opened f g inj = opened_same (agreed peer) opened f g inj

  -- The custodian with a software key opens what the opener with that key opens. For a record that the
  -- custodian's check of the envelope accepts, for the opener's own suite, the opener answers fields at the
  -- stated place and time exactly when the custodian's agreement and opening answer those fields.
  pub derive_and_open_iff :
      (c : Custodian) (o : RecordOpener) (call : Call) (a : Admitted) (count : Option ℕ)
      (f : Fields)
      → check_envelope crypto (holding c o) call.envelope call.identity ≡ ok o.kem
      → (open_record crypto json lib o call.envelope (sighting_of call.identity) ≡ ok f) ↔ (
          derive_and_open lib web crypto json (holding c o) call a count
          ≡ ok (record { fields = f; use_count = count; presence = a.present; suite = a.suite }))
  unfolding open_record derive_and_open local_agreement local_agree
  derive_and_open_iff c o call a count f h =
      let (named, held, uid, stated) =
        check_envelope_facts c o call.envelope call.identity o.kem h in
      let matched : str_eq o.kem o.kem ≡ true = str_eq_refl o.kem in
      rw named (
        rw matched (
          rw held (
            with_uid call.envelope.record_uid uid stated (
              opening_same (bind_option call.envelope.ephemeral_pub crypto.b64decode)
                (agree crypto o.kem_suite o.private)
                (open_shared crypto json call.envelope
                  (aad_for json call.envelope (sighting_of call.identity)))
                f
                (λ x. record {
                  fields = x;
                  use_count = count;
                  presence = a.present;
                  suite = a.suite;
                })
                (λ x y same. ap (λ (z : Opened). z.fields) same)))))
