-- ===== src/Sealing/Roundtrip.antt =====
-- What is sealed opens again, and nowhere else.
use justi_key.Common.{
  ◌≡◌, ◌≢◌, refl, sym, subst, ap, ◌∙◌, true, String, ◌++◌, none, some, str_eq, str_eq_refl,
  str_eq_iff, drop, length, ok, raise, some_or, arith, is_truthy, take-append, drop-append,
}
use justi_key.Library.{Library}
use justi_key.Disclosure.{Fields}
use justi_key.Kem.{
  Bytes, Crypto, Suite, validate_peer_public, public_bytes, exchange, agree, key_id,
}
use justi_key.Sealing.{
  Envelope, could_not_open, Bound, Json, Draws, Sighting, RecordSealer, RecordOpener, record_aad,
  envelope_suite, aad_for, seal, open_shared, accepts, open_record, format_version, wrap_info_v4,
  or_default, decrypt, unwrap_record_key, open_with_record_key,
}

-- Documented behaviour of the libraries: base64 is undone, both ends of an exchange agree, and
-- AES-GCM opens what it sealed under the same associated data and under no other, and canonical JSON
-- is injective.
pub record IsSound (crypto : Crypto) (json : Json) : Type 0 where
  pub base64 : (raw : Bytes) → crypto.b64decode (crypto.b64encode raw) ≡ some raw
  pub both_ends :
      (s : Suite) (a b : Bytes)
      → exchange crypto s a (public_bytes crypto s b)
        ≡ exchange crypto s b (public_bytes crypto s a)
  pub opens :
      (key nonce plain : Bytes) (aad : String)
      → crypto.aes_decrypt key nonce (crypto.aes_encrypt key nonce plain aad) aad ≡ some plain
  pub binds :
      (key nonce plain : Bytes) (aad aad' : String)
      → aad ≢ aad'
      → crypto.aes_decrypt key nonce (crypto.aes_encrypt key nonce plain aad) aad' ≡ none
  pub canonical : (a b : Bound) → json.dumps_bound a ≡ json.dumps_bound b → a ≡ b

-- A sealer and an opener of one key pair, and draws of usable sizes.
pub record ArePaired (crypto : Crypto) (s : RecordSealer) (o : RecordOpener) (d : Draws)
    : Type 0 where
  pub same_kem : s.kem ≡ o.kem
  pub same_suite : s.kem_suite ≡ o.kem_suite
  pub same_key : s.public_raw ≡ public_bytes crypto o.kem_suite o.private
  pub named : is_truthy s.kem ≡ true
  pub valid_key : validate_peer_public crypto s.kem_suite s.public_raw ≡ true
  pub valid_ephemeral :
      validate_peer_public crypto s.kem_suite (public_bytes crypto s.kem_suite d.ephemeral) ≡ true
  -- the two keys have a secret, which is not all zeros
  pub secret : Bytes
  pub agreed : exchange crypto s.kem_suite d.ephemeral s.public_raw ≡ some secret
  pub nonce_size : length d.nonce ≡ 12
  pub wrap_nonce_size : length d.wrap_nonce ≡ 12

module _ (crypto : Crypto) (json : Json) (lib : Library) (sound : IsSound crypto json) where
  -- a nonce of twelve bytes is told from what follows it
  parts :
      (key nonce c : Bytes) (aad : String)
      → length nonce ≡ 12
      → decrypt crypto json key (nonce ++ c) aad ≡ crypto.aes_decrypt key nonce c aad
  parts key nonce c aad size =
      ap (λ n. crypto.aes_decrypt key n (drop 12 (nonce ++ c)) aad) (take-append nonce c 12 size)
      ∙ ap (λ b. crypto.aes_decrypt key nonce b aad) (drop-append nonce c 12 size)

  decrypt-encrypt :
      (key nonce plain : Bytes) (aad : String)
      → length nonce ≡ 12
      → decrypt crypto json key (nonce ++ crypto.aes_encrypt key nonce plain aad) aad ≡ some plain
  decrypt-encrypt key nonce plain aad size =
      parts key nonce (crypto.aes_encrypt key nonce plain aad) aad size
      ∙ sound.opens key nonce plain aad

  decrypt-other :
      (key nonce plain : Bytes) (aad aad' : String)
      → length nonce ≡ 12
      → aad ≢ aad'
      → decrypt crypto json key (nonce ++ crypto.aes_encrypt key nonce plain aad) aad' ≡ none
  decrypt-other key nonce plain aad aad' size other =
      parts key nonce (crypto.aes_encrypt key nonce plain aad) aad' size
      ∙ sound.binds key nonce plain aad aad' other

  -- the envelope that a seal makes
  abbrev sealed : Bytes → RecordSealer → Draws → Fields → Sighting → Envelope
  sealed k s d fields at =
      let recipient = key_id crypto s.kem s.public_raw in
      let aad =
        record_aad json (some recipient) (some d.record_uid) at (some format_version)
          (some s.kem) in
      let wrap_key = crypto.hkdf k wrap_info_v4 in
      record {
        record_uid = some d.record_uid;
        seal_version = some format_version;
        seal_kem = some s.kem;
        recipient_key_id = some recipient;
        record_ct = some (
            crypto.b64encode
              (d.nonce ++ crypto.aes_encrypt d.record_key d.nonce (json.dumps_fields fields) aad));
        wrapped_key = some (
            crypto.b64encode
              (d.wrap_nonce ++ crypto.aes_encrypt wrap_key d.wrap_nonce d.record_key aad));
        ephemeral_pub = some (crypto.b64encode (public_bytes crypto s.kem_suite d.ephemeral));
      }

  seal-sealed :
      (k : Bytes) (s : RecordSealer) (d : Draws) (fields : Fields) (at : Sighting)
      → validate_peer_public crypto s.kem_suite s.public_raw ≡ true
      → exchange crypto s.kem_suite d.ephemeral s.public_raw ≡ some k
      → seal crypto json s d fields at ≡ ok (sealed k s d fields at)
  unfolding seal agree
  seal-sealed k s d fields at valid agreed = rw (valid, agreed) refl

  -- the associated data of a sealed record, at any sighting
  aad_for-sealed :
      (k : Bytes) (s : RecordSealer) (d : Draws) (fields : Fields) (at at' : Sighting)
      → aad_for json (sealed k s d fields at) at'
        ≡ record_aad json
            (some (key_id crypto s.kem s.public_raw))
            (some d.record_uid)
            at'
            (some format_version)
            (some s.kem)
  unfolding aad_for
  aad_for-sealed k s d fields at at' = refl

  -- what an opener of the pair computes up to the opening proper
  open-sealed :
      (s : RecordSealer) (o : RecordOpener) (d : Draws) (fields : Fields) (at at' : Sighting)
      → (p : ArePaired crypto s o d)
      → open_record crypto json lib o (sealed p.secret s d fields at) at'
        ≡ some_or
            (open_shared crypto json
              (sealed p.secret s d fields at)
              (aad_for json (sealed p.secret s d fields at) at')
              p.secret)
            could_not_open
  unfolding open_record
  open-sealed s o d fields at at' p =
      let e = sealed p.secret s d fields at in
      let named : envelope_suite e ≡ ok s.kem = unfold envelope_suite in rw p.named refl in
      let same : str_eq s.kem o.kem ≡ true = rw p.same_kem (str_eq_refl o.kem) in
      let recipient : key_id crypto s.kem s.public_raw
          ≡ key_id crypto o.kem (public_bytes crypto o.kem_suite o.private) =
        rw (p.same_kem, p.same_key) refl in
      let accepted : accepts crypto json lib o e.recipient_key_id ≡ true =
        unfold accepts in
        ground (
          arith,
          str_eq_iff (key_id crypto s.kem s.public_raw)
              (key_id crypto o.kem (public_bytes crypto o.kem_suite o.private)),
          recipient,
        ) in
      let peer = public_bytes crypto s.kem_suite d.ephemeral in
      let shared : agree crypto o.kem_suite o.private peer ≡ ok p.secret =
        let key' : public_bytes crypto s.kem_suite o.private ≡ s.public_raw =
          ap (λ z. public_bytes crypto z o.private) p.same_suite ∙ sym p.same_key in
        let ends =
          sound.both_ends s.kem_suite o.private d.ephemeral
          ∙ ap (exchange crypto s.kem_suite d.ephemeral) key'
          ∙ p.agreed in
        unfold agree in rw⁻¹ p.same_suite (rw (p.valid_ephemeral, ends) refl) in
      rw (named, same, accepted, sound.base64 peer, shared) refl

  -- the part of the associated data that a sighting makes
  abbrev pub bound_at : Sighting → String × String × String
  bound_at at = (at.captured_at, or_default at.camera_id "", at.blind_index)

  aad-other :
      (s : RecordSealer) (d : Draws) (at at' : Sighting)
      → bound_at at ≢ bound_at at'
      → record_aad json
          (some (key_id crypto s.kem s.public_raw))
          (some d.record_uid)
          at
          (some format_version)
          (some s.kem)
        ≢ record_aad json
            (some (key_id crypto s.kem s.public_raw))
            (some d.record_uid)
            at'
            (some format_version)
            (some s.kem)
  unfolding record_aad
  aad-other s d at at' moved h =
      moved (ap (λ (b : Bound). (b.captured_at, b.camera_id, b.index)) (sound.canonical _ _ h))

  shared-own :
      (s : RecordSealer) (o : RecordOpener) (d : Draws) (fields : Fields) (at : Sighting)
      → (p : ArePaired crypto s o d) → json.loads_fields (json.dumps_fields fields) ≡ some fields
      → open_shared crypto json
          (sealed p.secret s d fields at)
          (aad_for json (sealed p.secret s d fields at) at)
          p.secret
        ≡ some fields
  unfolding open_shared unwrap_record_key open_with_record_key exchange record_aad aad_for
  shared-own s o d fields at p loads =
      let aad = aad_for json (sealed p.secret s d fields at) at in
      let wrap_key = crypto.hkdf p.secret wrap_info_v4 in
      rw
        (
          sound.base64 (d.wrap_nonce ++ crypto.aes_encrypt wrap_key d.wrap_nonce d.record_key aad),
          decrypt-encrypt wrap_key d.wrap_nonce d.record_key aad p.wrap_nonce_size,
          sound.base64
              (d.nonce ++ crypto.aes_encrypt d.record_key d.nonce (json.dumps_fields fields) aad),
          decrypt-encrypt d.record_key d.nonce (json.dumps_fields fields) aad p.nonce_size,
        )
        loads

  shared-moved :
      (s : RecordSealer) (o : RecordOpener) (d : Draws) (fields : Fields) (at at' : Sighting)
      → (p : ArePaired crypto s o d) → bound_at at ≢ bound_at at'
      → open_shared crypto json
          (sealed p.secret s d fields at)
          (aad_for json (sealed p.secret s d fields at) at')
          p.secret
        ≡ none
  unfolding open_shared unwrap_record_key exchange record_aad aad_for
  shared-moved s o d fields at at' p moved =
      let aad = aad_for json (sealed p.secret s d fields at) at in
      let aad' = aad_for json (sealed p.secret s d fields at) at' in
      let wrap_key = crypto.hkdf p.secret wrap_info_v4 in
      let other : aad ≢ aad' = λ h. aad-other s d at at' moved (
        sym (aad_for-sealed p.secret s d fields at at)
        ∙ h
        ∙ aad_for-sealed p.secret s d fields at at') in
      rw
        (
          sound.base64 (d.wrap_nonce ++ crypto.aes_encrypt wrap_key d.wrap_nonce d.record_key aad),
          decrypt-other wrap_key d.wrap_nonce d.record_key aad aad' p.wrap_nonce_size other,
        )
        refl

  -- Sealing and opening. What a sealer seals for a sighting, the opener of its key pair opens at that
  -- sighting, and recovers exactly the fields, where their JSON is read back as it was written, the keys
  -- drawn are valid and have a secret, and the nonces drawn have twelve bytes.
  pub open_record-seal :
      (s : RecordSealer) (o : RecordOpener) (d : Draws) (fields : Fields) (at : Sighting)
      → (p : ArePaired crypto s o d) → json.loads_fields (json.dumps_fields fields) ≡ some fields
      → (e : Envelope) × (seal crypto json s d fields at ≡ ok e)
        × (open_record crypto json lib o e at ≡ ok fields)
  open_record-seal s o d fields at p loads = (
    sealed p.secret s d fields at,
    seal-sealed p.secret s d fields at p.valid_key p.agreed,
    open-sealed s o d fields at at p ∙ rw (shared-own s o d fields at p loads) refl,
  )

  -- A record cannot be moved. At any other time, camera or blind index than the one that it was sealed
  -- for, the opener of the key pair refuses the envelope, where the keys drawn are valid and have a
  -- secret, and the nonces drawn have twelve bytes.
  pub open_record-moved :
      (s : RecordSealer) (o : RecordOpener) (d : Draws) (fields : Fields) (at at' : Sighting)
      (e : Envelope)
      → (p : ArePaired crypto s o d) → bound_at at ≢ bound_at at'
      → seal crypto json s d fields at ≡ ok e
      → open_record crypto json lib o e at' ≡ raise could_not_open
  open_record-moved s o d fields at at' e p moved h =
      let same = seal-sealed p.secret s d fields at p.valid_key p.agreed in
      let made : sealed p.secret s d fields at ≡ e = cc in
      subst (λ (x : Envelope). open_record crypto json lib o x at' ≡ raise could_not_open) made
        (open-sealed s o d fields at at' p ∙ rw (shared-moved s o d fields at at' p moved) refl)
