-- ===== src/Tests/Sealing.antt =====
-- One record, sealed and opened with the stand-ins.
use justi_key.Common.{
  ◌≡◌, ◌≢◌, refl, ap, String, [], ◌∷◌, some, ok, raise, arith, str_eq, str_eq_iff, true,
}
use justi_key.Kem.{Bytes, Suite, x25519, x25519_ecdh, public_bytes, exchange, validate_peer_public}
use justi_key.Sealing.{
  Envelope, Sighting, Draws, RecordSealer, RecordOpener, seal, open_record, could_not_open,
}
use justi_key.Sealing.Roundtrip.{IsSound, ArePaired, open_record-seal, open_record-moved, bound_at}
use justi_key.Tests.Samples.{toy}
use justi_key.Tests.Toys.{
  toy_crypto, toy_json, sample_fields, decode-encode, encode_inj, flat_inj, flat, toy_opens,
  toy_binds,
}

abbrev key : Bytes
key =
    1 ∷ 2 ∷ 3 ∷ 4 ∷ 5 ∷ 6 ∷ 7 ∷ 8 ∷ 1 ∷ 2 ∷ 3 ∷ 4 ∷ 5 ∷ 6 ∷ 7 ∷ 8 ∷ 1 ∷ 2 ∷ 3 ∷ 4 ∷ 5 ∷ 6 ∷ 7 ∷ 8
    ∷ 1 ∷ 2 ∷ 3 ∷ 4 ∷ 5 ∷ 6 ∷ 7 ∷ 8 ∷ []

abbrev twelve : Bytes
twelve = 1 ∷ 2 ∷ 3 ∷ 4 ∷ 5 ∷ 6 ∷ 7 ∷ 8 ∷ 9 ∷ 10 ∷ 11 ∷ 12 ∷ []

abbrev draws : Draws
draws = record {
  record_uid = "u1";
  record_key = key;
  nonce = twelve;
  ephemeral = key;
  wrap_nonce = twelve;
}

abbrev sealer : RecordSealer
sealer = record { kem = x25519_ecdh; kem_suite = x25519; public_raw = key }

abbrev opener : RecordOpener
opener = record { kem = x25519_ecdh; kem_suite = x25519; private = key; public_hex = "" }

abbrev here : Sighting
here = record { captured_at = "2026-01-05"; camera_id = some "cam"; blind_index = "k" }

abbrev there : Sighting
there = record here { captured_at = "2026-03-05" }

toy-IsSound : IsSound toy_crypto toy_json
unfolding exchange public_bytes
toy-IsSound = record {
  base64 = decode-encode;
  both_ends = ends;
  opens = λ key nonce raw aad. toy_opens raw aad;
  binds = λ key nonce raw aad aad' other. toy_binds raw aad aad' other;
  canonical = λ a b h. flat_inj a b (encode_inj (flat a) (flat b) h);
}
  where
    ends :
        (s : Suite) (a b : Bytes)
        → exchange toy_crypto s a (public_bytes toy_crypto s b)
          ≡ exchange toy_crypto s b (public_bytes toy_crypto s a)
    ends Suite.p256 a b = ap (λ n. some (n ∷ [])) (omega arith)
    ends Suite.x25519 a b = ap (λ n. some (n ∷ [])) (omega arith)

pair-ArePaired : ArePaired toy_crypto sealer opener draws
unfolding public_bytes validate_peer_public exchange
pair-ArePaired = record {
  same_kem = refl;
  same_suite = refl;
  same_key = refl;
  named = refl;
  valid_key = refl;
  valid_ephemeral = refl;
  secret = 64 ∷ [];
  agreed = refl;
  nonce_size = refl;
  wrap_nonce_size = refl;
}

open_record-seal_example :
    (e : Envelope) × (seal toy_crypto toy_json sealer draws sample_fields here ≡ ok e)
    × (open_record toy_crypto toy_json toy opener e here ≡ ok sample_fields)
open_record-seal_example =
    open_record-seal toy_crypto toy_json toy toy-IsSound sealer opener draws sample_fields here
      pair-ArePaired refl

here-ne-there :
    bound_at toy_crypto toy_json toy toy-IsSound here
    ≢ bound_at toy_crypto toy_json toy toy-IsSound there
here-ne-there h =
    let times : "2026-01-05" ≡ "2026-03-05" = ap (λ (b : String × String × String). b.0) h in
    let same : str_eq "2026-01-05" "2026-03-05" ≡ true =
      (str_eq_iff "2026-01-05" "2026-03-05").1 times in
    cc

open_record-moved_example :
    open_record toy_crypto toy_json toy opener
      (open_record-seal toy_crypto toy_json toy toy-IsSound sealer opener draws sample_fields here
        pair-ArePaired refl).0
      there
    ≡ raise could_not_open
open_record-moved_example =
    open_record-moved toy_crypto toy_json toy toy-IsSound sealer opener draws sample_fields here
      there _ pair-ArePaired here-ne-there
      (open_record-seal toy_crypto toy_json toy toy-IsSound sealer opener draws sample_fields here
        pair-ArePaired refl).1
