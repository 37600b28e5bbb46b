-- ===== src/Custodian/Attested.antt =====
-- `KmsAgreement.agree` of justikey/custodian.py, where its calls are attested.
use justi_key.Common.{
  ◌≡◌, sym, true, false, Option, none, some, ◌++◌, arith, ok, >>=-eq-ok, >>-eq-ok, is_some, require,
  raise_if, some_or, require-true, raise_if-false, some_or-some,
}
use justi_key.Kem.{Bytes, Crypto, p256, validate_peer_public}
use justi_key.Enclave.{Recipient, RecipientKey}
use justi_key.Custodian.{point_refused, call_failed, no_ciphertext, plaintext_returned}
use justi_key.Custodian.Backends.{
  KmsAgreement, KmsRequest, KmsResponse, has_bytes, spki_prefix, meets_stage_5, spki, recipient_of,
  open_attested, read_secret, kms_agree,
}

module _ (crypto : Crypto) (cbc_decrypt : Bytes → Bytes → Bytes → Option Bytes) where
  recipient_of-some :
      (k : KmsAgreement) (recipient : Option Recipient) (drawn : Option RecipientKey)
      → meets_stage_5 k ≡ true
      → recipient_of crypto k ≡ ok (recipient, drawn)
      → is_some recipient ≡ true
  unfolding meets_stage_5 recipient_of
  recipient_of-some k recipient drawn attested h = ground arith

  read_secret-some :
      (k : KmsAgreement) (recipient : Option Recipient) (drawn : Option RecipientKey)
      (response : KmsResponse) (secret : Bytes)
      → is_some recipient ≡ true
      → read_secret crypto cbc_decrypt k (recipient, drawn) response ≡ ok secret
      → (has_bytes response.ciphertext_for_recipient ≡ true)
        × (has_bytes response.shared_secret ≡ false)
  unfolding read_secret open_attested
  read_secret-some k none drawn response secret held h = cc
  read_secret-some k (some recipient) drawn response secret held h =
      let (cipher, h1) =
        >>-eq-ok (require (has_bytes response.ciphertext_for_recipient) no_ciphertext) _ h in
      let (blob, _, h2) =
        >>=-eq-ok (some_or response.ciphertext_for_recipient no_ciphertext) _ h1 in
      let (plain, _) =
        >>-eq-ok (raise_if (has_bytes response.shared_secret) plaintext_returned) _ h2 in
      (
        require-true (has_bytes response.ciphertext_for_recipient) no_ciphertext cipher,
        raise_if-false (has_bytes response.shared_secret) plaintext_returned plain,
      )

  -- Where the backend attests its calls, a secret comes only from an attested call: the point was valid,
  -- the request named a recipient and this point, and the response held a ciphertext for the recipient
  -- and no plaintext secret.
  pub kms_agree-attested :
      (client : KmsRequest → Option KmsResponse) (k : KmsAgreement) (peer secret : Bytes)
      → meets_stage_5 k ≡ true
      → kms_agree crypto cbc_decrypt client k peer ≡ ok secret
      → (validate_peer_public crypto p256 peer ≡ true)
        × (request : KmsRequest) × (response : KmsResponse) × (client request ≡ some response)
        × (request.public_key ≡ spki_prefix ++ peer)
        × (is_some request.recipient ≡ true)
        × (has_bytes response.ciphertext_for_recipient ≡ true)
        × (has_bytes response.shared_secret ≡ false)
  unfolding kms_agree spki
  kms_agree-attested client k peer secret attested h =
      let (checked, h1) =
        >>-eq-ok (require (validate_peer_public crypto p256 peer) point_refused) _ h in
      let valid = require-true (validate_peer_public crypto p256 peer) point_refused checked in
      let (public_key, encoded, h2) = >>=-eq-ok (spki crypto peer) _ h1 in
      let same : spki_prefix ++ peer ≡ public_key = ground arith in
      let ((recipient, drawn), found, h3) = >>=-eq-ok (recipient_of crypto k) _ h2 in
      let request : KmsRequest = record {
        key_arn = k.key_arn;
        algorithm = "ECDH";
        public_key = public_key;
        recipient = recipient;
      } in
      let (response, answered, h4) = >>=-eq-ok (some_or (client request) call_failed) _ h3 in
      let held = recipient_of-some k recipient drawn attested found in
      let (cipher, plain) = read_secret-some k recipient drawn response secret held h4 in
      (
        valid,
        request,
        response,
        some_or-some (client request) call_failed response answered,
        sym same,
        held,
        cipher,
        plain,
      )
