-- ===== src/Enclave.antt =====
-- justikey/enclave.py: the strict reader of a CMS envelope, and the key that one KMS operation uses. Bytes
-- are numbers; the RSA and AES of the library are parameters.
pub mod Elements
pub mod Ending
pub mod Reading
use justi_key.Common.{
  ℕ, zero, suc, ◌+◌, ◌-◌, ◌*◌, ◌%◌, Bool, true, false, ◌||◌, String, List, [], ◌∷◌, Option, none,
  some, Result, ok, raise, require, raise_if, some_or, ◌>>=◌, ◌>>◌, if◌then◌else◌, ltb, leb, ◌==◌,
  length, take, drop, map_option, bind_option,
}
use justi_key.Kem.{Bytes}

abbrev pub oid_enveloped_data : Bytes
oid_enveloped_data = 42 ∷ 134 ∷ 72 ∷ 134 ∷ 247 ∷ 13 ∷ 1 ∷ 7 ∷ 3 ∷ []

abbrev pub oid_rsaes_oaep : Bytes
oid_rsaes_oaep = 42 ∷ 134 ∷ 72 ∷ 134 ∷ 247 ∷ 13 ∷ 1 ∷ 1 ∷ 7 ∷ []

abbrev pub oid_aes_256_cbc : Bytes
oid_aes_256_cbc = 96 ∷ 134 ∷ 72 ∷ 1 ∷ 101 ∷ 3 ∷ 4 ∷ 1 ∷ 42 ∷ []

pub data EnclaveError : Type 0 where
  truncated indefinite unsupported_length past_end : EnclaveError
  not_content_info no_content_type not_enveloped_data no_content not_a_sequence : EnclaveError
  no_recipient_infos not_one_recipient not_key_trans other_key_algorithm no_encrypted_key :
      EnclaveError
  no_content_info no_content_algorithm other_content_algorithm malformed_iv no_encrypted_content :
      EnclaveError
  other_recipient_key bad_content_key unopened : EnclaveError
  -- what the attestation provider raises
  no_document : EnclaveError
  -- an IndexError, which is no EnclaveError
  index_error : EnclaveError
  -- the loop of `_children` has not ended within its fuel
  unfinished : EnclaveError

-- a tag and a content
abbrev pub Item : Type 0
Item = ℕ × Bytes

-- `data[i]`, and `data[start:end]`
abbrev pub byte_at : Bytes → ℕ → ℕ
byte_at [] i = 0
byte_at (b ∷ data') zero = b
byte_at (b ∷ data') (suc i) = byte_at data' i

abbrev pub slice : Bytes → ℕ → ℕ → Bytes
slice raw start end = take (end - start) (drop start raw)

-- `int.from_bytes(raw, "big")`, after what was read
abbrev pub from_bytes : ℕ → Bytes → ℕ
from_bytes n [] = n
from_bytes n (b ∷ raw) = from_bytes (n * 256 + b) raw

-- `==` of two byte strings
abbrev pub same_bytes : Bytes → Bytes → Bool
same_bytes [] [] = true
same_bytes [] (b ∷ bs) = false
same_bytes (a ∷ as') [] = false
same_bytes (a ∷ as') (b ∷ bs) = if a == b then same_bytes as' bs else false

-- the length, and where the content starts
unfoldable pub read_length : Bytes → ℕ → ℕ → Result EnclaveError (ℕ × ℕ)
read_length raw offset length_byte =
    if ltb length_byte 128
    then ok (length_byte, offset)
    else if length_byte == 128
    then raise indefinite
    else let count = length_byte % 128 in
      if ltb 4 count || ltb (length raw) (offset + count)
      then raise unsupported_length
      else ok (from_bytes 0 (slice raw offset (offset + count)), offset + count)

-- `_read_tlv`: the tag, the content and the next offset
unfoldable pub read_tlv : Bytes → ℕ → Result EnclaveError (ℕ × Bytes × ℕ)
unfolding read_length
read_tlv raw offset = do
  raise_if (ltb (length raw) (offset + 2)) truncated
  (size, start) ← read_length raw (offset + 2) (byte_at raw (offset + 1))
  raise_if (ltb (length raw) (start + size)) past_end
  ok (byte_at raw offset, slice raw start (start + size), start + size)

-- the loop of `_children`, on fuel
unfoldable pub children_from : ℕ → Bytes → ℕ → Result EnclaveError (List Item)
children_from zero content offset = raise unfinished
children_from (suc fuel) content offset =
    if ltb offset (length content)
    then (read_tlv content offset >>= λ (tag, body, next).
        children_from fuel content next >>= λ rest. ok ((tag, body) ∷ rest))
    else ok []

-- `_children`
unfoldable pub children : Bytes → Result EnclaveError (List Item)
children content = children_from (suc (length content)) content 0

-- `_expect`
unfoldable pub expect : List Item → ℕ → ℕ → EnclaveError → Result EnclaveError Bytes
expect [] index tag e = raise e
expect ((t, body) ∷ items) zero tag e = if t == tag then ok body else raise e
expect (item ∷ items) (suc index) tag e = expect items index tag e

-- `_find`
unfoldable pub find : List Item → ℕ → Option Bytes
find [] tag = none
find ((t, body) ∷ items) tag = if t == tag then some body else find items tag

pub record Envelope : Type 0 where
  pub encrypted_key : Bytes
  pub iv : Bytes
  pub encrypted_content : Bytes

-- the first SEQUENCE that starts with an OID names the key's algorithm
unfoldable pub key_algorithm : List Item → Result EnclaveError (Option Bytes)
key_algorithm [] = ok none
key_algorithm ((t, body) ∷ items) =
    let rest = key_algorithm items in
    if t == 48
    then (children body >>= λ inner. elim inner [
      | [] ↦ rest
      | (u, oid) ∷ _ ↦ if u == 6 then ok (some oid) else rest
    ])
    else rest

-- the last SEQUENCE that is not the first field; each of them is read
unfoldable pub last_sequence :
    List Item → Option (List Item) → Result EnclaveError (Option (List Item))
last_sequence [] found = ok found
last_sequence ((t, body) ∷ items) found =
    if t == 48
    then (children body >>= λ inner. last_sequence items (some inner))
    else last_sequence items found

unfoldable pub content_info : List Item → Result EnclaveError (Option (List Item))
unfolding last_sequence
content_info [] = ok none
content_info (first ∷ fields) = last_sequence fields none

-- `algorithm[0][0] != 0x06`, its OID, and the IV beside it
unfoldable pub content_iv : Option (List Item) → Result EnclaveError Bytes
content_iv none = raise no_content_algorithm
content_iv (some []) = raise index_error
content_iv (some ((t, oid) ∷ params)) = do
  require (t == 6) no_content_algorithm
  require (same_bytes oid oid_aes_256_cbc) other_content_algorithm
  iv ← expect params 0 4 malformed_iv
  require (length iv == 16) malformed_iv
  ok iv

unfoldable pub first_sequence : List Item → Result EnclaveError (Option (List Item))
first_sequence items = elim (find items 48) [
  | none ↦ ok none
  | some body ↦ children body >>= λ inner. ok (some inner)
]

unfoldable pub content_of : List Item → Option Bytes
content_of info = elim (find info 128) [ none ↦ find info 160 | some body ↦ some body ]

-- the one recipient's fields
unfoldable pub recipient_of : List Item → Result EnclaveError (List Item)
recipient_of [] = raise not_one_recipient
recipient_of ((t, body) ∷ []) = require (t == 48) not_key_trans >> children body
recipient_of (a ∷ b ∷ rest) = raise not_one_recipient

-- `parse_enveloped_data`
unfoldable pub parse_enveloped_data : Bytes → Result EnclaveError Envelope
unfolding expect key_algorithm content_info content_iv first_sequence content_of recipient_of
parse_enveloped_data der = do
  (tag, content, _) ← read_tlv der 0
  require (tag == 48) not_content_info
  outer ← children content
  content_type ← expect outer 0 6 no_content_type
  require (same_bytes content_type oid_enveloped_data) not_enveloped_data
  explicit ← expect outer 1 160 no_content
  (tag', enveloped, _) ← read_tlv explicit 0
  require (tag' == 48) not_a_sequence
  fields ← children enveloped
  infos ← some_or (find fields 49) no_recipient_infos
  recipients ← children infos
  ktri ← recipient_of recipients
  named ← key_algorithm ktri
  algorithm ← some_or named other_key_algorithm
  require (same_bytes algorithm oid_rsaes_oaep) other_key_algorithm
  encrypted_key ← some_or (find ktri 4) no_encrypted_key
  info' ← content_info fields
  info ← some_or info' no_content_info
  content_algorithm ← first_sequence info
  iv ← content_iv content_algorithm
  encrypted_content ← some_or (content_of info) no_encrypted_content
  ok (record { encrypted_key = encrypted_key; iv = iv; encrypted_content = encrypted_content })

-- the RSA key of one operation: its public half, and what OAEP decryption with the private half answers
pub record RecipientKey : Type 0 where
  pub public_der : Bytes
  pub private_decrypt : Bytes → Option Bytes

-- AES-CBC of the library, with the padding taken off: key, IV and content
module _ (cbc_decrypt : Bytes → Bytes → Bytes → Option Bytes) where
  -- `RecipientKey.decrypt`
  unfoldable pub decrypt : RecipientKey → Bytes → Result EnclaveError Bytes
  decrypt key blob = do
    envelope ← parse_enveloped_data blob
    content_key ← some_or (key.private_decrypt envelope.encrypted_key) other_recipient_key
    require (length content_key == 32) bad_content_key
    some_or (cbc_decrypt content_key envelope.iv envelope.encrypted_content) unopened

-- the `Recipient` parameter of a KMS call
pub record Recipient : Type 0 where
  pub attestation_document : Bytes
  pub key_encryption_algorithm : String

-- `recipient_for`, with the key that it draws
unfoldable pub recipient_for :
    (Bytes → Option Bytes) → RecipientKey → Result EnclaveError (Recipient × RecipientKey)
recipient_for document_for key = do
  document ← some_or (document_for key.public_der) no_document
  ok (
    record { attestation_document = document; key_encryption_algorithm = "RSAES_OAEP_SHA_256" },
    key,
  )
