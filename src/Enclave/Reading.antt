-- ===== src/Enclave/Reading.antt =====
-- `parse_enveloped_data` of justikey/enclave.py on the envelope that KMS makes for one recipient.
use justi_key.Common.{◌+◌, ◌<◌, ◌≤◌, ◌≡◌, refl, List, [], ◌∷◌, some, ok, arith, length}
use justi_key.Kem.{Bytes}
use justi_key.Enclave.{
  Item, oid_enveloped_data, oid_rsaes_oaep, oid_aes_256_cbc, children, expect, find, key_algorithm,
  last_sequence, content_info, content_iv, first_sequence, content_of, recipient_of,
  parse_enveloped_data,
}
use justi_key.Enclave.Elements.{
  element, elements, children-elements, read_tlv-whole, length-element_le, length-elements_le,
  length-elements_nil,
}

abbrev pub oid_data : Bytes
oid_data = 42 ∷ 134 ∷ 72 ∷ 134 ∷ 247 ∷ 13 ∷ 1 ∷ 7 ∷ 1 ∷ []

-- RFC 5652's EnvelopedData with one KeyTransRecipientInfo
abbrev pub aes_of : Bytes → List Item
aes_of iv = (6, oid_aes_256_cbc) ∷ (4, iv) ∷ []

abbrev pub info_of : Bytes → Bytes → List Item
info_of iv content = (6, oid_data) ∷ (48, elements (aes_of iv)) ∷ (128, content) ∷ []

abbrev pub recipient : Bytes → Bytes → List Item
recipient id key =
    (2, 2 ∷ []) ∷ (128, id) ∷ (48, elements ((6, oid_rsaes_oaep) ∷ [])) ∷ (4, key) ∷ []

abbrev pub fields_of : Bytes → Bytes → Bytes → Bytes → List Item
fields_of id key iv content =
    (2, 2 ∷ [])
    ∷ (49, elements ((48, elements (recipient id key)) ∷ []))
    ∷ (48, elements (info_of iv content))
    ∷ []

abbrev pub outer_of : Bytes → Bytes → Bytes → Bytes → List Item
outer_of id key iv content =
    (6, oid_enveloped_data) ∷ (160, element (48, elements (fields_of id key iv content))) ∷ []

unfoldable pub envelope_of : Bytes → Bytes → Bytes → Bytes → Bytes
envelope_of id key iv content = element (48, elements (outer_of id key iv content))

module _ (id key iv content : Bytes) (sized : length iv ≡ 16)
    (bounded : length id + (length key + length content) < 65000) where
  length-aes : length (elements (aes_of iv)) ≤ 9 + 4 + (16 + 4 + 0)
  length-aes =
      length-elements_le 6 9 (16 + 4 + 0) oid_aes_256_cbc ((4, iv) ∷ []) (omega arith)
        (length-elements_le 4 16 0 iv [] (omega (arith, sized)) length-elements_nil)

  length-info : length (elements (info_of iv content)) ≤ 9 + 4 + (33 + 4 + (length content + 4 + 0))
  length-info =
      length-elements_le 6 9 (33 + 4 + (length content + 4 + 0)) oid_data _ (omega arith) (
        length-elements_le 48 33 (length content + 4 + 0) (elements (aes_of iv)) _
          (omega (arith, length-aes))
          (length-elements_le 128 (length content) 0 content [] (omega arith) length-elements_nil))

  length-oaep : length (elements ((6, oid_rsaes_oaep) ∷ [])) ≤ 9 + 4 + 0
  length-oaep = length-elements_le 6 9 0 oid_rsaes_oaep [] (omega arith) length-elements_nil

  length-recipient :
      length (elements (recipient id key))
      ≤ 1 + 4 + (length id + 4 + (13 + 4 + (length key + 4 + 0)))
  length-recipient = length-elements_le 2 1 _ (2 ∷ []) _ (omega arith) (
      length-elements_le 128 (length id) _ id _ (omega arith) (
        length-elements_le 48 13 _ (elements ((6, oid_rsaes_oaep) ∷ [])) _
          (omega (arith, length-oaep))
          (length-elements_le 4 (length key) 0 key [] (omega arith) length-elements_nil)))

  length-recipients :
      length (elements ((48, elements (recipient id key)) ∷ []))
      ≤ length id + length key + 30 + 4 + 0
  length-recipients =
      length-elements_le 48 (length id + length key + 30) 0 (elements (recipient id key)) []
        (omega (arith, length-recipient)) length-elements_nil

  length-fields :
      length (elements (fields_of id key iv content))
      ≤ 1 + 4 + (length id + length key + 34 + 4 + (length content + 54 + 4 + 0))
  length-fields = length-elements_le 2 1 _ (2 ∷ []) _ (omega arith) (
      length-elements_le 49 (length id + length key + 34) _
        (elements ((48, elements (recipient id key)) ∷ [])) _ (omega (arith, length-recipients))
        (length-elements_le 48 (length content + 54) 0 (elements (info_of iv content)) []
          (omega (arith, length-info)) length-elements_nil))

  length-explicit :
      length (element (48, elements (fields_of id key iv content)))
      ≤ length id + length key + length content + 105
  length-explicit = omega (
    arith,
    length-element_le 48 (length id + length key + length content + 101)
        (elements (fields_of id key iv content)) (omega (arith, length-fields)),
  )

  length-outer :
      length (elements (outer_of id key iv content))
      ≤ 9 + 4 + (length id + length key + length content + 105 + 4 + 0)
  length-outer = length-elements_le 6 9 _ oid_enveloped_data _ (omega arith) (
      length-elements_le 160 (length id + length key + length content + 105) 0
        (element (48, elements (fields_of id key iv content))) [] length-explicit
        length-elements_nil)

  read_fields : children (elements (fields_of id key iv content)) ≡ ok (fields_of id key iv content)
  read_fields =
      children-elements (fields_of id key iv content)
        (omega arith, (omega (arith, length-recipients), (omega (arith, length-info, bounded), tt)))

  read_outer : children (elements (outer_of id key iv content)) ≡ ok (outer_of id key iv content)
  read_outer =
      children-elements (outer_of id key iv content)
        (omega arith, (omega (arith, length-explicit, bounded), tt))

  read_recipients :
      children (elements ((48, elements (recipient id key)) ∷ []))
      ≡ ok ((48, elements (recipient id key)) ∷ [])
  read_recipients =
      children-elements ((48, elements (recipient id key)) ∷ [])
        (omega (arith, length-recipient, bounded), tt)

  read_recipient : children (elements (recipient id key)) ≡ ok (recipient id key)
  read_recipient = children-elements (recipient id key) (
    omega arith,
    (omega (arith, bounded), (omega (arith, length-oaep), (omega (arith, bounded), tt))),
  )

  read_oaep : children (elements ((6, oid_rsaes_oaep) ∷ [])) ≡ ok ((6, oid_rsaes_oaep) ∷ [])
  read_oaep = children-elements ((6, oid_rsaes_oaep) ∷ []) (omega arith, tt)

  read_info : children (elements (info_of iv content)) ≡ ok (info_of iv content)
  read_info =
      children-elements (info_of iv content)
        (omega arith, (omega (arith, length-aes), (omega (arith, bounded), tt)))

  read_aes : children (elements (aes_of iv)) ≡ ok (aes_of iv)
  read_aes = children-elements (aes_of iv) (omega arith, (omega (arith, sized), tt))

  key_algorithm-recipient : key_algorithm (recipient id key) ≡ ok (some oid_rsaes_oaep)
  unfolding key_algorithm
  key_algorithm-recipient = rw read_oaep refl

  content_info-fields : content_info (fields_of id key iv content) ≡ ok (some (info_of iv content))
  unfolding content_info last_sequence
  content_info-fields = rw read_info refl

  first_sequence-info : first_sequence (info_of iv content) ≡ ok (some (aes_of iv))
  unfolding first_sequence find
  first_sequence-info = rw read_aes refl

  content_iv-aes : content_iv (some (aes_of iv)) ≡ ok iv
  unfolding content_iv expect
  content_iv-aes = rw sized refl

  -- The envelope of RFC 5652 for one recipient, with RSAES-OAEP for the key and AES-256-CBC for the content,
  -- is read as its three parts, for every recipient identifier, encrypted key and content of together
  -- fewer than 65,000 bytes and every initialisation vector of 16 bytes.
  pub parse_enveloped_data-envelope_of :
      parse_enveloped_data (envelope_of id key iv content)
      ≡ ok (record { encrypted_key = key; iv = iv; encrypted_content = content })
  unfolding parse_enveloped_data envelope_of expect find content_of recipient_of
  parse_enveloped_data-envelope_of =
      let whole =
        read_tlv-whole 48 (elements (outer_of id key iv content))
          (omega (arith, length-outer, bounded)) in
      let inner =
        read_tlv-whole 48 (elements (fields_of id key iv content))
          (omega (arith, length-fields, bounded)) in
      rw whole (
        rw read_outer (
          rw inner (
            rw read_fields (
              rw read_recipients (
                rw read_recipient (
                  rw key_algorithm-recipient
                    (rw content_info-fields (rw first_sequence-info (rw content_iv-aes refl)))))))))
