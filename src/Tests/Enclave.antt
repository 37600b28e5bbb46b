-- ===== src/Tests/Enclave.antt =====
-- The reader of elements and envelopes, at concrete bytes.
use justi_key.Common.{◌≡◌, ◌≢◌, refl, List, [], ◌∷◌, some, ok, raise, arith}
use justi_key.Kem.{Bytes}
use justi_key.Enclave.{
  Item, index_error, unfinished, children_from, children, parse_enveloped_data, content_iv,
}
use justi_key.Enclave.Ending.{children-ends}
use justi_key.Enclave.Reading.{envelope_of, parse_enveloped_data-envelope_of}

abbrev items : List Item
items = (2, 5 ∷ []) ∷ (48, []) ∷ (4, 1 ∷ 2 ∷ 3 ∷ []) ∷ []

-- bytes that are no element
abbrev cut : Bytes
cut = 48 ∷ []

children-ends_example : (children cut ≡ children_from 9 cut 0) × (children cut ≢ raise unfinished)
children-ends_example = children-ends 9 cut (omega arith)

abbrev iv : Bytes
iv = 1 ∷ 2 ∷ 3 ∷ 4 ∷ 5 ∷ 6 ∷ 7 ∷ 8 ∷ 9 ∷ 10 ∷ 11 ∷ 12 ∷ 13 ∷ 14 ∷ 15 ∷ 16 ∷ []

parse_enveloped_data-envelope_of_example :
    parse_enveloped_data (envelope_of (7 ∷ []) (8 ∷ 8 ∷ []) iv (9 ∷ []))
    ≡ ok (record { encrypted_key = 8 ∷ 8 ∷ []; iv = iv; encrypted_content = 9 ∷ [] })
parse_enveloped_data-envelope_of_example =
    parse_enveloped_data-envelope_of (7 ∷ []) (8 ∷ 8 ∷ []) iv (9 ∷ []) refl (omega arith)

-- an empty AlgorithmIdentifier is indexed without a check
run_empty_algorithm : content_iv (some []) ≡ raise index_error
unfolding content_iv
run_empty_algorithm = refl
