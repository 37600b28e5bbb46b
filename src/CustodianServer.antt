-- ===== src/CustodianServer.antt =====
-- scripts/custodian_server.py: the custodian's operations, who may call which, the limit on scope tokens, and
-- the entries that its ledger takes. HTTP and the sockets are left out; a payload is its keys and its values.
pub mod Tokens
pub mod Rate
use justi_key.Common.{
  ℕ, ◌+◌, ◌-◌, ◌*◌, Bool, true, false, not, ◌&&◌, ◌||◌, String, List, [], ◌∷◌, ◌++◌, Option, none,
  some, Result, ok, raise, if◌then◌else◌, ltb, leb, ◌==◌, any, keep, str_eq, length, is_some,
  is_truthy, Table, bind_option, ◌>>=◌, ◌>>◌,
}
use justi_key.Statements.{Statement, ProofStatement, Stored, has_text, text_of}
use justi_key.Library.{Library}
use justi_key.Custody.{Authenticators}
use justi_key.Presence.{value_error}
use justi_key.Kem.{Crypto}
use justi_key.Sealing.{Envelope, Json}
use justi_key.Usage.{Store}
use justi_key.Disclosure
use justi_key.Custodian.{
  Custodian, CustodianError, no_agreement, custody, presence, type_error, unprepared, call_failed,
  unhandled, Identity, Times, Opened, check_registries, check_approval, open_one,
}

pub data Operation : Type 0 where
  index search_token open_record publickey : Operation

pub data Role : Type 0 where
  ingest disclosure : Role

-- the keys of a payload, and what they hold
pub record Payload : Type 0 where
  pub keys : List String
  pub plate : Option String
  pub envelope : Option Envelope
  pub identity : Option Identity
  pub statement : Option Statement
  pub signature : Option String
  pub requester : String
  pub presence : Option ProofStatement
  pub presence_proof : Stored
  pub registry_versions : Option (Table ℕ)

pub data Reply : Type 0 where
  error : Reply
  token : String → Reply
  opened : Opened → Reply
  key_info : Reply

pub data Event : Type 0 where
  search_token_refused search_token_rate_limited index_rate_limited scope_token_issued : Event
  search_token_issued : Option ℕ → Event
  agreement_unavailable open_refused : Event
  open_granted : Option String → Event

pub record State : Type 0 where
  pub custodian : Custodian
  pub usage : Option Store
  pub index_key : String
  pub index_limit : ℕ
  pub allow_ingest_tokens : Bool
  pub search_calls : List ℕ
  pub index_calls : List ℕ
  pub ledger : List Event

-- ALLOWED_FIELDS, and OPERATION_ROLES
abbrev pub allowed_fields : Operation → List String
allowed_fields index = "plate" ∷ []
allowed_fields search_token = "statement" ∷ "signature" ∷ "registry_versions" ∷ []
allowed_fields open_record =
    "envelope" ∷ "identity" ∷ "statement" ∷ "signature" ∷ "requester" ∷ "presence"
    ∷ "presence_proof" ∷ "registry_versions" ∷ []
allowed_fields publickey = []

abbrev pub may_call : Role → Operation → Bool
may_call ingest index = true
may_call ingest publickey = true
may_call disclosure search_token = true
may_call disclosure open_record = true
may_call disclosure publickey = true
may_call _ _ = false

-- the keys of OPERATION_ROLES
unfoldable pub operation_of : String → Option Operation
operation_of name =
    if str_eq name "index"
    then some index
    else if str_eq name "search-token"
    then some search_token
    else if str_eq name "open"
    then some open_record
    else if str_eq name "publickey"
    then some publickey
    else none

-- the calls of the last 60 seconds; moments in microseconds, in their order
unfoldable pub recent : ℕ → List ℕ → List ℕ
recent now [] = []
recent now (call ∷ calls) = if ltb 60000000 (now - call) then recent now calls else call ∷ calls

-- `_rate_ok`: the bucket after it, and the answer
unfoldable pub rate_ok : ℕ → ℕ → List ℕ → List ℕ × Bool
unfolding recent
rate_ok limit now calls =
    if limit == 0
    then (calls, true)
    else if leb limit (length (recent now calls))
    then (recent now calls, false)
    else (recent now calls ++ now ∷ [], true)

module _ (lib : Library) where
  -- `blind_index`
  unfoldable pub blind_index : State → String → String
  unfolding Disclosure.blind_index
  blind_index s plate = Disclosure.blind_index lib s.index_key plate

  abbrev record_event : State → Event → State
  record_event s event = record s { ledger = event ∷ s.ledger }

  issue : State → Statement → ℕ → State × (Reply × ℕ)
  issue s st now =
      let (calls, granted) = rate_ok s.index_limit now s.search_calls in
      let s' = record s { search_calls = calls } in
      if granted
      then (
        record_event s' (search_token_issued st.authorization_id),
        (token (blind_index s (text_of st.target_plate)), 200),
      )
      else (record_event s' search_token_rate_limited, (error, 429))

  -- what `op_search_token` verifies
  unfoldable pub check_search :
      State → String → Payload → Statement → Result CustodianError (Unit {0})
  check_search s now p st =
      check_registries s.custodian.registry_versions p.registry_versions
      >> check_approval lib s.custodian now (some st) p.signature (text_of st.requester)

  answer_search : State → Statement → ℕ → Result CustodianError (Unit {0}) → State × (Reply × ℕ)
  answer_search s st at (raise e) = (record_event s search_token_refused, (error, 403))
  answer_search s st at (ok _) = issue s st at

  -- `op_search_token`, with the time of the check and the moment of the limit
  unfoldable pub op_search_token : State → String → ℕ → Payload → State × (Reply × ℕ)
  unfolding answer_search issue check_search
  op_search_token s now at p = elim p.statement [
    | none ↦ (s, (error, 403))
    | some st ↦ answer_search s st at (check_search s now p st)
  ]

  -- `op_index`
  unfoldable pub op_index : State → ℕ → Payload → State × (Reply × ℕ)
  op_index s at p =
      if not (is_truthy (lib.strip (text_of p.plate)))
      then (s, (error, 400))
      else let (calls, granted) = rate_ok s.index_limit at s.index_calls in
        let s' = record s { index_calls = calls } in
        if granted
        then (record_event s' scope_token_issued, (token (blind_index s (text_of p.plate)), 200))
        else (record_event s' index_rate_limited, (error, 429))

  module _ (web : Authenticators) (crypto : Crypto) (json : Json) where
    answer_open :
        State → Option String → Option Store × Result CustodianError Opened → State × (Reply × ℕ)
    answer_open s uid (usage, raise (no_agreement unprepared)) =
        (record_event (record s { usage = usage }) agreement_unavailable, (error, 503))
    answer_open s uid (usage, raise (no_agreement call_failed)) =
        (record_event (record s { usage = usage }) agreement_unavailable, (error, 503))
    -- what is no CustodianError passes through, and nothing is written
    answer_open s uid (usage, raise (no_agreement unhandled)) =
        (record s { usage = usage }, (error, 500))
    answer_open s uid (usage, raise (custody e)) = (record s { usage = usage }, (error, 500))
    answer_open s uid (usage, raise (presence value_error)) =
        (record s { usage = usage }, (error, 500))
    answer_open s uid (usage, raise type_error) = (record s { usage = usage }, (error, 500))
    answer_open s uid (usage, raise e) =
        (record_event (record s { usage = usage }) open_refused, (error, 403))
    answer_open s uid (usage, ok o) =
        (record_event (record s { usage = usage }) (open_granted uid), (opened o, 200))

    -- `op_open`
    unfoldable pub op_open : State → Times → Payload → State × (Reply × ℕ)
    unfolding answer_open
    op_open s t p = elim p.envelope [
      | none ↦ (s, (error, 400))
      | some envelope ↦ elim p.identity [
        | none ↦ (s, (error, 400))
        | some identity ↦ answer_open s envelope.record_uid (
            open_one lib web crypto json (blind_index s) s.custodian t s.usage (record {
              envelope = envelope;
              identity = identity;
              statement = p.statement;
              signature = p.signature;
              requester = p.requester;
              proof_statement = p.presence;
              proof = p.presence_proof;
              registry_versions = p.registry_versions;
            }))
      ]
    ]

    abbrev known_keys : Operation → Payload → Bool
    known_keys op p = not (any (λ key. not (any (str_eq key) (allowed_fields op))) p.keys)

    call_operation : State → Times → ℕ → Operation → Payload → State × (Reply × ℕ)
    unfolding op_search_token op_index op_open
    call_operation s t at index p = op_index s at p
    call_operation s t at search_token p = op_search_token s t.approval at p
    call_operation s t at open_record p = op_open s t p
    call_operation s t at publickey p = (s, (key_info, 200))

    -- `dispatch`, with the times that the operations read
    unfoldable pub dispatch : State → Times → ℕ → String → Payload → Role → State × (Reply × ℕ)
    unfolding operation_of call_operation
    dispatch s t at name p role = elim (operation_of name) [
      | none ↦ (s, (error, 404))
      | some op ↦
          if not (may_call role op)
          then (s, (error, 403))
          else if (str_eq name "index") && not s.allow_ingest_tokens
          then (s, (error, 403))
          else if not (known_keys op p)
          then (s, (error, 400))
          else call_operation s t at op p
    ]
