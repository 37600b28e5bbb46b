-- ===== src/Tests/CustodianServer.antt =====
-- The custodian's operations at concrete inputs.
use justi_key.Common.{ℕ, ◌≡◌, ◌≤◌, refl, false, List, [], ◌∷◌, none, some, ok, arith}
use justi_key.Statements.{Statement, absent, text_of}
use justi_key.Custodian.{check_approval}
use justi_key.Custodian.Opening.{StatesAll}
use justi_key.CustodianServer.{
  Payload, State, token, disclosure, operation_of, recent, rate_ok, blind_index, check_search,
  op_search_token, dispatch,
}
use justi_key.CustodianServer.Rate.{granted, within, rate_ok-le}
use justi_key.CustodianServer.Tokens.{dispatch-token}
use justi_key.Tests.Samples.{toy, no_hardware, statement, empty}
use justi_key.Tests.Custodian.{custodian, quick, plain, at_half_past, custody}

abbrev state : State
state = record {
  custodian = custodian;
  usage = some empty;
  index_key = "k";
  index_limit = 2;
  allow_ingest_tokens = false;
  search_calls = [];
  index_calls = [];
  ledger = [];
}

abbrev payload : Payload
payload = record {
  keys = "statement" ∷ "signature" ∷ "registry_versions" ∷ [];
  plate = none;
  envelope = none;
  identity = none;
  statement = some statement;
  signature = some "carolkeyABC123alice";
  requester = "";
  presence = none;
  presence_proof = absent;
  registry_versions = some (("approvers", 3) ∷ []);
}

run_token :
    (dispatch toy no_hardware quick plain state at_half_past 5 "search-token" payload disclosure).1
    ≡ (token "kABC123", 200)
unfolding custody operation_of recent rate_ok blind_index check_search op_search_token dispatch
run_token = refl

dispatch-token_example :
    (st : Statement) × (payload.statement ≡ some st)
    × StatesAll payload.registry_versions custodian.registry_versions
    × (check_approval toy custodian at_half_past.approval
          (some st)
          payload.signature
          (text_of st.requester)
        ≡ ok tt)
    × ("kABC123" ≡ blind_index toy state (text_of st.target_plate))
dispatch-token_example =
    dispatch-token toy no_hardware quick plain state at_half_past 5 "search-token" payload "kABC123"
      200 run_token

abbrev moments : List ℕ
moments = 5 ∷ 6 ∷ 7 ∷ 70000000 ∷ []

rate_ok-le_example : within 5 (granted 2 [] moments) ≤ 2
rate_ok-le_example =
    rate_ok-le 2 5 moments (omega arith)
      (omega arith, (omega arith, (omega arith, (omega arith, tt))))

-- the third call within the span is refused
run_granted : granted 2 [] moments ≡ 5 ∷ 6 ∷ 70000000 ∷ []
unfolding granted rate_ok recent
run_granted = refl
