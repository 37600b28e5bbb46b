-- ===== src/CustodianServer/Tokens.antt =====
-- Which scope tokens a caller of scripts/custodian_server.py gets.
use justi_key.Common.{
  ℕ, ◌≡◌, refl, Bool, true, false, not, ◌&&◌, String, Option, some, Result, ok, arith,
  if◌then◌else◌, Option-cases, Result-cases, inl, inr, >>-eq-ok, str_eq,
}
use justi_key.Statements.{Statement, text_of}
use justi_key.Library.{Library}
use justi_key.Custody.{Authenticators}
use justi_key.Kem.{Crypto}
use justi_key.Sealing.{Json}
use justi_key.Usage.{Store}
use justi_key.Custodian.{CustodianError, Times, Opened, check_registries, check_approval}
use justi_key.Custodian.Opening.{StatesAll, check_registries-StatesAll}
use justi_key.CustodianServer.{
  Operation, index, search_token, open_record, publickey, disclosure, Payload, Reply, error, token,
  State, may_call, known_keys, operation_of, blind_index, issue, check_search, answer_search,
  op_search_token, answer_open, op_open, call_operation, dispatch,
}

-- the guards of `dispatch` answer no token
guarded :
    {A : Type 0} (a b c : Bool) (s : A) (r : A × (Reply × ℕ)) (x : String) (n : ℕ)
    → (if a
        then (s, (error, 403))
        else if b
        then (s, (error, 403))
        else if c
        then (s, (error, 400))
        else r).1
      ≡ (token x, n)
    → r.1 ≡ (token x, n)
guarded true b c s r x n h = cc
guarded false true c s r x n h = cc
guarded false false true s r x n h = cc
guarded false false false s r x n h = h

module _ (lib : Library) (web : Authenticators) (crypto : Crypto) (json : Json) where
  answer_open_none :
      (s : State) (uid : Option String) (r : Option Store × Result CustodianError Opened)
      (x : String) (n : ℕ)
      → (answer_open lib web crypto json s uid r).1 ≡ (token x, n)
      → ⊥
  unfolding answer_open
  answer_open_none s uid (usage, r) x n h = ground arith

  op_open_none :
      (s : State) (t : Times) (p : Payload) (x : String) (n : ℕ)
      → (op_open lib web crypto json s t p).1 ≡ (token x, n)
      → ⊥
  unfolding op_open
  op_open_none s t p x n h = elim (Option-cases p.envelope) [
    | inl missing ↦ ground arith
    | inr (envelope, given) ↦ elim (Option-cases p.identity) [
      | inl missing ↦ ground arith
      | inr (identity, stated) ↦
          answer_open_none s envelope.record_uid _ x n (rw (given, stated) at h)
    ]
  ]

  checked_of :
      (s : State) (now : String) (p : Payload) (st : Statement)
      → check_search lib s now p st ≡ ok tt
      → StatesAll p.registry_versions s.custodian.registry_versions
        × (check_approval lib s.custodian now (some st) p.signature (text_of st.requester) ≡ ok tt)
  unfolding check_search
  checked_of s now p st h =
      let (stated, checked) =
        >>-eq-ok (check_registries s.custodian.registry_versions p.registry_versions) _ h in
      (check_registries-StatesAll s.custodian.registry_versions p.registry_versions stated, checked)

  issue_token :
      (s : State) (st : Statement) (at : ℕ) (x : String) (n : ℕ)
      → (issue lib s st at).1 ≡ (token x, n)
      → x ≡ blind_index lib s (text_of st.target_plate)
  unfolding issue
  issue_token s st at x n h = ground arith

  answered :
      (s : State) (now : String) (at : ℕ) (p : Payload) (st : Statement) {x : String} {n : ℕ}
      → p.statement ≡ some st
      → check_search lib s now p st ≡ ok tt
      → (op_search_token lib s now at p).1 ≡ (token x, n)
      → (issue lib s st at).1 ≡ (token x, n)
  unfolding op_search_token answer_search
  answered s now at p st stated passed h = rw (stated, passed) at h

  op_search_token-IsApproved :
      (s : State) (now : String) (at : ℕ) (p : Payload) (x : String) (n : ℕ)
      → (op_search_token lib s now at p).1 ≡ (token x, n)
      → (st : Statement) × (p.statement ≡ some st)
        × StatesAll p.registry_versions s.custodian.registry_versions
        × (check_approval lib s.custodian now (some st) p.signature (text_of st.requester) ≡ ok tt)
        × (x ≡ blind_index lib s (text_of st.target_plate))
  unfolding op_search_token
  op_search_token-IsApproved s now at p x n h = elim (Option-cases p.statement) [
    | inl missing ↦ absurd (ground arith)
    | inr (st, stated) ↦ elim (Result-cases (check_search lib s now p st)) [
      | inl (e, failed) ↦ absurd (ground arith)
      | inr (tt, passed) ↦
          let (registries, accepted) = checked_of s now p st passed in
          (
            st,
            stated,
            registries,
            accepted,
            issue_token s st at x n (answered s now at p st stated passed h),
          )
    ]
  ]

  called :
      (s : State) (t : Times) (at : ℕ) (op : Operation) (p : Payload) (x : String) (n : ℕ)
      → (call_operation lib web crypto json s t at op p).1 ≡ (token x, n)
      → may_call disclosure op ≡ true
      → (st : Statement) × (p.statement ≡ some st)
        × StatesAll p.registry_versions s.custodian.registry_versions
        × (check_approval lib s.custodian t.approval (some st) p.signature (text_of st.requester)
            ≡ ok tt)
        × (x ≡ blind_index lib s (text_of st.target_plate))
  unfolding call_operation
  called s t at index p x n h allowed = cc
  called s t at search_token p x n h allowed = op_search_token-IsApproved s t.approval at p x n h
  called s t at open_record p x n h allowed = absurd (op_open_none s t p x n h)
  called s t at publickey p x n h allowed = cc

  permitted :
      (a : Bool) {A : Type 0} (s : A) (r : A × (Reply × ℕ)) (x : String) (n : ℕ)
      → (if not a then (s, (error, 403)) else r).1 ≡ (token x, n)
      → a ≡ true
  permitted true s r x n h = refl
  permitted false s r x n h = cc

  -- The disclosure host gets scope tokens for approved plates only. A caller in the disclosure role who
  -- names any operation with any payload and is answered with a scope token has presented an approval that
  -- the custodian's own check accepts at that time, has stated for each registry that the custodian holds the
  -- version that it holds, and the token is the blind index of the plate which that approval names.
  pub dispatch-token :
      (s : State) (t : Times) (at : ℕ) (name : String) (p : Payload) (x : String) (n : ℕ)
      → (dispatch lib web crypto json s t at name p disclosure).1 ≡ (token x, n)
      → (st : Statement) × (p.statement ≡ some st)
        × StatesAll p.registry_versions s.custodian.registry_versions
        × (check_approval lib s.custodian t.approval (some st) p.signature (text_of st.requester)
            ≡ ok tt)
        × (x ≡ blind_index lib s (text_of st.target_plate))
  unfolding dispatch
  dispatch-token s t at name p x n h = elim (Option-cases (operation_of name)) [
    | inl unknown ↦ absurd (ground arith)
    | inr (op, known) ↦
        called s t at op p x n
          (guarded (not (may_call disclosure op)) (str_eq name "index" && not s.allow_ingest_tokens)
            (not (known_keys lib web crypto json op p)) s
            (call_operation lib web crypto json s t at op p) x n (rw (known, dispatch) at h))
          (permitted (may_call disclosure op) s _ x n (rw (known, dispatch) at h))
  ]
