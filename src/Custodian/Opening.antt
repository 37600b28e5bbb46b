-- ===== src/Custodian/Opening.antt =====
-- `Custodian.open` of justikey/custodian.py as a whole.
use justi_key.Common.{
  ℕ, ◌≡◌, refl, sym, ap, subst, ◌∙◌, true, String, [], ◌∷◌, Option, some, arith, Result, ok, raise,
  inl, inr, Option-cases, Bool-cases, >>=-eq-ok, >>-eq-ok, Table, lookup, bind_option, text_le,
  ◌==◌, map_error, some_or, some_or-some,
}
use justi_key.Statements.{Statement, text_of, opt_str_eq_iff}
use justi_key.Library.{Library}
use justi_key.Custody.{Authenticators}
use justi_key.Kem.{Bytes, Crypto}
use justi_key.Sealing.{Json, aad_for, open_shared}
use justi_key.Usage.{Store}
use justi_key.Custodian.{
  value_of, sighting_of, Custodian, CustodianError, malformed, no_agreement, could_not_open,
  AgreementError, Call, Times, Opened, Identity, Admitted, check_registries, check_envelope,
  check_approval, check_scope, check_presence, admit, claim_of, spend, derive_and_open,
  spend_and_open, open_one,
}

-- every version that the custodian holds is the one that the caller states
abbrev pub StatesAll : Option (Table ℕ) → Table ℕ → Type 0
StatesAll stated [] = Unit
StatesAll stated ((role, version) ∷ own) =
    (bind_option stated (lookup role) ≡ some version) × StatesAll stated own

pub check_registries-StatesAll :
    (own : Table ℕ) (stated : Option (Table ℕ))
    → check_registries own stated ≡ ok tt
    → StatesAll stated own
unfolding check_registries
check_registries-StatesAll [] stated h = tt
check_registries-StatesAll ((role, version) ∷ own) stated h =
    elim (Option-cases (bind_option stated (lookup role))) [
      | inl unstated ↦ absurd (ground arith)
      | inr (v, found) ↦ elim (Bool-cases (v == version)) [
        | inl same ↦
            let e : v ≡ version = ground arith in
            (found ∙ ap some e, check_registries-StatesAll own stated (ground arith))
        | inr other ↦ absurd (ground arith)
      ]
    ]

-- the record is of the approved plate, by the custodian's own index, and in the approved window
abbrev pub InScope : (String → String) → Identity → Statement → Type 0
InScope blind_index_of i st =
    (value_of i.plate_index ≡ some (blind_index_of (text_of st.target_plate)))
    × (captured : String) × (value_of i.captured_at ≡ some captured)
    × (text_le (text_of st.window_start) captured ≡ true)
    × (text_le captured (text_of st.window_end) ≡ true)

check_scope-InScope :
    (target : String) (i : Identity) (st : Statement)
    → check_scope target i st ≡ ok tt
    → (value_of i.plate_index ≡ some target)
      × (captured : String) × (value_of i.captured_at ≡ some captured)
      × (text_le (text_of st.window_start) captured ≡ true)
      × (text_le captured (text_of st.window_end) ≡ true)
unfolding check_scope
check_scope-InScope target i st h = elim (Option-cases (value_of i.captured_at)) [
  | inl null ↦ absurd (ground arith)
  | inr (captured, given) ↦ (
    ground (arith, opt_str_eq_iff (value_of i.plate_index) (some target)),
    captured,
    given,
    ground arith,
    ground arith,
  )
]

module _ (lib : Library) (web : Authenticators) (crypto : Crypto) (json : Json)
    (blind_index_of : String → String) where
  -- What the checks establish of a call: the registries are of one version, the record is one that the
  -- custodian may open, the approval stands, covers the record, and the requester is present.
  pub record IsAdmitted (c : Custodian) (t : Times) (call : Call) (a : Admitted) : Type 0 where
    pub registries : StatesAll call.registry_versions c.registry_versions
    pub envelope : check_envelope crypto c call.envelope call.identity ≡ ok a.suite
    pub approved :
        check_approval lib c t.approval call.statement call.signature call.requester ≡ ok tt
    pub stated : call.statement ≡ some a.statement
    pub scope : InScope blind_index_of call.identity a.statement
    pub present : check_presence lib web c t.presence a.statement call ≡ ok a.present

  pub admit-IsAdmitted :
      (c : Custodian) (t : Times) (call : Call) (a : Admitted)
      → admit lib web crypto json blind_index_of c t call ≡ ok a
      → IsAdmitted c t call a
  unfolding admit
  admit-IsAdmitted c t call a h =
      let (regs, h1) = >>-eq-ok (check_registries c.registry_versions call.registry_versions) _ h in
      let (name, env, h2) = >>=-eq-ok (check_envelope crypto c call.envelope call.identity) _ h1 in
      let (appr, h2') =
        >>-eq-ok (check_approval lib c t.approval call.statement call.signature call.requester) _
          h2 in
      let (st, given, h3) = >>=-eq-ok (some_or call.statement malformed) _ h2' in
      let (scope, h4) =
        >>-eq-ok (check_scope (blind_index_of (text_of st.target_plate)) call.identity st) _ h3 in
      let (p, pres, h5) = >>=-eq-ok (check_presence lib web c t.presence st call) _ h4 in
      let whole : record { statement = st; suite = name; present = p } ≡ a = ground arith in
      subst (IsAdmitted c t call) whole (record {
        registries = check_registries-StatesAll c.registry_versions call.registry_versions regs;
        envelope = env;
        approved = appr;
        stated = some_or-some call.statement malformed st given;
        scope =
            check_scope-InScope (blind_index_of (text_of st.target_plate)) call.identity st scope;
        present = pres;
      })

  -- The fields are what the record's ciphertext holds under the secret of one agreement with its
  -- ephemeral point, with the stated identity as associated data.
  abbrev pub Opens : Custodian → Call → Opened → Type 0
  Opens c call o =
      (peer : Bytes) × (shared : Bytes) × (bind_option call.envelope.ephemeral_pub crypto.b64decode
        ≡ some peer)
      × (c.agreement.agree peer ≡ ok shared)
      × (open_shared crypto json call.envelope
            (aad_for json call.envelope (sighting_of call.identity)) shared
          ≡ some o.fields)

  map_error_ok :
      (f : AgreementError → CustodianError) (r : Result AgreementError Bytes) (b : Bytes)
      → map_error f r ≡ ok b
      → r ≡ ok b
  map_error_ok f (ok b') b h = ground arith
  map_error_ok f (raise e) b h = cc

  derive_and_open-Opens :
      (c : Custodian) (call : Call) (a : Admitted) (count : Option ℕ) (o : Opened)
      → derive_and_open lib web crypto json c call a count ≡ ok o
      → Opens c call o × (o.use_count ≡ count) × (o.presence ≡ a.present) × (o.suite ≡ a.suite)
  unfolding derive_and_open
  derive_and_open-Opens c call a count o h =
      let (peer, h1, h2) =
        >>=-eq-ok
          (some_or (bind_option call.envelope.ephemeral_pub crypto.b64decode) could_not_open) _ h in
      let (shared, h3, h4) = >>=-eq-ok (map_error no_agreement (c.agreement.agree peer)) _ h2 in
      let (fields, h5, h6) = >>=-eq-ok _ _ h4 in
      let whole : record {
        fields = fields;
        use_count = count;
        presence = a.present;
        suite = a.suite;
      }
          ≡ o =
        ground arith in
      subst
        (λ (x : Opened).
          Opens c call x × (x.use_count ≡ count) × (x.presence ≡ a.present) × (x.suite ≡ a.suite))
        whole
        (
          (
            peer,
            shared,
            some_or-some (bind_option call.envelope.ephemeral_pub crypto.b64decode) could_not_open
                peer h1,
            map_error_ok no_agreement (c.agreement.agree peer) shared h3,
            some_or-some _ could_not_open fields h5,
          ),
          refl,
          refl,
          refl,
        )

  spend_and_open-Opens :
      (c : Custodian) (t : Times) (s : Option Store) (call : Call)
      (r : Result CustodianError Admitted) (o : Opened)
      → (spend_and_open lib web crypto json c t s call r).1 ≡ ok o
      → (a : Admitted) × (r ≡ ok a)
        × Opens c call o
        × ((spend s t.usage (claim_of c call a)).1 ≡ ok o.use_count)
        × (o.presence ≡ a.present)
        × (o.suite ≡ a.suite)
  unfolding spend_and_open
  spend_and_open-Opens c t s call (raise e) o h = cc
  spend_and_open-Opens c t s call (ok a) o h =
      let (count, spent, opened) =
        >>=-eq-ok (spend s t.usage (claim_of c call a)).1
          (derive_and_open lib web crypto json c call a) h in
      let (opens, same, present, suite) = derive_and_open-Opens c call a count o opened in
      (a, refl, opens, spent ∙ ap ok (sym same), present, suite)

  pub open_one-admitted :
      (c : Custodian) (t : Times) (s : Option Store) (call : Call) (o : Opened)
      → (open_one lib web crypto json blind_index_of c t s call).1 ≡ ok o
      → (a : Admitted) × (admit lib web crypto json blind_index_of c t call ≡ ok a)
        × Opens c call o
        × ((spend s t.usage (claim_of c call a)).1 ≡ ok o.use_count)
        × (o.presence ≡ a.present)
        × (o.suite ≡ a.suite)
  unfolding open_one
  open_one-admitted c t s call o h =
      spend_and_open-Opens c t s call (admit lib web crypto json blind_index_of c t call) o h

  -- A record is opened only if every check passes: the caller states exactly the registry versions that
  -- the custodian holds, the record is whole, of an accepted suite, sealed to a key that the custodian
  -- holds and with a valid ephemeral point, the custodian's own check of the approval accepts it for
  -- this requester, the record is of the approved plate by the custodian's own index and in the approved
  -- window, the check of presence returns what is reported, and the use of the approval was counted. The
  -- fields are those of the record's ciphertext under one agreement with its ephemeral point.
  pub open_needs :
      (c : Custodian) (t : Times) (s : Option Store) (call : Call) (o : Opened)
      → (open_one lib web crypto json blind_index_of c t s call).1 ≡ ok o
      → (a : Admitted) × IsAdmitted c t call a
        × Opens c call o
        × ((spend s t.usage (claim_of c call a)).1 ≡ ok o.use_count)
        × (o.presence ≡ a.present)
        × (o.suite ≡ a.suite)
  open_needs c t s call o h =
      let (a, admitted, opens, spent, present, suite) = open_one-admitted c t s call o h in
      (a, admit-IsAdmitted c t call a admitted, opens, spent, present, suite)
