-- ===== src/Custodian/Spending.antt =====
-- What reaches the agreement, and what is spent before it, in `Custodian.open` of justikey/custodian.py.
use justi_key.Common.{
  some_inj, ℕ, ◌≡◌, refl, sym, subst, ◌∙◌, true, false, String, List, Option, some, arith, Result,
  ok, raise, inl, inr, Result-cases, Option-cases, bind_option, map_option, text_lt, All,
}
use justi_key.Statements.{Statement, ProofStatement, text_of}
use justi_key.Library.{Library}
use justi_key.Custody.{Authenticators}
use justi_key.Kem.{Bytes, Crypto}
use justi_key.Sealing.{Json, aad_for, open_shared}
use justi_key.Presence.{Present}
use justi_key.Usage.{Store, Outcome, claimed, refused, presence_used, Claim, claim, text_or}
use justi_key.Usage.Trace.{Op, op_time, run, is_claimed}
use justi_key.Usage.Replay.{claim_presence_once}
use justi_key.Custodian.Opening.{admit-IsAdmitted, open_one-admitted}
use justi_key.Custodian.{
  sighting_of, Custodian, CustodianError, usage, no_agreement, could_not_open, AgreementError, Call,
  Times, Opened, Admitted, check_envelope, approver_key, check_approval, prove_presence,
  check_presence, admit, claim_of, counted, spend, derive_and_open, spend_and_open, open_one,
}

-- A refusal before the agreement: of the checks, or of the usage store.
abbrev pub IsEarly : CustodianError → Type 0
IsEarly could_not_open = ⊥
IsEarly (no_agreement _) = ⊥
IsEarly _ = Unit

-- another backend, which holds the same keys
abbrev pub with_backend : Custodian → (Bytes → Result AgreementError Bytes) → Custodian
with_backend c other = record c {
  agreement = record { accepts = c.agreement.accepts; agree = other };
}

module _ (lib : Library) (web : Authenticators) (crypto : Crypto) (json : Json)
    (blind_index_of : String → String) where
  admit-with_backend :
      (c : Custodian) (other : Bytes → Result AgreementError Bytes) (t : Times) (call : Call)
      → admit lib web crypto json blind_index_of (with_backend c other) t call
        ≡ admit lib web crypto json blind_index_of c t call
  unfolding admit check_envelope check_approval approver_key check_presence prove_presence
  admit-with_backend c other t call = refl

  derive_and_open_late :
      (c : Custodian) (call : Call) (a : Admitted) (count : Option ℕ) (e : CustodianError)
      → derive_and_open lib web crypto json c call a count ≡ raise e
      → ¬ IsEarly e
  unfolding derive_and_open
  derive_and_open_late c call a count e h =
      elim (Option-cases (bind_option call.envelope.ephemeral_pub crypto.b64decode)) [
        | inl none' ↦
            let same : could_not_open ≡ e = ground arith in subst (λ x. ¬ IsEarly x) same (λ x. x)
        | inr (peer, decoded) ↦ elim (Result-cases (c.agreement.agree peer)) [
          | inl (e', failed) ↦
              let same : no_agreement e' ≡ e = ground arith in
              subst (λ x. ¬ IsEarly x) same (λ x. x)
          | inr (shared, agreed) ↦
              let o =
                open_shared crypto json call.envelope
                  (aad_for json call.envelope (sighting_of call.identity)) shared in
              elim (Option-cases o) [
                | inl shut ↦
                    let same : could_not_open ≡ e = ground arith in
                    subst (λ x. ¬ IsEarly x) same (λ x. x)
                | inr (fields, opened) ↦ absurd (ground arith)
              ]
        ]
      ]

  spend_and_open_early :
      (c : Custodian) (other : Bytes → Result AgreementError Bytes) (t : Times) (s : Option Store)
      (call : Call) (r : Result CustodianError Admitted) (e : CustodianError)
      → (spend_and_open lib web crypto json c t s call r).1 ≡ raise e
      → IsEarly e
      → spend_and_open lib web crypto json (with_backend c other) t s call r
        ≡ spend_and_open lib web crypto json c t s call r
  unfolding spend_and_open
  spend_and_open_early c other t s call (raise e') e h early = refl
  spend_and_open_early c other t s call (ok a) e h early =
      elim (Result-cases (spend s t.usage (claim_of c call a)).1) [
        | inl (e', failed) ↦ rw failed refl
        | inr (count, spent) ↦ absurd (derive_and_open_late c call a count e (ground arith) early)
      ]

  -- No secret is derived for a call that is refused before the agreement: where the refusal is not of the
  -- agreement or of what follows it, any other backend that holds the same keys gives the same refusal
  -- and leaves the same usage store, so the backend was not asked.
  pub open_early :
      (c : Custodian) (other : Bytes → Result AgreementError Bytes) (t : Times) (s : Option Store)
      (call : Call) (e : CustodianError)
      → (open_one lib web crypto json blind_index_of c t s call).1 ≡ raise e
      → IsEarly e
      → open_one lib web crypto json blind_index_of (with_backend c other) t s call
        ≡ open_one lib web crypto json blind_index_of c t s call
  unfolding open_one
  open_early c other t s call e h early = rw (admit-with_backend c other t call) (
      spend_and_open_early c other t s call (admit lib web crypto json blind_index_of c t call) e h
        early)

-- when the row of the spent presence nonce may go: with the proof, or with the approval where it has no time
abbrev pub kept_until : Call → String
kept_until call =
    text_or (bind_option call.proof_statement (λ (p : ProofStatement). p.expires_at))
      (text_of (bind_option call.statement (λ (st : Statement). st.approval_expires_at)))

counted_granted : (o : Outcome) (k : Option ℕ) → counted o ≡ ok k → is_claimed o ≡ true
counted_granted (claimed n) k h = refl
counted_granted (refused n r) k h = cc

module _ (lib : Library) (web : Authenticators) (crypto : Crypto) (json : Json)
    (blind_index_of : String → String) where
  spend_granted :
      (s : Store) (now : String) (c : Claim) (k : Option ℕ)
      → (spend (some s) now c).1 ≡ ok k
      → is_claimed (claim s now c).1 ≡ true
  unfolding spend
  spend_granted s now c k h = counted_granted (claim s now c).1 k h

  kept_for :
      (c : Custodian) (t : Times) (call : Call) (a : Admitted)
      → admit lib web crypto json blind_index_of c t call ≡ ok a
      → text_or (claim_of c call a).presence_expires_at (claim_of c call a).expires_at
        ≡ kept_until call
  kept_for c t call a admitted =
      let parts = admit-IsAdmitted lib web crypto json blind_index_of c t call a admitted in
      rw parts.stated refl

  spent_store :
      (c : Custodian) (t : Times) (s : Store) (call : Call) (a : Admitted)
      → admit lib web crypto json blind_index_of c t call ≡ ok a
      → (open_one lib web crypto json blind_index_of c t (some s) call).0
        ≡ some (claim s t.usage (claim_of c call a)).0
  unfolding open_one spend_and_open spend
  spent_store c t s call a h = rw h refl

  nonce_claimed :
      (c : Custodian) (call : Call) (a : Admitted) (o : Opened) (n : String)
      → o.presence ≡ a.present
      → map_option (λ (p : Present). p.request_nonce) o.presence ≡ some n
      → (claim_of c call a).presence_nonce ≡ some n
  nonce_claimed c call a o n same h =
      subst (λ (p : Option Present). map_option (λ (q : Present). q.request_nonce) p ≡ some n) same
        h

  refused_late :
      (c : Custodian) (t : Times) (s : Store) (call : Call) (a : Admitted)
      → admit lib web crypto json blind_index_of c t call ≡ ok a
      → (claim s t.usage (claim_of c call a)).1 ≡ refused 0 presence_used
      → (open_one lib web crypto json blind_index_of c t (some s) call).1
        ≡ raise (usage presence_used)
  unfolding open_one spend_and_open spend
  refused_late c t s call a h k = rw h (rw k refl)

  -- One proof of presence opens one record. After a record is opened with a proof of presence, then
  -- whatever calls the usage store serves while that proof has not expired, a further call that passes
  -- every check with the same presence nonce, for this record or for another, is refused as already used.
  pub open_presence_once :
      (c : Custodian) (t t' : Times) (s s' : Store) (call call' : Call) (o : Opened) (a' : Admitted)
      (n : String) (ops : List Op)
      → (open_one lib web crypto json blind_index_of c t (some s) call).1 ≡ ok o
      → (open_one lib web crypto json blind_index_of c t (some s) call).0 ≡ some s'
      → map_option (λ (p : Present). p.request_nonce) o.presence ≡ some n
      → All (λ op. text_lt (kept_until call) (op_time op) ≡ false) ops
      → text_lt (kept_until call) t'.usage ≡ false
      → admit lib web crypto json blind_index_of c t' call' ≡ ok a'
      → map_option (λ (p : Present). p.request_nonce) a'.present ≡ some n
      → (open_one lib web crypto json blind_index_of c t' (some (run s' ops)) call').1
        ≡ raise (usage presence_used)
  open_presence_once c t t' s s' call call' o a' n ops h hs hn before fresh admitted' hn' =
      let (a, admitted, _, spent, present, _) =
        open_one-admitted lib web crypto json blind_index_of c t (some s) call o h in
      let first = claim_of c call a in
      let left : s' ≡ (claim s t.usage first).0 =
        some_inj (sym hs ∙ spent_store c t s call a admitted) in
      let kept : text_or first.presence_expires_at first.expires_at ≡ kept_until call =
        kept_for c t call a admitted in
      let once =
        claim_presence_once n s t.usage t'.usage first (claim_of c call' a') ops
          (nonce_claimed c call a o n present hn) hn'
          (spend_granted s t.usage first o.use_count spent)
          (subst (λ e. All (λ op. text_lt e (op_time op) ≡ false) ops) (sym kept) before)
          (subst (λ e. text_lt e t'.usage ≡ false) (sym kept) fresh) in
      refused_late c t' (run s' ops) call' a' admitted' (
        subst (λ x. (claim (run x ops) t'.usage (claim_of c call' a')).1 ≡ refused 0 presence_used)
          (sym left) once)
