-- ===== src/Custodian/Opinions.antt =====
-- `_check_approval` of justikey/custodian.py beside `verify_approval` of justikey/disclosure.py.
use justi_key.Common.{
  some_inj, ◌≡◌, refl, sym, ◌∙◌, subst, Bool, true, String, List, [], ◌∷◌, Option, none, some,
  arith, lookup, ok, is_ok, str_eq_iff, inl, inr, ◌↔◌, Option-cases, Result-cases, Bool-cases,
  str_eq_refl, All,
}
use justi_key.Statements.{Statement, text_of}
use justi_key.Library.{Library}
use justi_key.Approvals.{signing_key_id}
use justi_key.Disclosure.{Field, Service, verify_approval}
use justi_key.Disclosure.Authority.{
  IsComplete, IsApproved, verify_approval-IsApproved, verify_approval_iff,
}
use justi_key.Custodian.{
  Custodian, required, require_all, check_fields, approver_key, check_approval,
}

require_all_iff :
    (fields : List (Field × Bool)) → (require_all fields ≡ ok tt) ↔ All (λ f. f.1 ≡ true) fields
unfolding require_all
require_all_iff [] = (λ h. tt, λ h. refl)
require_all_iff ((f, there) ∷ rest) = elim (Bool-cases there) [
  | inl passed ↦ (
    λ h. (passed, (require_all_iff rest).0 (ground arith)),
    λ (_, all). rw passed ((require_all_iff rest).1 all),
  )
  | inr failed ↦ (λ h. absurd (ground arith), λ (passed, _). absurd (ground arith))
]

-- the custodian's loop passes a statement exactly when it is complete
check_fields_iff : (st : Statement) → (check_fields st ≡ ok tt) ↔ IsComplete st
unfolding check_fields
check_fields_iff st = require_all_iff (required st)

module _ (lib : Library) (c : Custodian) (svc : Service) (now : String) where
  -- a service with the custodian's registry of approvers
  abbrev pub peer_of : Service
  peer_of = record svc { approvers = c.approvers }

  check_approval_own :
      (o : Option Statement) (signature : Option String) (requester : String)
      → check_approval lib c now o signature requester ≡ ok tt
      → (st : Statement) × (o ≡ some st)
        × IsApproved lib peer_of now signature st
        × (text_of st.requester ≡ requester)
  unfolding check_approval approver_key
  check_approval_own none signature requester h = absurd (ground arith)
  check_approval_own (some st) signature requester h =
      elim (Option-cases (lookup (text_of st.approver) c.approvers)) [
        | inl unknown ↦ absurd (ground arith)
        | inr (e, found) ↦ (
          st,
          refl,
          record {
            schema = ground arith;
            complete = (check_fields_iff st).0 (ground arith);
            entry = e;
            enrolled = found;
            unrevoked = ground arith;
            same_key = ground (
              arith,
              str_eq_iff (signing_key_id lib (text_of e.public_key)) (text_of st.approver_key_id),
            );
            two_persons = ground (arith, str_eq_iff (text_of st.approver) (text_of st.requester));
            signed = ground arith;
            unexpired = ground arith;
            not_future = ground arith;
          },
          ground (arith, str_eq_iff (text_of st.requester) requester),
        )
      ]

  check_approval_accepts :
      (st : Statement) (signature : Option String)
      → IsApproved lib peer_of now signature st
      → check_approval lib c now (some st) signature (text_of st.requester) ≡ ok tt
  unfolding check_approval approver_key
  check_approval_accepts st signature a = ground (
    arith,
    (check_fields_iff st).1 a.complete,
    a.enrolled,
    a.unrevoked,
    str_eq_refl (text_of st.requester),
    str_eq_iff (signing_key_id lib (text_of a.entry.public_key)) (text_of st.approver_key_id),
    str_eq_iff (text_of st.approver) (text_of st.requester),
  )

  accepted :
      (o : Option Statement) (signature : Option String) (st : Statement)
      → o ≡ some st
      → IsApproved lib peer_of now signature st
      → is_ok (verify_approval lib peer_of now o signature) ≡ true
  accepted o signature st given a =
      rw
        (
          given,
          (verify_approval_iff lib peer_of now st signature (text_of a.entry.public_key)).1
              (a, refl),
        )
        refl

  approved :
      (o : Option Statement) (signature : Option String) (st : Statement)
      → o ≡ some st
      → is_ok (verify_approval lib peer_of now o signature) ≡ true
      → IsApproved lib peer_of now signature st
  approved o signature st given passed =
      elim (Result-cases (verify_approval lib peer_of now o signature)) [
        | inl (e, failed) ↦ absurd (ground arith)
        | inr (public_hex, h) ↦
            let (st', stated, a) =
              verify_approval-IsApproved lib peer_of now o signature public_hex h in
            subst (IsApproved lib peer_of now signature) (some_inj (sym stated ∙ given)) a
      ]

  -- The two opinions agree, though each checks on its own. With the same registry of approvers and at the
  -- same time, the custodian accepts an approval for a requester exactly when there is a statement that
  -- the disclosure service's own check accepts and that names that requester.
  pub check_approval_iff :
      (o : Option Statement) (signature : Option String) (requester : String)
      → (check_approval lib c now o signature requester ≡ ok tt) ↔ (
          (st : Statement) × (o ≡ some st)
          × (is_ok (verify_approval lib peer_of now o signature) ≡ true)
          × (text_of st.requester ≡ requester))
  check_approval_iff o signature requester = (
    λ h.
        let (st, given, a, own) = check_approval_own o signature requester h in
        (st, given, accepted o signature st given a, own),
    λ (st, given, passed, own).
        rw (given, sym own)
          (check_approval_accepts st signature (approved o signature st given passed)),
  )
