-- ===== src/Disclosure/Authority.antt =====
-- What must hold for `DisclosureService` to accept an approval and a proof of presence.
use justi_key.Common.{
  ◌≡◌, ◌≢◌, refl, ap, ◌∙◌, true, false, String, List, [], ◌∷◌, Option, none, some, text_lt, arith,
  lookup, ok, str_eq_iff, inl, inr, ◌↔◌, Option-cases, Bool-cases, All,
}
use justi_key.Statements.{Statement, Entry, text_of, opt_is, has_text, has_number}
use justi_key.Library.{Library}
use justi_key.Approvals.{statement_version, signing_key_id, verify_statement}
use justi_key.Presence.{first_missing}
use justi_key.Disclosure.{Service, required_texts, missing_field, approver_key, verify_approval}

-- A statement with a number that is not zero, and with no text of the nine that is null or empty.
abbrev pub IsComplete : Statement → Type 0
IsComplete st =
    (has_number st.authorization_id ≡ true)
    × All (λ (o : Option String). has_text o ≡ true)
        (st.target_plate ∷ st.window_start ∷ st.window_end ∷ st.requester ∷ st.approver
          ∷ st.approved_at ∷ st.approval_expires_at ∷ st.nonce ∷ st.approver_key_id ∷ [])

first_missing_iff :
    {F : Type 0} (fields : List (F × Option String))
    → (first_missing fields ≡ none) ↔ All (λ f. has_text f.1 ≡ true) fields
first_missing_iff [] = (λ h. tt, λ h. refl)
first_missing_iff ((f, o) ∷ rest) = elim (Bool-cases (has_text o)) [
  | inl there ↦ (
    λ h. (there, (first_missing_iff rest).0 (ground arith)),
    λ (_, all). rw there ((first_missing_iff rest).1 all),
  )
  | inr missing ↦ (λ h. absurd (ground arith), λ (there, _). absurd (ground arith))
]

-- the loop finds nothing missing exactly when the statement is complete
missing_field_iff : (st : Statement) → (missing_field st ≡ none) ↔ IsComplete st
unfolding missing_field
missing_field_iff st = elim (Bool-cases (has_number st.authorization_id)) [
  | inl there ↦ (
    λ h. (there, (first_missing_iff (required_texts st)).0 (rw (there, missing_field) at h)),
    λ (_, all). rw (there, missing_field) ((first_missing_iff (required_texts st)).1 all),
  )
  | inr missing ↦ (λ h. absurd (ground arith), λ (there, _). absurd (ground arith))
]

module _ (lib : Library) (svc : Service) (now : String) where
  -- An approval that the service accepts: complete, of the current schema, signed over its whole
  -- content by the enrolled and unrevoked key of an approver who is not the requester, not expired
  -- and not dated in the future.
  pub record IsApproved (signature : Option String) (st : Statement) : Type 0 where
    pub schema : opt_is st.v statement_version ≡ true
    pub complete : IsComplete st
    pub entry : Entry
    pub enrolled : lookup (text_of st.approver) svc.approvers ≡ some entry
    pub unrevoked : entry.revoked ≡ false
    pub same_key : signing_key_id lib (text_of entry.public_key) ≡ text_of st.approver_key_id
    pub two_persons : text_of st.approver ≢ text_of st.requester
    pub signed : verify_statement lib (some (text_of entry.public_key)) st signature ≡ true
    pub unexpired : text_lt (text_of st.approval_expires_at) now ≡ false
    pub not_future : text_lt now (text_of st.approved_at) ≡ false

  verify_approval_checks :
      (st : Statement) (signature : Option String) (public_hex : String)
      → verify_approval lib svc now (some st) signature ≡ ok public_hex
      → (a : IsApproved signature st) × (text_of a.entry.public_key ≡ public_hex)
  unfolding verify_approval approver_key
  verify_approval_checks st signature public_hex h =
      elim (Option-cases (lookup (text_of st.approver) svc.approvers)) [
        | inl unknown ↦ absurd (ground arith)
        | inr (e, found) ↦ (
          record {
            schema = ground arith;
            complete = (missing_field_iff st).0 (ground arith);
            entry = e;
            enrolled = found;
            unrevoked = ground arith;
            same_key = ground (
              arith,
              str_eq_iff (signing_key_id lib (text_of e.public_key)) (text_of st.approver_key_id),
            );
            two_persons = ground (arith, str_eq_iff (text_of st.approver) (text_of st.requester));
            signed = ground arith;
            unexpired = ground arith;
            not_future = ground arith;
          },
          ground arith,
        )
      ]

  verify_approval_accepts :
      (st : Statement) (signature : Option String) (a : IsApproved signature st)
      → verify_approval lib svc now (some st) signature ≡ ok (text_of a.entry.public_key)
  unfolding verify_approval approver_key
  verify_approval_accepts st signature a = ground (
    arith,
    (missing_field_iff st).1 a.complete,
    a.enrolled,
    a.unrevoked,
    str_eq_iff (signing_key_id lib (text_of a.entry.public_key)) (text_of st.approver_key_id),
    str_eq_iff (text_of st.approver) (text_of st.requester),
  )

  pub verify_approval-IsApproved :
      (o : Option Statement) (signature : Option String) (public_hex : String)
      → verify_approval lib svc now o signature ≡ ok public_hex
      → (st : Statement) × (o ≡ some st) × IsApproved signature st
  verify_approval-IsApproved none signature public_hex h = absurd (unfold verify_approval in cc)
  verify_approval-IsApproved (some st) signature public_hex h =
      (st, refl, (verify_approval_checks st signature public_hex h).0)

  -- The approval check accepts a statement exactly when no required field of it is missing or empty, it is
  -- of the supported schema, and signed over its whole content by the key that is enrolled for its
  -- approver and not revoked, names that key, has an approver who is not the requester, and is neither
  -- expired nor dated in the future; and then it returns that enrolled key.
  pub verify_approval_iff :
      (st : Statement) (signature : Option String) (public_hex : String)
      → (verify_approval lib svc now (some st) signature ≡ ok public_hex)
        ↔ ((a : IsApproved signature st) × (text_of a.entry.public_key ≡ public_hex))
  verify_approval_iff st signature public_hex = (
    verify_approval_checks st signature public_hex,
    λ (a, same). verify_approval_accepts st signature a ∙ ap ok same,
  )
