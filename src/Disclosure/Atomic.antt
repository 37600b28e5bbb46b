-- ===== src/Disclosure/Atomic.antt =====
-- `disclose` as a whole: what it needs, what it opens, and what a refusal costs.
use justi_key.Common.{
  some_inj, ℕ, ◌≡◌, ap, subst, sym, ◌∙◌, String, Option, none, some, arith, Result, ok, raise,
  str_eq_iff, inl, inr, keep, Result-cases, Option-cases, ◌>>=◌, >>=-eq-ok, >>-eq-ok, some_or,
  some_or-some, require, require-true, str_eq,
}
use justi_key.Statements.{Statement, text_of}
use justi_key.Library.{Library}
use justi_key.Custody.{Authenticators}
use justi_key.Presence.{Present}
use justi_key.Usage.{Store, Refusal, Outcome, claimed, refused, Claim, claim}
use justi_key.Disclosure.{
  Service, Times, Request, Disclosed, DisclosureError, malformed, other_requester, usage,
  no_index_key, sealing, blind_index, in_scope, reveal, verify_approval, verify_presence, admit,
  note_counter, claim_of, count_claimed, spend, open_covered, spend_and_open, after_checks,
  disclose,
}
use justi_key.Disclosure.Authority.{IsApproved, verify_approval-IsApproved}
use justi_key.Disclosure.Scope.{OpensAll, reveal-OpensAll, reveal-raise}

module _ (lib : Library) (web : Authenticators) (svc : Service) (t : Times) where
  -- What the checks establish of an admitted request.
  pub record IsAdmitted (s : Option Store) (req : Request) (st : Statement) (p : Option Present)
      : Type 0 where
    pub stated : req.statement ≡ some st
    pub approved : IsApproved lib svc t.approval req.signature st
    pub own : text_of st.requester ≡ req.requester
    pub presence : verify_presence lib web svc s t.presence st req ≡ ok p

  pub admit-IsAdmitted :
      (s : Option Store) (req : Request) (st : Statement) (p : Option Present)
      → admit lib web svc t s req ≡ ok (st, p)
      → IsAdmitted s req st p
  unfolding admit
  admit-IsAdmitted s req st p h =
      let (public_hex, passed, h1) =
        >>=-eq-ok (verify_approval lib svc t.approval req.statement req.signature) _ h in
      let (st0, stated, approved) =
        verify_approval-IsApproved lib svc t.approval req.statement req.signature public_hex
          passed in
      let (st1, given, h2) = >>=-eq-ok (some_or req.statement malformed) _ h1 in
      let (own, h3) =
        >>-eq-ok (require (str_eq (text_of st1.requester) req.requester) other_requester) _ h2 in
      let (p1, present, h4) = >>=-eq-ok (verify_presence lib web svc s t.presence st1 req) _ h3 in
      let carried = some_or-some req.statement malformed st1 given in
      let e : st1 ≡ st = cc in
      let q : p1 ≡ p = cc in
      let e0 : st0 ≡ st = some_inj (sym stated ∙ carried) ∙ e in
      record {
        stated = carried ∙ ap some e;
        approved = subst (IsApproved lib svc t.approval req.signature) e0 approved;
        own =
            subst (λ (x : Statement). text_of x.requester ≡ req.requester) e
              ((str_eq_iff (text_of st1.requester) req.requester).0
                (require-true (str_eq (text_of st1.requester) req.requester) other_requester own));
        presence =
            subst (λ (x : Statement). verify_presence lib web svc s t.presence x req ≡ ok p) e
              (present ∙ ap ok q);
      }

  count_claimed_late :
      (o : Outcome) (e : DisclosureError)
      → count_claimed o ≡ raise e
      → (r : Refusal) × (e ≡ usage r)
  count_claimed_late (claimed k) e h = cc
  count_claimed_late (refused k r) e h = (r, ground arith)

  open_covered-OpensAll :
      (st : Statement) (p : Option Present) (req : Request) (count : Option ℕ) (d : Disclosed)
      → open_covered lib web svc st p req count ≡ ok d
      → (key : String) × (svc.index_key ≡ some key)
        × (d.presence ≡ p)
        × (d.use_count ≡ count)
        × OpensAll svc.opener
            (keep (in_scope (blind_index lib key (text_of st.target_plate)) st) req.rows)
            d.opened
  unfolding open_covered
  open_covered-OpensAll st p req count d h = elim (Option-cases svc.index_key) [
    | inl none' ↦ absurd (ground arith)
    | inr (key, held) ↦
        let covers = in_scope (blind_index lib key (text_of st.target_plate)) st in
        elim (Result-cases (reveal svc.opener covers req.rows)) [
          | inl (e, failed) ↦ absurd (ground arith)
          | inr (out, revealed) ↦
              let e : out ≡ d.opened = ground arith in
              (
                key,
                held,
                ground arith,
                ground arith,
                reveal-OpensAll svc.opener covers req.rows d.opened (revealed ∙ ap ok e),
              )
        ]
  ]

  -- A refusal that comes from the checks, and not from the usage store or from the opening.
  abbrev pub IsEarly : DisclosureError → Type 0
  IsEarly (usage _) = ⊥
  IsEarly no_index_key = ⊥
  IsEarly sealing = ⊥
  IsEarly _ = Unit

  spend_and_open-OpensAll :
      (s : Option Store) (req : Request) (st : Statement) (p : Option Present) (d : Disclosed)
      → (spend_and_open lib web svc t s req (st, p)).1 ≡ ok d
      → (key : String) × (svc.index_key ≡ some key)
        × (d.presence ≡ p)
        × OpensAll svc.opener
            (keep (in_scope (blind_index lib key (text_of st.target_plate)) st) req.rows)
            d.opened
  unfolding spend_and_open
  spend_and_open-OpensAll s req st p d h =
      let (count, _, opened) =
        >>=-eq-ok (spend (note_counter t.usage s p) t.usage (claim_of svc st p req)).1
          (open_covered lib web svc st p req) h in
      let (key, held, same, _, all) = open_covered-OpensAll st p req count d opened in
      (key, held, same, all)

  open_covered_late :
      (st : Statement) (p : Option Present) (req : Request) (count : Option ℕ) (e : DisclosureError)
      → open_covered lib web svc st p req count ≡ raise e
      → ¬ IsEarly e
  unfolding open_covered
  open_covered_late st p req count e h = elim (Option-cases svc.index_key) [
    | inl none' ↦
        let same : e ≡ no_index_key = ground arith in
        subst (λ (x : DisclosureError). ¬ IsEarly x) (sym same) (λ x. x)
    | inr (key, held) ↦
        let covers = in_scope (blind_index lib key (text_of st.target_plate)) st in
        elim (Result-cases (reveal svc.opener covers req.rows)) [
          | inl (e', failed) ↦
              let same : e ≡ sealing =
                ground (arith, reveal-raise svc.opener covers req.rows e' failed) in
              subst (λ (x : DisclosureError). ¬ IsEarly x) (sym same) (λ x. x)
          | inr (out, revealed) ↦ absurd (ground arith)
        ]
  ]

  spend_late :
      (s : Option Store) (now : String) (c : Claim) (e : DisclosureError)
      → (spend s now c).1 ≡ raise e
      → (r : Refusal) × (e ≡ usage r)
  unfolding spend
  spend_late none now c e h = cc
  spend_late (some s) now c e h = count_claimed_late (claim s now c).1 e h

  -- After the spending only the usage store, a missing index key and the opener refuse.
  spend_and_open_late :
      (s : Option Store) (req : Request) (st : Statement) (p : Option Present) (e : DisclosureError)
      → (spend_and_open lib web svc t s req (st, p)).1 ≡ raise e
      → ¬ IsEarly e
  unfolding spend_and_open
  spend_and_open_late s req st p e h =
      let spent = (spend (note_counter t.usage s p) t.usage (claim_of svc st p req)).1 in
      elim (Result-cases spent) [
        | inl (e', failed) ↦
            let (r, same) =
              spend_late (note_counter t.usage s p) t.usage (claim_of svc st p req) e' failed in
            let e' : e' ≡ e = ground arith in
            subst (λ (x : DisclosureError). ¬ IsEarly x) (sym same ∙ e') (λ x. x)
        | inr (count, ok') ↦ open_covered_late st p req count e (
            subst
              (λ (r : Result DisclosureError (Option ℕ)).
                (r >>= open_covered lib web svc st p req) ≡ raise e)
              ok' h)
      ]

  -- What a successful disclosure rests on. The request carried a statement that is approved: complete,
  -- signed in full by the enrolled, unrevoked key of an approver other than the requester, neither
  -- expired nor dated in the future. The approval is the caller's own, and the presence that the
  -- policy asks for was verified. What is returned is, in order, exactly those candidate rows whose
  -- blind index is that of the approved plate under the service's own key and whose time lies in the
  -- approved window, each with the fields that the opener recovers from it.
  pub disclose_needs :
      (s : Option Store) (req : Request) (d : Disclosed)
      → (disclose lib web svc t s req).1 ≡ ok d
      → (st : Statement) × IsAdmitted s req st d.presence
        × (key : String) × (svc.index_key ≡ some key)
        × OpensAll svc.opener
            (keep (in_scope (blind_index lib key (text_of st.target_plate)) st) req.rows)
            d.opened
  unfolding disclose after_checks
  disclose_needs s req d h = elim (Result-cases (admit lib web svc t s req)) [
    | inl (e, failed) ↦ absurd (ground arith)
    | inr ((st, p), admitted) ↦
        let (key, held, same, all) = spend_and_open-OpensAll s req st p d (
          subst
            (λ (r : Result DisclosureError (Statement × Option Present)).
              (after_checks lib web svc t s req r).1 ≡ ok d)
            admitted h) in
        (
          st,
          subst (IsAdmitted s req st) (sym same) (admit-IsAdmitted s req st p admitted),
          key,
          held,
          all,
        )
  ]

  -- A refusal by one of the checks costs nothing: the usage store is exactly as it was, with the count
  -- of the approval, the presence nonces and the counters.
  pub disclose_refusal_keeps :
      (s : Option Store) (req : Request) (e : DisclosureError)
      → (disclose lib web svc t s req).1 ≡ raise e
      → IsEarly e
      → (disclose lib web svc t s req).0 ≡ s
  unfolding disclose after_checks
  disclose_refusal_keeps s req e h early = elim (Result-cases (admit lib web svc t s req)) [
    | inl (e', failed) ↦ rw (failed, after_checks)
    | inr ((st, p), admitted) ↦ absurd (
        spend_and_open_late s req st p e
          (subst
            (λ (r : Result DisclosureError (Statement × Option Present)).
              (after_checks lib web svc t s req r).1 ≡ raise e)
            admitted h)
          early)
  ]
