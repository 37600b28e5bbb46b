-- ===== src/Disclosure/Cap.antt =====
-- The cap on disclosures, over every sequence of requests to one service.
use justi_key.Common.{
  ℕ, ◌+◌, ◌≤◌, ◌<◌, ◌≡◌, refl, sym, ap, ◌∙◌, Bool, true, false, ◌&&◌, String, List, [], ◌∷◌, Option,
  none, some, arith, Result, inl, inr, Result-cases, is_ok, str_eq, text_lt, bind_option, All,
  if◌then◌else◌, ◌>>=◌,
}
use justi_key.Statements.{Statement, text_of}
use justi_key.Library.{Library}
use justi_key.Custody.{Authenticators, Proved, by_software, by_hardware}
use justi_key.Presence.{Present}
use justi_key.Usage.{Store, Outcome, claimed, refused, claim, record_sign_count}
use justi_key.Usage.Trace.{Op, apply, grant, used, is_claimed}
use justi_key.Usage.Trace
use justi_key.Usage.Limit.{IsWithin, apply-Counts, used-le}
use justi_key.Disclosure.{
  Service, Times, Request, Disclosed, DisclosureError, admit, note_proved, note_counter, claim_of,
  spend, open_covered, count_claimed, spend_and_open, after_checks, disclose,
}
use justi_key.Disclosure.Atomic.{admit-IsAdmitted}

-- one request and the times at which it is served
pub record Call : Type 0 where
  pub times : Times
  pub request : Request

-- the nonce of the approval that a request presents
abbrev pub nonce_of : Request → String
nonce_of req = text_of (bind_option req.statement (λ (st : Statement). st.nonce))

abbrev pub expiry_of : Request → String
expiry_of req = text_of (bind_option req.statement (λ (st : Statement). st.approval_expires_at))

abbrev pub one_if : Bool → ℕ
one_if true = 1
one_if false = 0

module _ (lib : Library) (web : Authenticators) (svc : Service) (n expires : String) where
  -- how many of the requests are answered with a disclosure under the approval
  unfoldable pub disclosures : Store → List Call → ℕ
  disclosures s [] = 0
  disclosures s (c ∷ calls) =
      let (s', r) = disclose lib web svc c.times (some s) c.request in
      one_if (is_ok r && str_eq (nonce_of c.request) n)
      + elim s' [ none ↦ 0 | some s'' ↦ disclosures s'' calls ]

  -- What is asked of a request: it is served before the approval expires, and whatever statement it
  -- presents under the approval's nonce has the approval's expiry.
  abbrev pub IsTimely : Call → Type 0
  IsTimely c =
      (text_lt expires c.times.usage ≡ false)
      × (nonce_of c.request ≡ n → expiry_of c.request ≡ expires)

  abbrev Within : Store → Type 0
  Within s = IsWithin n expires svc.max_disclosures s

  -- the store after a request, and its disclosures
  abbrev Serves : Store → Call → Option Store × Result DisclosureError Disclosed → Type 0
  Serves s c (none, r) = ⊥
  Serves s c (some s', r) =
      Within s' × (used n s + one_if (is_ok r && str_eq (nonce_of c.request) n) ≤ used n s')

  note_proved-usage :
      (now : String) (s : Store) (p : Proved)
      → (note_proved now s p).authorization_usage ≡ s.authorization_usage
  unfolding note_proved record_sign_count
  note_proved-usage now s by_software = refl
  note_proved-usage now s (by_hardware credential count) = refl

  note_counter-Within :
      (now : String) (s : Store) (p : Option Present)
      → Within s
      → (s' : Store) × (note_counter now (some s) p ≡ some s') × Within s' × (used n s' ≡ used n s)
  unfolding note_counter used
  note_counter-Within now s none h = (s, refl, h, refl)
  note_counter-Within now s (some p) h = (
    note_proved now s p.proved,
    refl,
    rw (note_proved-usage now s p.proved) h,
    rw (note_proved-usage now s p.proved),
  )

  ok_claimed :
      {A : Type 0} (o : Outcome) (f : Option ℕ → Result DisclosureError A) (b : Bool)
      → one_if (is_ok (count_claimed o >>= f) && b)
        ≤ (if b then if is_claimed o then 1 else 0 else 0)
  ok_claimed (claimed k) f true = ground arith
  ok_claimed (claimed k) f false = ground arith
  ok_claimed (refused k r) f b = ground arith

  spend_and_open-Serves :
      (s : Store) (c : Call) (st : Statement) (p : Option Present)
      → 0 < svc.max_disclosures
      → IsTimely c
      → c.request.statement ≡ some st
      → Within s
      → Serves s c (spend_and_open lib web svc c.times (some s) c.request (st, p))
  unfolding spend_and_open spend apply grant
  spend_and_open-Serves s c st p pos timely stated h =
      let now = c.times.usage in
      let (s', noted, h', same) = note_counter-Within now s p h in
      let nonce' : nonce_of c.request ≡ text_of st.nonce =
        ap (λ (o : Option Statement). text_of (bind_option o (λ (x : Statement). x.nonce)))
          stated in
      let exp' : expiry_of c.request ≡ text_of st.approval_expires_at =
        ap
          (λ (o : Option Statement).
            text_of (bind_option o (λ (x : Statement). x.approval_expires_at)))
          stated in
      let cl = claim_of svc st p c.request in
      let (h'', counted) =
        apply-Counts n expires svc.max_disclosures s' (Trace.spend now cl) pos
          (timely.0, λ e. (sym exp' ∙ timely.1 (nonce' ∙ e), refl)) h' in
      rw (noted, nonce')
        (
          h'',
          omega (
            arith,
            same,
            counted,
            ok_claimed (claim s' now cl).1 (open_covered lib web svc st p c.request)
                (str_eq (text_of st.nonce) n),
          ),
        )

  disclose-Serves :
      (s : Store) (c : Call)
      → 0 < svc.max_disclosures
      → IsTimely c
      → Within s
      → Serves s c (disclose lib web svc c.times (some s) c.request)
  unfolding disclose after_checks
  disclose-Serves s c pos timely h =
      elim (Result-cases (admit lib web svc c.times (some s) c.request)) [
        | inl (e, failed) ↦ rw (failed, after_checks) (h, omega arith)
        | inr ((st, p), admitted) ↦
            rw (admitted, after_checks)
              (spend_and_open-Serves s c st p pos timely
                (admit-IsAdmitted lib web svc c.times (some s) c.request st p admitted).stated h)
      ]

  bound_step :
      (s : Store) (c : Call) (calls : List Call)
      (o : Option Store × Result DisclosureError Disclosed)
      → Serves s c o
      → ((s' : Store) → Within s' → used n s' + disclosures s' calls ≤ svc.max_disclosures)
      → used n s
          + (one_if (is_ok o.1 && str_eq (nonce_of c.request) n)
              + elim o.0 [ none ↦ 0 | some s' ↦ disclosures s' calls ])
        ≤ svc.max_disclosures
  bound_step s c calls (none, r) h k = absurd h
  bound_step s c calls (some s', r) h k = omega (arith, k s' h.0, h.1)

  -- However a service's requests follow one another, under one approval at most `max_disclosures` of
  -- them are answered with records before the approval expires, counting what was used before.
  pub disclosures-le-max :
      (s : Store) (calls : List Call)
      → 0 < svc.max_disclosures
      → All IsTimely calls
      → IsWithin n expires svc.max_disclosures s
      → used n s + disclosures s calls ≤ svc.max_disclosures
  unfolding disclosures
  disclosures-le-max s [] pos timely h = omega (arith, used-le n expires svc.max_disclosures s h)
  disclosures-le-max s (c ∷ calls) pos timely h =
      bound_step s c calls (disclose lib web svc c.times (some s) c.request)
        (disclose-Serves s c pos timely.0 h) (λ s' h'. disclosures-le-max s' calls pos timely.1 h')
