-- ===== src/Policy/Allowed.antt =====
-- What `evaluate_disclosure` (justikey/policy.py) has established when it allows a disclosure.
use justi_key.Common.{
  some_inj, keep, ℕ, ◌<◌, ◌≡◌, refl, sym, ap, subst, ◌∙◌, true, not, ◌&&◌, ◌⊎◌, String, List,
  Option, some, Result, ok, raise, require, raise_if, some_or, >>=-eq-ok, >>-eq-ok, require-true,
  raise_if-false, some_or-some, arith, ltb, leb, ◌==◌, str_eq, str_eq_iff, text_lt, text_le,
}
use justi_key.Statements.{Statement, ProofStatement, Stored, has_text, text_of}
use justi_key.Library.{Library}
use justi_key.Approvals.{AuthRow, User, verify_authorization}
use justi_key.Review.{get_authorization}
use justi_key.Custody.{Authenticators}
use justi_key.Usage.{Store}
use justi_key.Disclosure.{
  Service, Request, Row, Opened, Disclosed, DisclosureError, blind_index, in_scope, disclose,
}
use justi_key.Disclosure.Scope.{OpensAll}
use justi_key.Disclosure.Atomic.{IsAdmitted, disclose_needs}
use justi_key.Policy.{
  Denial, authorization_not_found, not_owned_by_requester, authorization_not_approved,
  authorization_expired, plate_mismatch, window_too_broad, approval_signature_invalid,
  disclosure_limit_reached, disclosure_unavailable, escaped, Configuration, Event, Readings,
  Database, tolerated, shown, matches, check_window_breadth, authorize, statement_of,
  presence_credential, prove, prepare, answer, after_prepare, evaluate_disclosure,
}

pair_ok :
    {r r' : AuthRow} {q q' : Request}
    → Path (Result Denial (AuthRow × Request)) (ok (r, q)) (ok (r', q'))
    → (r ≡ r') × (q ≡ q')
pair_ok h = (cc, cc)

module _ (lib : Library) (web : Authenticators) (cfg : Configuration) (db : Database) where
  -- The authorization is on record, the actor's own, approved and not expired, for the plate that is asked
  -- for, with a window that is not too broad, a signature that verifies or that the deployment may do
  -- without, and uses left.
  pub record IsAuthorized (auth_id : ℕ) (plate : String) (actor : User) (now : String)
      (row : AuthRow) : Type 0 where
    pub found : get_authorization auth_id db.authorizations ≡ some row
    pub own : row.requested_by ≡ actor.id
    pub approved : row.status ≡ "approved"
    pub current : text_lt now (text_of row.approval_expires_at) ≡ true
    pub same_plate : lib.upper (lib.strip plate) ≡ row.target_plate
    pub narrow : check_window_breadth lib web cfg db row.window_start row.window_end ≡ some true
    pub signed :
        tolerated cfg.require_signed_approvals (verify_authorization lib db.user row) ≡ true
    pub left : (cfg.max_disclosures ≡ 0) ⊎ (row.disclosure_count < cfg.max_disclosures)

  authorize-IsAuthorized :
      (auth_id : ℕ) (plate : String) (actor : User) (now : String) (row : AuthRow)
      → authorize lib web cfg db auth_id plate actor now ≡ ok row
      → IsAuthorized auth_id plate actor now row
  unfolding authorize
  authorize-IsAuthorized auth_id plate actor now row h =
      let (r, found, h1) =
        >>=-eq-ok (some_or (get_authorization auth_id db.authorizations) authorization_not_found) _
          h in
      let (own, h2) = >>-eq-ok (require (r.requested_by == actor.id) not_owned_by_requester) _ h1 in
      let (approved, h3) =
        >>-eq-ok (require (str_eq r.status "approved") authorization_not_approved) _ h2 in
      let current =
        has_text r.approval_expires_at && not (text_le (text_of r.approval_expires_at) now) in
      let (lasts, h4) = >>-eq-ok (require current authorization_expired) _ h3 in
      let (plates, h5) =
        >>-eq-ok (require (str_eq (lib.upper (lib.strip plate)) r.target_plate) plate_mismatch) _
          h4 in
      let (narrow, breadth, h6) =
        >>=-eq-ok
          (some_or (check_window_breadth lib web cfg db r.window_start r.window_end) escaped) _
          h5 in
      let (is_narrow, h7) = >>-eq-ok (require narrow window_too_broad) _ h6 in
      let passes = tolerated cfg.require_signed_approvals (verify_authorization lib db.user r) in
      let (signed, h8) = >>-eq-ok (require passes approval_signature_invalid) _ h7 in
      let full = ltb 0 cfg.max_disclosures && leb cfg.max_disclosures r.disclosure_count in
      let (room, h9) = >>-eq-ok (raise_if full disclosure_limit_reached) _ h8 in
      let same : r ≡ row = cc in
      let owned = require-true (r.requested_by == actor.id) not_owned_by_requester own in
      let lasting = require-true current authorization_expired lasts in
      let free = raise_if-false full disclosure_limit_reached room in
      subst (IsAuthorized auth_id plate actor now) same (record {
        found =
            some_or-some (get_authorization auth_id db.authorizations) authorization_not_found r
              found;
        own = ground arith;
        approved =
            (str_eq_iff r.status "approved").0
              (require-true (str_eq r.status "approved") authorization_not_approved approved);
        current = ground arith;
        same_plate = (str_eq_iff (lib.upper (lib.strip plate)) r.target_plate).0 (
            require-true (str_eq (lib.upper (lib.strip plate)) r.target_plate) plate_mismatch
              plates);
        narrow =
            some_or-some (check_window_breadth lib web cfg db r.window_start r.window_end) escaped
              narrow breadth
            ∙ ap some (require-true narrow window_too_broad is_narrow);
        signed = require-true passes approval_signature_invalid signed;
        left = ground arith;
      })

  -- the candidates: the rows on record of the statement's plate, in the authorization's window
  abbrev pub Candidates : Service → AuthRow → Statement → List Row → Type 0
  Candidates svc row st rows =
      (key : String) × (svc.index_key ≡ some key)
      × (rows ≡ keep (matches (blind_index lib key (text_of st.target_plate)) row) db.events)

  -- the records that the service's opener opens, of those in the scope of a statement
  abbrev pub OpensScope : Service → Statement → List Row → List Opened → Type 0
  OpensScope svc st rows opened =
      (key : String) × (svc.index_key ≡ some key)
      × OpensAll svc.opener
          (keep (in_scope (blind_index lib key (text_of st.target_plate)) st) rows) opened

  prepare-parts :
      (svc : Service) (auth_id : ℕ) (plate : String) (actor : User)
      (by : Option (ProofStatement → Option Stored)) (t : Readings) (row : AuthRow) (req : Request)
      → prepare lib web cfg db svc auth_id plate actor by t ≡ ok (row, req)
      → IsAuthorized auth_id plate actor t.now row
        × (st : Statement) × (statement_of lib web cfg db actor row ≡ some st)
        × (req.statement ≡ some st)
        × (req.requester ≡ actor.username)
        × Candidates svc row st req.rows
  unfolding prepare
  prepare-parts svc auth_id plate actor by t row req h =
      let (r, authorized, h1) =
        >>=-eq-ok (authorize lib web cfg db auth_id plate actor t.now) _ h in
      let (st, stated, h2) =
        >>=-eq-ok (some_or (statement_of lib web cfg db actor r) escaped) _ h1 in
      let (key, held, h3) = >>=-eq-ok (some_or svc.index_key disclosure_unavailable) _ h2 in
      let ((p, proof), _, h4) =
        >>=-eq-ok (prove lib web cfg db by t st (presence_credential lib web cfg db actor)) _ h3 in
      let (same, sent) = pair_ok h4 in
      (
        subst (IsAuthorized auth_id plate actor t.now) same
            (authorize-IsAuthorized auth_id plate actor t.now r authorized),
        st,
        subst (λ (x : AuthRow). statement_of lib web cfg db actor x ≡ some st) same
            (some_or-some (statement_of lib web cfg db actor r) escaped st stated),
        sym (ap (λ (q : Request). q.statement) sent),
        sym (ap (λ (q : Request). q.requester) sent),
        subst (λ (x : AuthRow). Candidates svc x st req.rows) same
            (
              key,
              some_or-some svc.index_key disclosure_unavailable key held,
              sym (ap (λ (q : Request). q.rows) sent),
            ),
      )

  answer-shown :
      (rows : List Row) (p : Option Store × Result DisclosureError Disclosed) (events : List Event)
      → (answer lib web cfg db rows p).1 ≡ ok events
      → (d : Disclosed) × (p.1 ≡ ok d) × (events ≡ shown d.opened rows)
  unfolding answer
  answer-shown rows (s, raise e) events h = ground arith
  answer-shown rows (s, ok d) events h =
      let same : shown d.opened rows ≡ events = cc in (d, refl, sym same)

  after_prepare-shown :
      (svc : Service) (t : Readings) (s : Option Store) (r : Result Denial (AuthRow × Request))
      (events : List Event)
      → (after_prepare lib web cfg db svc t s r).1 ≡ ok events
      → (row : AuthRow) × (req : Request) × (d : Disclosed) × (r ≡ ok (row, req))
        × ((disclose lib web svc t.times s req).1 ≡ ok d)
        × (events ≡ shown d.opened req.rows)
  unfolding after_prepare
  after_prepare-shown svc t s (raise e) events h = cc
  after_prepare-shown svc t s (ok (row, req)) events h =
      let (d, disclosed, same) =
        answer-shown req.rows (disclose lib web svc t.times s req) events h in
      (row, req, d, refl, disclosed, same)

  -- What an allowed disclosure rests on. The authorization is the actor's own, approved, current, for the
  -- plate that was asked for, narrow enough, signed as the deployment demands, and has uses left. The
  -- disclosure service was called for the actor, with the statement rebuilt from that row as it is now,
  -- over exactly the rows on record of that plate's index in the authorization's window; it admitted the
  -- request, returned, and opened those of the rows that lie in the statement's scope, by its own opener. What
  -- is shown is exactly those candidates that this call opened, with the fields that it returned.
  pub evaluate_disclosure-allowed :
      (svc : Service) (auth_id : ℕ) (plate : String) (actor : User)
      (by : Option (ProofStatement → Option Stored)) (t : Readings) (s : Option Store)
      (events : List Event)
      → (evaluate_disclosure lib web cfg db svc auth_id plate actor by t s).1 ≡ ok events
      → (row : AuthRow) × (req : Request) × (d : Disclosed) × (st : Statement) × IsAuthorized
          auth_id plate actor t.now row
        × (statement_of lib web cfg db actor row ≡ some st)
        × (req.requester ≡ actor.username)
        × Candidates svc row st req.rows
        × IsAdmitted lib web svc t.times s req st d.presence
        × ((disclose lib web svc t.times s req).1 ≡ ok d)
        × OpensScope svc st req.rows d.opened
        × (events ≡ shown d.opened req.rows)
  unfolding evaluate_disclosure
  evaluate_disclosure-allowed svc auth_id plate actor by t s events h =
      let (row, req, d, prepared, disclosed, same) =
        after_prepare-shown svc t s (prepare lib web cfg db svc auth_id plate actor by t) events
          h in
      let (authorized, st, made, carried, caller, candidates) =
        prepare-parts svc auth_id plate actor by t row req prepared in
      let (st', admitted, key, held, all) = disclose_needs lib web svc t.times s req d disclosed in
      let again : st' ≡ st = some_inj (sym admitted.stated ∙ carried) in
      (
        row,
        req,
        d,
        st,
        authorized,
        made,
        caller,
        candidates,
        subst (λ (x : Statement). IsAdmitted lib web svc t.times s req x d.presence) again admitted,
        disclosed,
        subst (λ (x : Statement). OpensScope svc x req.rows d.opened) again (key, held, all),
        same,
      )
