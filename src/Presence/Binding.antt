-- ===== src/Presence/Binding.antt =====
-- What `presence.verify` accepts.
use justi_key.Common.{
  ℕ, ◌+◌, ◌*◌, ◌≤◌, ◌≡◌, refl, ap, Bool, true, false, String, none, some, text_lt, arith, ok,
  Option-cases, Result-cases, inl, inr, ◌↔◌,
}
use justi_key.Statements.{
  Statement, ProofStatement, Stored, Credential, text_of, opt_str_eq_iff, opt_is_iff,
}
use justi_key.Library.{Library}
use justi_key.Custody.{Authenticators, credential_key_id, verify_proof}
use justi_key.Presence.{
  Present, presence_version, missing_field, digest_of, check_binding, check_freshness, verify,
}

module _ (lib : Library) (web : Authenticators) where
  open lib use {parse_dt, dumps_proof}

  -- A complete statement of presence of the current schema, made for this approval and over exactly
  -- its content, by the person whom the approval names as the requester, with that person's key.
  pub record IsBound (c : Credential) (p : ProofStatement) (st : Statement) (user : String)
      : Type 0 where
    pub schema : p.v ≡ some presence_version
    pub complete : missing_field p ≡ none
    pub same_approval : p.approval_nonce ≡ st.nonce
    pub same_scope : p.statement_digest ≡ some (digest_of lib st)
    pub same_person : p.requester ≡ st.requester
    pub caller : p.requester ≡ some user
    pub same_key : p.requester_key_id ≡ some (credential_key_id lib c)

  -- Issued by now, not yet expired, and with a lifetime of at most `max_ttl` seconds.
  pub record IsFresh (p : ProofStatement) (now : String) (max_ttl : ℕ) : Type 0 where
    pub issued : ℕ
    pub expires : ℕ
    pub parsed_issued : parse_dt (text_of p.issued_at) ≡ some issued
    pub parsed_expires : parse_dt (text_of p.expires_at) ≡ some expires
    pub not_future : text_lt now (text_of p.issued_at) ≡ false
    pub unexpired : text_lt now (text_of p.expires_at) ≡ true
    pub short : expires ≤ issued + max_ttl * 1000000

  check_binding_iff :
      (c : Credential) (p : ProofStatement) (st : Statement) (user : String)
      → (check_binding lib c p st user ≡ ok tt) ↔ (
          (p.approval_nonce ≡ st.nonce)
          × (p.statement_digest ≡ some (digest_of lib st))
          × (p.requester ≡ st.requester)
          × (p.requester ≡ some user)
          × (p.requester_key_id ≡ some (credential_key_id lib c)))
  unfolding check_binding
  check_binding_iff c p st user = (
    λ h. ground (
      arith,
      opt_str_eq_iff p.approval_nonce st.nonce,
      opt_str_eq_iff p.statement_digest (some (digest_of lib st)),
      opt_str_eq_iff p.requester st.requester,
      opt_str_eq_iff p.requester (some user),
      opt_str_eq_iff p.requester_key_id (some (credential_key_id lib c)),
    ),
    λ h. ground (
      arith,
      opt_str_eq_iff p.approval_nonce st.nonce,
      opt_str_eq_iff p.statement_digest (some (digest_of lib st)),
      opt_str_eq_iff p.requester st.requester,
      opt_str_eq_iff p.requester (some user),
      opt_str_eq_iff p.requester_key_id (some (credential_key_id lib c)),
    ),
  )

  check_freshness-IsFresh :
      (p : ProofStatement) (now : String) (max_ttl : ℕ)
      → check_freshness lib p now max_ttl ≡ ok tt
      → IsFresh p now max_ttl
  unfolding check_freshness
  check_freshness-IsFresh p now max_ttl h = elim (Option-cases (parse_dt (text_of p.expires_at))) [
    | inl e ↦ absurd (ground arith)
    | inr (e, pe) ↦ elim (Option-cases (parse_dt (text_of p.issued_at))) [
      | inl i ↦ absurd (ground arith)
      | inr (i, pi) ↦ record {
        issued = i;
        expires = e;
        parsed_issued = pi;
        parsed_expires = pe;
        not_future = ground arith;
        unexpired = ground arith;
        short = ground arith;
      }
    ]
  ]

  IsFresh-check_freshness :
      (p : ProofStatement) (now : String) (max_ttl : ℕ)
      → IsFresh p now max_ttl
      → check_freshness lib p now max_ttl ≡ ok tt
  unfolding check_freshness
  IsFresh-check_freshness p now max_ttl f =
      ground (arith, f.parsed_issued, f.parsed_expires, f.not_future, f.unexpired, f.short)

  -- The parts of a proof of presence that `verify` accepts, with what it returns.
  abbrev pub IsPresence :
      Credential
      → ProofStatement
      → Stored
      → Statement
      → String
      → String
      → ℕ
      → Bool
      → Present
      → Type 0
  IsPresence c p proof st user now max_ttl uv present =
      IsBound c p st user
      × IsFresh p now max_ttl
      × (verify_proof lib web c (dumps_proof p) proof uv ≡ ok present.proved)
      × (present.requester ≡ user)
      × (present.request_nonce ≡ text_of p.request_nonce)

  -- `presence.verify` accepts a statement of presence exactly when it is complete and of the current
  -- schema, names the approval's nonce, its digest, its requester and the caller, names the key that
  -- is enrolled for the caller, was issued by now, has not expired, lives at most `max_ttl` seconds,
  -- and bears a proof by that key; and what it returns is that proof, the caller and the nonce.
  pub verify-IsPresence_iff :
      (c : Credential) (p : ProofStatement) (proof : Stored) (st : Statement) (user now : String)
      (max_ttl : ℕ) (uv : Bool) (present : Present)
      → (verify lib web c (some p) proof st user now max_ttl uv ≡ ok present)
        ↔ IsPresence c p proof st user now max_ttl uv present
  unfolding verify
  verify-IsPresence_iff c p proof st user now max_ttl uv present = (
    λ h. elim (Result-cases (check_binding lib c p st user)) [
      | inl (e, bad) ↦ absurd (ground arith)
      | inr (u, bound) ↦ elim (Result-cases (check_freshness lib p now max_ttl)) [
        | inl (e, bad) ↦ absurd (ground arith)
        | inr (u', fresh) ↦ elim (Result-cases (verify_proof lib web c (dumps_proof p) proof uv)) [
          | inl (e, bad) ↦ absurd (ground arith)
          | inr (q, proved) ↦
              let b = (check_binding_iff c p st user).0 bound in
              let kept : present ≡ record {
                proved = q;
                requester = text_of p.requester;
                request_nonce = text_of p.request_nonce;
              } =
                ground arith in
              (
                record {
                  schema = ground (arith, opt_is_iff p.v presence_version);
                  complete = ground arith;
                  same_approval = b.0;
                  same_scope = b.1;
                  same_person = b.2;
                  caller = b.3;
                  same_key = b.4;
                },
                check_freshness-IsFresh p now max_ttl fresh,
                rw kept proved,
                rw (kept, b.3) refl,
                rw kept refl,
              )
        ]
      ]
    ],
    λ (b, f, proved, r, n).
        let bound =
          (check_binding_iff c p st user).1
            (b.same_approval, b.same_scope, b.same_person, b.caller, b.same_key) in
        let fresh = IsFresh-check_freshness p now max_ttl f in
        let same : record {
          proved = present.proved;
          requester = text_of p.requester;
          request_nonce = text_of p.request_nonce;
        }
            ≡ present =
          rw b.caller (rw⁻¹ (r, n) refl) in
        rw ((opt_is_iff p.v presence_version).1 b.schema, b.complete, bound, fresh, proved)
          (ap ok same),
  )
