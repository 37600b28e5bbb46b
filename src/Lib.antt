-- ===== src/Lib.antt =====
-- Justi-key: the parts that decide who may open a sealed plate read, and that keep the record of it.
--
-- A request for records is reviewed by another person (justikey/models.py), who
-- signs a statement (justikey/approvals.py); the requester signs, for each disclosure, a
-- statement of presence (justikey/presence.py) with a key in software or in an authenticator
-- (justikey/custody.py). The disclosure service (justikey/disclosure.py) checks both, claims one use of
-- the approval and the presence nonce from its usage store, and opens the rows that the approval
-- covers. What happens is recorded in a hash-chained ledger (justikey/audit.py), whose head is
-- published as signed checkpoints (justikey/anchor.py), also to a witness on another host
-- (scripts/witness_server.py). Where a custodian is configured (justikey/custodian.py behind
-- scripts/custodian_server.py) it holds the private key and repeats the checks on its own registries,
-- for one record at a time; the records are sealed by justikey/sealing.py over justikey/kem.py, and the
-- key may be one of AWS KMS, whose answers justikey/enclave.py reads. justikey/policy.py evaluates
-- a request before it reaches the service. Readings come from registered sources, and people sign in
-- with a password and a TOTP code (justikey/models.py).
--
-- Files:
--   Common       Boolean tests, lists, texts (with Python's order), results, tables
--   Statements   the values that pass between the parts: statements, proofs, credentials
--   Library      what the code takes from Python and its cryptography: digests, HMAC, Ed25519,
--                json.dumps, str.strip and str.upper, parsing of dates. They are the fields of a record,
--                about which nothing is assumed but where a theorem says so
--   Approvals    build_statement, statement_nonce, signing_key_id, verify_statement,
--                verify_authorization
--   Review       justikey/models.py: create_authorization, approve_authorization, deny_authorization,
--                record_disclosure, effective_status, with get_user_by_id and the signature as
--                parameters; Review/Decisions on histories, Review/Signed on a signed approval
--   Registry     justikey/registry.py and servicekit.admit_registry, up to what it records;
--                Registry/Startups on sequences of startups
--   Custody      decode_proof, credential_from_registry, credential_key_id, verify_proof; the
--                verification of WebAuthn assertions is an interface, Authenticators
--   Presence     build and verify; Presence/Binding on what verify accepts
--   Usage        UsageStore: one function per method, on a record of the four tables of
--                servicekit.SERVICE_SCHEMA, with the time as an argument. Usage/Trace has the sequences
--                of calls, Usage/Limit the limit, Usage/Replay presence nonces, Usage/Claims one call
--   Disclosure   DisclosureService without a custodian: verify_approval, verify_presence, disclose.
--                Disclosure/Data has its data, Disclosure/Authority is on approvals, Disclosure/Scope
--                on the rows, Disclosure/Atomic on disclose as a whole, Disclosure/Cap on sequences of
--                requests
--   Audit        append_event's transaction and verify_chain; Audit/Chain on what verify_chain accepts,
--                Audit/Append on appends, Audit/Tamper on altered ledgers
--   Anchor       the log of checkpoints, maybe_anchor and verify_anchors, and append_event with both its
--                halves; Anchor/Records on the log, Anchor/History on its extension,
--                Anchor/Truncation on histories
--   Witness      record_anchor of the witness
--   Timeutil     to_canonical, and the order of canonical texts
--   Kem          justikey/kem.py: both suites, on the bytes of keys and points; an exchange may fail
--   Sealing      RecordSealer, RecordOpener and the functions between them; Sealing/Roundtrip on what
--                is opened and what is not
--   Enclave      the reader of DER and CMS, RecipientKey.decrypt, recipient_for; Enclave/Elements on
--                encoded elements, Enclave/Ending on the loop, Enclave/Reading on a whole envelope
--   Custodian    Custodian.open with its checks, over the data of Custodian/Data. Custodian/Backends has
--                LocalAgreement, KmsAgreement and RemoteCustodian._call; Custodian/Opinions compares the check of approvals with that of
--                Disclosure, Custodian/Opening is on what an opening needs, Custodian/Spending on what is
--                spent before a secret is derived, Custodian/Software on a software key,
--                Custodian/Attested on KMS
--   CustodianServer   dispatch and the operations; CustodianServer/Tokens on scope tokens,
--                CustodianServer/Rate on their limit
--   Policy       evaluate_disclosure of justikey/policy.py, over the disclosure service, with
--                check_window_breadth and models.presence_credential; Policy/Allowed on what an allowed
--                disclosure rests on
--   Sources      registered sources, credentials, authenticate_source, authenticate_signed_source;
--                Sources/Replay on nonces and timestamps, Sources/Bearer on revocation and acceptance
--   Accounts     sessions, login failures and TOTP codes; Accounts/Sessions, Accounts/Lockout
--   Tests        runs at concrete inputs, with stand-ins for the library
--
-- Conventions. An exception is a value of Result; a transaction is one function, and a rollback returns
-- the store it was given. Times are canonical texts, compared as texts, as the source does; the time that
-- a call reads is an argument. Integers of the source that are counts or limits are natural numbers, a
-- limit or an interval of zero or less being 0. A loop is recursion on its list. The loop of _children
-- alone runs on fuel, one more than the number of bytes: every element takes two bytes at least, and
-- Enclave/Ending shows that the fuel never runs out. In Sources, Accounts and CustodianServer a moment is
-- a number of microseconds, and Python's calendar is an argument, of which theorems ask (IsCalendar) that
-- later moments have later fields. Bytes are lists of numbers.
--
-- Not modelled: the cryptography, SQLite, sockets, HTTP, files, keys and their loading, which are the
-- environment; and the disclosure service in front of a custodian, events and their search,
-- webauthn, transport, adapters, retention, the web application and the command-line tools. The context
-- that the custodian writes into its ledger as a digest, and the entries' texts, are left out.
pub mod Common
pub mod Usage
pub mod Statements
pub mod Library
pub mod Timeutil
pub mod Sources
pub mod Accounts
pub mod Approvals
pub mod Review
pub mod Registry
pub mod Custody
pub mod Presence
pub mod Disclosure
pub mod Policy
pub mod Kem
pub mod Enclave
pub mod Sealing
pub mod Custodian
pub mod CustodianServer
pub mod Audit
pub mod Anchor
pub mod Witness
pub mod Tests
