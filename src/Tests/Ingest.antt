-- ===== src/Tests/Ingest.antt =====
-- Times, signed ingest, sessions and the lock, at concrete inputs, with a calendar of one second.
use justi_key.Common.{
  ℕ, suc, ◌+◌, ◌-◌, ◌*◌, ◌/◌, ◌≡◌, ◌≢◌, refl, false, ◌&&◌, List, [], ◌∷◌, Option, none, some, ok,
  raise, arith, if◌then◌else◌, ltb, leb, text_lt, bind_option, length,
}
use justi_key.Library.{Library}
use justi_key.Timeutil.{DateTime, to_canonical, pad, earlier, IsCalendar, text_lt-to_canonical}
use justi_key.Sources.{
  Source, Ingest, hmac, bearer, active, revoked, Cipher, SignedRequest, signature_mismatch,
  get_source, get_source_by_key, live_credential, set_status, revoke_source, has_nonce,
  signature_base, compute_signature, claim_ingest_nonce, purge_ingest_nonces, signing_secrets_for,
  check_signed, spend_nonce, authenticate_signed_source, authenticate_source,
}
use justi_key.Sources.Replay.{Op, spend, purge, run, signed_replay-refused}
use justi_key.Sources.Bearer.{
  but, IsSigned, authenticate_source-revoke_source, authenticate_signed_source-IsSigned,
}
use justi_key.Accounts.{
  pending, full, same_kind, create_session, get_session, login_lock_remaining, record_login_failure,
  consume_totp,
}
use justi_key.Accounts.Sessions.{session_of, get_session-create_session}
use justi_key.Accounts.Lockout.{
  failures_of, fail_all, Attempt, attempt_all, login_lock_remaining-fail_all, consume_totp_once,
}
use justi_key.Tests.Samples.{toy}

abbrev at_microsecond : ℕ → DateTime
at_microsecond n = record {
  year = 2026;
  month = 2;
  day = 1;
  hour = 10;
  minute = 30;
  second = 0;
  microsecond = n;
}

one_second-IsCalendar : IsCalendar at_microsecond 1000000
one_second-IsCalendar = record {
  ranges = λ n h. record {
    year_lt = omega arith;
    month_lt = omega arith;
    day_lt = omega arith;
    hour_lt = omega arith;
    minute_lt = omega arith;
    second_lt = omega arith;
    microsecond_lt = h;
  };
  ordered = λ m n hm hn. ground arith;
}

-- the last microsecond of a year, and the first of the next
abbrev old_year : DateTime
old_year = record {
  year = 2025;
  month = 12;
  day = 31;
  hour = 23;
  minute = 59;
  second = 59;
  microsecond = 999999;
}

abbrev new_year : DateTime
new_year = record {
  year = 2026;
  month = 1;
  day = 1;
  hour = 0;
  minute = 0;
  second = 0;
  microsecond = 0;
}

run_canonical : to_canonical old_year ≡ "2025-12-31T23:59:59.999999+00:00"
unfolding to_canonical pad
run_canonical = refl

text_lt-to_canonical_example :
    text_lt (to_canonical old_year) (to_canonical new_year) ≡ earlier old_year new_year
text_lt-to_canonical_example =
    text_lt-to_canonical old_year new_year
      (record {
        year_lt = omega arith;
        month_lt = omega arith;
        day_lt = omega arith;
        hour_lt = omega arith;
        minute_lt = omega arith;
        second_lt = omega arith;
        microsecond_lt = omega arith;
      })
      (record {
        year_lt = omega arith;
        month_lt = omega arith;
        day_lt = omega arith;
        hour_lt = omega arith;
        minute_lt = omega arith;
        second_lt = omega arith;
        microsecond_lt = omega arith;
      })

abbrev camera : Source
camera = record {
  id = 1;
  source_key = "cam";
  display_name = "Camera";
  auth_mode = hmac;
  status = active;
  revoked_at = none;
}

abbrev gate : Source
gate = record {
  id = 2;
  source_key = "gate";
  display_name = "Gate";
  auth_mode = bearer;
  status = active;
  revoked_at = none;
}

abbrev ingest : Ingest
ingest = record {
  sources = camera ∷ gate ∷ [];
  source_credentials =
      record {
        key_hash = "#s";
        source_id = 1;
        label = "default";
        secret_ct = some "s";
        revoked_at = none;
      }
      ∷ record {
        key_hash = "#g";
        source_id = 2;
        label = "default";
        secret_ct = none;
        revoked_at = none;
      }
      ∷ [];
  ingest_nonces = [];
}

abbrev cipher : Option Cipher
cipher = some (record { encrypt = λ s aad. s; decrypt = λ s aad. some s })

-- sent at the moment 4, as the stand-in reads it
abbrev signed : SignedRequest
signed = record {
  key_id = some "cam";
  timestamp = some "four";
  nonce = some "n";
  signature = some "sfour\nn\n#body";
  body = "body";
}

abbrev forged : SignedRequest
forged = record signed { body = "other" }

-- what a run of signed ingest computes through
unfoldable ingesting : Unit {0}
unfolding text_lt get_source get_source_by_key live_credential set_status revoke_source has_nonce
    signature_base compute_signature claim_ingest_nonce purge_ingest_nonces signing_secrets_for
    check_signed spend_nonce authenticate_signed_source authenticate_source to_canonical pad
ingesting = tt

run_signed :
    (authenticate_signed_source toy at_microsecond 10 (6, 7, 8) ingest cipher signed).1 ≡ ok camera
unfolding ingesting
run_signed = refl

run_forged :
    (authenticate_signed_source toy at_microsecond 10 (6, 7, 8) ingest cipher forged).1
    ≡ raise signature_mismatch
unfolding ingesting
run_forged = refl

authenticate_signed_source-IsSigned_example :
    IsSigned toy at_microsecond ingest cipher signed camera
    × (has_nonce camera.id "n" ingest.ingest_nonces ≡ false)
authenticate_signed_source-IsSigned_example =
    authenticate_signed_source-IsSigned toy at_microsecond 10 (6, 7, 8) ingest cipher signed camera
      run_signed

abbrev between : List Op
between = spend 9 1 "m" ∷ purge 11 ∷ []

abbrev after : Ingest
after = record ingest {
  ingest_nonces =
      run toy at_microsecond 10 1000000
        (authenticate_signed_source toy at_microsecond 10 (6, 7, 8) ingest cipher
          signed).0.ingest_nonces
        between;
}

signed_replay-refused_example :
    (authenticate_signed_source toy at_microsecond 10 (12, 13, 14) after cipher signed).1
    ≢ ok camera
signed_replay-refused_example =
    signed_replay-refused toy at_microsecond 10 1000000 ingest after cipher cipher signed signed
      camera camera between 6 7 8 12 13 14 one_second-IsCalendar run_signed (omega arith)
      (omega arith) (omega arith, (omega arith, tt)) (omega arith) (omega arith) refl refl refl refl

authenticate_source-revoke_source_example :
    authenticate_source toy at_microsecond (revoke_source ingest "now" 2 revoked) (some "g")
    ≡ bind_option (authenticate_source toy at_microsecond ingest (some "g")) (but 2)
authenticate_source-revoke_source_example =
    authenticate_source-revoke_source toy at_microsecond ingest "now" 2 revoked (some "g") refl

run_gate : authenticate_source toy at_microsecond ingest (some "g") ≡ some gate
unfolding ingesting
run_gate = refl

get_session-create_session_example :
    (get_session toy at_microsecond
      (create_session toy at_microsecond [] 5 100 "token" "csrf" 7 pending)
      50
      (some "token")
      (some full)).1
    ≡ (if ltb 50 (5 + 100) && same_kind pending full
        then some (session_of toy at_microsecond 5 100 "csrf" 7 pending)
        else none)
get_session-create_session_example =
    get_session-create_session toy at_microsecond [] 5 100 50 1000000 "token" "csrf" 7 pending full
      one_second-IsCalendar (omega arith) (omega arith) refl

-- every text is read as the moment 900 seconds after 32 microseconds
abbrev late : Library
late = record toy { parse_dt = λ s. some 900000032 }

abbrev failed : List ℕ
failed = 10 ∷ 20 ∷ []

login_lock_remaining-fail_all_example :
    login_lock_remaining late at_microsecond
      (record_login_failure late at_microsecond 3 900
        (fail_all late at_microsecond 3 900 [] "bob" failed)
        32
        "bob").0
      500000000
      "bob"
    ≡ some (
        if ltb 0 3 && leb 3 (suc (failures_of late at_microsecond 3 900 [] "bob" + length failed))
        then (32 + 900 * 1000000 - 500000000) / 1000000
        else 0)
login_lock_remaining-fail_all_example =
    login_lock_remaining-fail_all late at_microsecond 3 900 [] "bob" failed 32 500000000 refl

abbrev attempts : List Attempt
attempts =
    record { user = 7; purpose = "approve"; counter = some 100 }
    ∷ record { user = 7; purpose = "login"; counter = none }
    ∷ []

consume_totp_once_example :
    consume_totp toy at_microsecond
      (attempt_all toy at_microsecond
        (consume_totp toy at_microsecond [] 7 "login" (some 100)).0
        attempts)
      7
      "login"
      (some 100)
    ≡ (
      attempt_all toy at_microsecond
          (consume_totp toy at_microsecond [] 7 "login" (some 100)).0
          attempts,
      false,
    )
consume_totp_once_example = consume_totp_once toy at_microsecond [] 7 100 "login" attempts
