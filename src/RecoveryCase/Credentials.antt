-- ===== src/RecoveryCase/Credentials.antt =====
-- The attempts on each credential (apps/api/src/recovery/credential-attempt-store.ts, in process).
-- A negative number of minutes is 0 here: both lie below every interval that is asked for.
use ax10m.Common.{ℕ, ◌+◌, ◌-◌, ◌/◌, String, Option, none, some}
use ax10m.Common.Dict.{Dict, lookup, insert}
use ax10m.RecoveryCase.{CredentialRecord}

pub record CredentialAttemptWindow : Type 0 where
  pub attempts_in_window : ℕ
  pub minutes_since_last_attempt : Option ℕ

abbrev pub minutes_between : Option ℕ → ℕ → Option ℕ
minutes_between none last = none
minutes_between (some now) last = some ((now - last) / 60000)

abbrev pub count_of : Option CredentialRecord → ℕ
count_of none = 0
count_of (some e) = e.count

abbrev pub attempts_on : String → Dict CredentialRecord → ℕ
attempts_on key m = count_of (lookup key m)

abbrev pub window_of : Option ℕ → Option CredentialRecord → CredentialAttemptWindow
window_of now none = record { attempts_in_window = 0; minutes_since_last_attempt = none }
window_of now (some e) = record {
  attempts_in_window = e.count;
  minutes_since_last_attempt = minutes_between now e.last_at;
}

abbrev pub window : String → Option ℕ → Dict CredentialRecord → CredentialAttemptWindow
window key now m = window_of now (lookup key m)

abbrev pub increment : String → ℕ → Dict CredentialRecord → Dict CredentialRecord
increment key now m = insert key (record { count = attempts_on key m + 1; last_at = now }) m
