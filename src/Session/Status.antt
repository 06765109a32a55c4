-- ===== src/Session/Status.antt =====
-- `SessionStatus` of tiauth/tiauth-core/src/data.rs, and `session_status` of
-- tiauth/tiauth-core/src/store.rs.
use mono_old.Common.{
  ℕ, ◌%◌, ◌^◌, Bool, true, false, not, ◌&&◌, Option, none, some, List, Result, ok, err, ltb, ◌==◌,
  if◌then◌else◌, ◌+◌,
}
use mono_old.Proof.Content.{leeway}
use mono_old.Session.Content.{InvalidSession, invalid_session}
use mono_old.Users.{Tables}

pub record SessionStatus : Type 0 where
  pub tracked : Bool
  pub status : ℕ
  pub expires : ℕ

abbrev pub untracked : SessionStatus
untracked = record { tracked = false; status = 0; expires = 0 }

abbrev pub from_raw_status : ℕ → ℕ → SessionStatus
from_raw_status status expires = record { tracked = true; status = status; expires = expires }

unfoldable pub valid : SessionStatus → ℕ → Result (Unit {0}) InvalidSession
valid s time =
    if not s.tracked
    then ok tt
    else if ltb time ((s.expires + leeway) % 2 ^ 64) && (s.status == 1)
    then ok tt
    else err invalid_session

abbrev pub status_of : Option (ℕ × ℕ) → SessionStatus
status_of (some (status, expires)) = from_raw_status status expires
status_of none = untracked

unfoldable pub session_status :
    {StoreError : Type 0} → Tables StoreError → List ℕ → Result SessionStatus StoreError
session_status tables session = elim (tables.get_session (tables.sha512 session)) [
  | err e ↦ err e
  | ok status ↦ ok (status_of status)
]
