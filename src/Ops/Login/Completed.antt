-- ===== src/Ops/Login/Completed.antt =====
-- A login that was started finishes for the same password.
use mono_old.Common.{ℕ, ◌+◌, ◌%◌, ◌^◌, List}
use mono_old.Rmp.{Rmp}
use mono_old.Ephemeral.{login}
use mono_old.Ephemeral.State.{create_login_state}
use mono_old.Ephemeral.Content.{EphemeralContent}
use mono_old.Ops.Answer.{Answer}
use mono_old.Ops.Login.{counter_expires}

-- The content of an ephemeral for a login.
abbrev pub login_content : List ℕ → ℕ → List ℕ → ℕ → List ℕ → EphemeralContent
login_content user_id count hash time state_data = record {
  user_id = user_id;
  expires = (time + counter_expires) % 2 ^ 64;
  state = create_login_state (count, (time + counter_expires) % 2 ^ 64, hash);
  eph_type = login;
  data_bytes = state_data;
}
