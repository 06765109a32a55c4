-- ===== src/Ops/ProofToken/Accepted.antt =====
-- A token that the server handed out is accepted.
use mono_old.Common.{ℕ, ◌+◌, ◌*◌, ◌%◌, ◌^◌, [], Outcome, returns}
use mono_old.Rmp.{Rmp}
use mono_old.Ephemeral.{proof_token}
use mono_old.Ephemeral.Keys.{interval}
use mono_old.Ephemeral.State.{create_token_state}
use mono_old.Ephemeral.Content.{EphemeralContent}

-- The expiry of a token.
abbrev pub token_expires : ℕ → ℕ
token_expires time = (time + interval * 2) % 2 ^ 64

-- What a token holds.
abbrev pub token_content : ℕ → ℕ → EphemeralContent
token_content count time = record {
  user_id = [];
  expires = token_expires time;
  state = create_token_state (count, token_expires time);
  eph_type = proof_token;
  data_bytes = [];
}

abbrev paired : {A B : Type 0} → A → B → Outcome (A × B)
paired a b = returns (a, b)
