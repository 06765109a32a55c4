-- ===== src/UserState.antt =====
-- `UserState` of borink-core/borink-auth/src/lib.rs: the counter that hands out login numbers, and
-- the small bit set that remembers the ones that came back.
pub mod Laws
use mono_old.Common.{ℕ, none, ◌+◌, ◌^◌, ◌%◌, Bool, List, Outcome, returns, ◌>>=◌}
use mono_old.BitSet.Small
use mono_old.BitSet.Trait.{num_exists}

pub record UserState : Type 0 where
  pub counter : ℕ
  pub seen_set : List ℕ

abbrev pub new : UserState
new = record { counter = 0; seen_set = Small.new }

-- `fetch_add` returns the old value and wraps.
abbrev pub next : UserState → UserState × ℕ
next s = (record s { counter = (s.counter + 1) % 2 ^ 64 }, s.counter)

-- `CompactSet::exists`: make room, then ask.
pub seen : UserState → ℕ → Outcome (UserState × Bool)
seen s num = num_exists Small.small_set s.seen_set num 0 none >>= λ r.
    returns (record s { seen_set = r.0 }, r.1)

pub reset : UserState → UserState
reset s = record { counter = 0; seen_set = Small.reset s.seen_set }
