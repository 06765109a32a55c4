-- ===== src/Counter.antt =====
-- `Counter` of tiauth/tiauth-core/src/counter.rs: the numbers that a range set is asked about.
pub mod Laws
use mono_old.Common.{
  ℕ, zero, suc, ◌+◌, ◌%◌, ◌^◌, List, [], ◌∷◌, Outcome, returns, panics, ◌==◌, if◌then◌else◌, length,
}
use mono_old.LittleEndian.{to_le, from_le}

abbrev pub new : ℕ
new = 1

-- `fetch_add` returns the old value and wraps.
unfoldable pub increment : ℕ → ℕ × ℕ
increment counter = ((counter + 1) % 2 ^ 64, counter)

abbrev pub to_saved_bytes : ℕ → List ℕ
to_saved_bytes counter = to_le 8 counter

-- The conversion to an array of 8 bytes is unwrapped.
pub from_saved_bytes : List ℕ → Outcome ℕ
from_saved_bytes bytes = if length bytes == 8 then returns (from_le bytes) else panics

-- The numbers of so many calls.
unfoldable pub issue : ℕ → ℕ → List ℕ
issue zero counter = []
issue (suc n) counter = let r = increment counter in r.1 ∷ issue n r.0
