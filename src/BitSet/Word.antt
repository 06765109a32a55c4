-- ===== src/BitSet/Word.antt =====
-- `AtomicU64BitSet` of tiauth/tiauth-core/src/counter.rs: one 64-bit word.
pub mod Laws
use Prim.Native.Nat.{bit_and, bit_or}
use mono_old.Common.{ℕ, ◌%◌, ◌^◌, Bool, Outcome, returns, panics, ltb, leb, if◌then◌else◌}
use mono_old.BitSet.Trait.{AtomicBitSet}

-- `1u64 << n` keeps the low 64 bits.
abbrev pub shl_one : ℕ → ℕ
shl_one n = 2 ^ n % 2 ^ 64

abbrev pub new : ℕ
new = 0

-- `fetch_or` leaves the word with the bit set and returns the old word.
pub exists : ℕ → ℕ → Outcome (ℕ × Bool)
exists old_value n =
    if leb 64 n
    then panics
    else returns (bit_or old_value (shl_one n), ltb 0 (bit_and old_value (shl_one n)))

pub create_up_to : ℕ → ℕ → Outcome ℕ
create_up_to word n = if ltb 63 n then panics else returns word

abbrev pub u64_set : AtomicBitSet ℕ
u64_set = record { new = new; max_n = λ _. 63; create_up_to = create_up_to; exists = exists }
