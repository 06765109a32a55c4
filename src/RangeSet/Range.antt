-- ===== src/RangeSet/Range.antt =====
-- `Range` and `Expiry` of tiauth/tiauth-core/src/counter.rs.
pub mod Slots
pub mod Laws
use mono_old.Common.{
  ℕ, ◌+◌, ◌-◌, ◌%◌, ◌^◌, Option, none, some, List, [], ◌∷◌, Outcome, returns, panics, ◌>>=◌, ◌==◌,
  ltb, if◌then◌else◌, replicate,
}

pub data Expiry : Type 0 where
  at : ℕ → Expiry
  unknown : Expiry

-- `members` is absent when every number of the range is in it.
pub record Range : Type 0 where
  pub members : Option (List ℕ)
  pub min : ℕ
  pub max : ℕ
  pub expires : Expiry

-- `min + (N as u64) - 1`, on 64 bits.
abbrev pub last_of : ℕ → ℕ → ℕ
last_of size min = (min + size + 2 ^ 64 - 1) % 2 ^ 64

abbrev pub new : ℕ → ℕ → Range
new size min = record {
  members = some (replicate size 0);
  min = min;
  max = last_of size min;
  expires = unknown;
}

unfoldable pub full : ℕ → ℕ → ℕ → Expiry → Outcome Range
full size min max expires =
    if ltb max (last_of size min)
    then panics
    else returns (record { members = none; min = min; max = max; expires = expires })

-- What the loop over the slots comes to: the number was there, it was written, or it took the last
-- slot.
pub data Filled : Type 0 where
  there : Filled
  written : List ℕ → Filled
  no_slot_left : Filled

abbrev pub after : ℕ → Filled → Filled
after val there = there
after val (written members) = written (val ∷ members)
after val no_slot_left = no_slot_left

abbrev pub write_first : ℕ → List ℕ → Filled
write_first num_small [] = no_slot_left
write_first num_small (val ∷ rest) = written (num_small ∷ val ∷ rest)

-- The loop from one slot on; past the last one it panics.
unfoldable pub fill : ℕ → List ℕ → Outcome Filled
fill num_small [] = panics
fill num_small (val ∷ rest) =
    let later = fill num_small rest >>= λ f. returns (after val f) in
    if val == num_small
    then returns there
    else (if val == 0 then returns (write_first num_small rest) else later)

-- `(num - self.min + 1) as u8`
abbrev pub small_of : Range → ℕ → ℕ
small_of r num = (num + 2 ^ 64 - r.min + 1) % 2 ^ 8

abbrev pub with_filled : Range → Filled → Option Range
with_filled r there = none
with_filled r (written members) = some (record r { members = some members })
with_filled r no_slot_left = some (record r { members = none })

abbrev pub add_num_at : Range → ℕ → Option (List ℕ) → Outcome (Option Range)
add_num_at r num_small none = returns none
add_num_at r num_small (some members) = fill num_small members >>= λ f. returns (with_filled r f)

unfoldable pub add_num : Range → ℕ → Outcome (Option Range)
add_num r num = add_num_at r (small_of r num) r.members
