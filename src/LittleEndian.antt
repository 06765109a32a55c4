-- ===== src/LittleEndian.antt =====
-- `to_le_bytes` and `from_le_bytes` of unsigned numbers.
use mono_old.Common.{
  ℕ, zero, suc, ◌+◌, ◌*◌, ◌/◌, ◌%◌, ◌^◌, ◌<◌, ◌≡◌, refl, List, [], ◌∷◌, length, arith, ap,
}

unfoldable pub to_le : ℕ → ℕ → List ℕ
to_le zero c = []
to_le (suc n) c = (c % 256) ∷ to_le n (c / 256)

unfoldable pub from_le : List ℕ → ℕ
from_le [] = 0
from_le (b ∷ bs) = b + 256 * from_le bs

-- The numbers of so many bytes are those below this.
abbrev bound : ℕ → ℕ
bound zero = 1
bound (suc n) = 256 * bound n

from_le-to_le : (n c : ℕ) → c < bound n → from_le (to_le n c) ≡ c
unfolding to_le from_le
from_le-to_le zero c h = omega arith
from_le-to_le (suc n) c h = omega (arith, from_le-to_le n (c / 256) (omega arith))

pub u64-round : (c : ℕ) → c < 2 ^ 64 → from_le (to_le 8 c) ≡ c
u64-round c h = from_le-to_le 8 c h

pub length-to_le : (n c : ℕ) → length (to_le n c) ≡ n
unfolding to_le
length-to_le zero c = refl
length-to_le (suc n) c = ap suc (length-to_le n (c / 256))
