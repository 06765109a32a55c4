-- ===== src/BitSet/Trait.antt =====
-- The traits `AtomicBitSet` and `CompactSet` of tiauth/tiauth-core/src/counter.rs.
pub mod Tracking
use mono_old.Common.{ℕ, Bool, Option, Outcome, ◌>>=◌}

-- A method on a shared set returns the set as the call leaves it.
pub record AtomicBitSet (S : Type 0) : Type 0 where
  pub new : S
  pub max_n : S → ℕ
  pub create_up_to : S → ℕ → Outcome S
  pub exists : S → ℕ → Outcome (S × Bool)

-- `CompactSet`: was the number asked about before?
pub record CompactSet (S : Type 0) : Type 0 where
  pub num_exists : S → ℕ → ℕ → Option ℕ → Outcome (S × Bool)

module _ {S : Type 0} (b : AtomicBitSet S) where
  -- The blanket implementation of `CompactSet`: the expiry and the time are not read.
  unfoldable pub num_exists : S → ℕ → ℕ → Option ℕ → Outcome (S × Bool)
  num_exists s num expires time = do s' ← b.create_up_to s num; b.exists s' num

  abbrev pub of_bits : CompactSet S
  of_bits = record { num_exists = num_exists }
