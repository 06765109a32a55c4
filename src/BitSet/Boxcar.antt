-- ===== src/BitSet/Boxcar.antt =====
-- The crate `boxcar`: an append-only vector that is read and pushed to through shared references.
-- `store` is a write through the reference that `get` hands out, to an atomic element.
use mono_old.Common.{ℕ, ◌+◌, ◌≤◌, ◌<◌, ◌≡◌, Option, none, some, ◌==◌, if◌then◌else◌}

pub record Boxcar : Type 1 where
  pub Vec : Type 0
  pub empty : Vec
  pub push : Vec → ℕ → Vec
  pub get : Vec → ℕ → Option ℕ
  pub store : Vec → ℕ → ℕ → Vec
  pub count : Vec → ℕ
  pub count-empty : count empty ≡ 0
  pub count-push : (v : Vec) (x : ℕ) → count (push v x) ≡ count v + 1
  pub count-store : (v : Vec) (i x : ℕ) → count (store v i x) ≡ count v
  pub get-ge : (v : Vec) (i : ℕ) → count v ≤ i → get v i ≡ none
  pub get-lt : (v : Vec) (i : ℕ) → i < count v → (x : ℕ) × (get v i ≡ some x)
  pub get-push : (v : Vec) (x i : ℕ) → get (push v x) i ≡ (if count v == i then some x else get v i)
  pub get-store :
      (v : Vec) (i x j : ℕ)
      → i < count v
      → get (store v i x) j ≡ (if i == j then some x else get v j)
