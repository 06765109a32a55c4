-- ===== src/Lazy/Laws.antt =====
-- Laws of `Lazy` of lazy-borink/lazy-borink/src/lib.rs, in terms of the value that it stands for.
use mono_old.Common.{ℕ, ◌≡◌, refl, none, List, returns, panics, Returns, Result, ok, err}
use mono_old.Lazy.{
  Lazy, from_bytes, from_inner, try_inner, try_take, inner, take, bytes, take_bytes,
}

module _ {T E : Type 0} (deserialize : List ℕ → Result T E) (serialize : T → List ℕ) where
  -- The value that a lazy value stands for.
  pub data Stands : Lazy T → T → Type 0 where
    as_inner : (t : T) → Stands (from_inner t) t
    as_bytes : (b : List ℕ) (t : T) → deserialize b ≡ ok t → Stands (from_bytes b) t

  -- Where the deserializer reads back what the serializer wrote, every operation on a lazy value
  -- that stands for `t` returns, yields `t` or bytes that read as `t`, and leaves a lazy value that
  -- stands for `t`.
  pub operations-Stands :
      (l : Lazy T) (t : T)
      → ((u : T) → deserialize (serialize u) ≡ ok u)
      → Stands l t
      → (Returns (inner deserialize serialize l) λ r. (r.1 ≡ t) × Stands r.0 t)
        × (Returns (bytes deserialize serialize l) λ r. (deserialize r.1 ≡ ok t) × Stands r.0 t)
        × (take deserialize serialize l ≡ returns t)
        × (Returns (take_bytes deserialize serialize l) λ b. deserialize b ≡ ok t)
  unfolding inner try_inner bytes take try_take take_bytes
  operations-Stands _ _ back (as_inner t) = (
    ((from_inner t, t), refl, (refl, as_inner t)),
    ((from_bytes (serialize t), serialize t), refl, (back t, as_bytes (serialize t) t (back t))),
    refl,
    (serialize t, refl, back t),
  )
  operations-Stands _ _ back (as_bytes b t read) = (
    ((from_inner t, t), rw read refl, (refl, as_inner t)),
    ((from_bytes b, b), refl, (read, as_bytes b t read)),
    rw read refl,
    (b, refl, read),
  )

  -- When the bytes cannot be read, `try_inner` returns the error, and leaves neither the bytes nor
  -- a value: `try_inner`, `try_take`, `bytes` and `take_bytes` panic on what it leaves.
  pub try_inner-loses :
      (b : List ℕ) (e : E)
      → deserialize b ≡ err e
      → Returns (try_inner deserialize serialize (from_bytes b)) λ r.
        (r.1 ≡ err e)
        × (try_inner deserialize serialize r.0 ≡ panics)
        × (try_take deserialize serialize r.0 ≡ panics)
        × (bytes deserialize serialize r.0 ≡ panics)
        × (take_bytes deserialize serialize r.0 ≡ panics)
  unfolding try_inner try_take bytes take_bytes
  try_inner-loses b e unread = (
    (record { bytes = none; inner = none }, err e),
    rw unread refl,
    (refl, refl, refl, refl, refl),
  )
