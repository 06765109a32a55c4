-- ===== src/Lazy.antt =====
-- `Lazy` of lazy-borink/lazy-borink/src/lib.rs: a value, or the bytes that it is read from. The
-- serializer is the crate `rmp_serde`, a parameter.
pub mod Laws
use mono_old.Common.{ℕ, Option, none, some, List, Outcome, returns, panics, ◌>>=◌, Result, ok, err}

pub record Lazy (T : Type 0) : Type 0 where
  pub bytes : Option (List ℕ)
  pub inner : Option T

abbrev pub from_bytes : {T : Type 0} → List ℕ → Lazy T
from_bytes b = record { bytes = some b; inner = none }

abbrev pub from_inner : {T : Type 0} → T → Lazy T
from_inner t = record { bytes = none; inner = some t }

-- `if let Some(x) = first { .. } else if let Some(y) = second { .. } else { panic!(..) }`
abbrev pub either :
    {A B C : Type 0} → Option A → Option B → (A → Outcome C) → (B → Outcome C) → Outcome C
either (some a) o f g = f a
either none (some b) f g = g b
either none none f g = panics

pub map : {T R : Type 0} → Lazy T → (T → R) → Outcome (Lazy R)
map l op =
    either l.inner l.bytes (λ inner. returns (from_inner (op inner))) (λ b. returns (from_bytes b))

abbrev pub unwrap : {T E : Type 0} → Result T E → Outcome T
unwrap (ok t) = returns t
unwrap (err e) = panics

module _ {T E : Type 0} (deserialize : List ℕ → Result T E) (serialize : T → List ℕ) where
  -- A call on a lazy value without bytes.
  abbrev pub borrow_inner : Lazy T → Outcome (Lazy T × Result T E)
  borrow_inner l = elim l.inner [ some inner ↦ returns (l, ok inner) | none ↦ panics ]

  -- The bytes are taken before they are read; on success the method calls itself once more.
  abbrev pub read_taken : Lazy T → Result T E → Outcome (Lazy T × Result T E)
  read_taken l (err e) = returns (record l { bytes = none }, err e)
  read_taken l (ok inner) = borrow_inner (record { bytes = none; inner = some inner })

  pub try_inner : Lazy T → Outcome (Lazy T × Result T E)
  try_inner l = elim l.bytes [ some b ↦ read_taken l (deserialize b) | none ↦ borrow_inner l ]

  pub try_take : Lazy T → Outcome (Result T E)
  try_take l = either l.bytes l.inner (λ b. returns (deserialize b)) (λ inner. returns (ok inner))

  pub inner : Lazy T → Outcome (Lazy T × T)
  inner l = try_inner l >>= λ r. unwrap r.1 >>= λ t. returns (r.0, t)

  pub take : Lazy T → Outcome T
  take l = try_take l >>= unwrap

  -- The value is taken, and the bytes are stored before they are borrowed.
  pub bytes : Lazy T → Outcome (Lazy T × List ℕ)
  bytes l =
      either l.inner l.bytes
        (λ t. returns (record { bytes = some (serialize t); inner = none }, serialize t))
        (λ b. returns (l, b))

  pub take_bytes : Lazy T → Outcome (List ℕ)
  take_bytes l = either l.inner l.bytes (λ t. returns (serialize t)) (λ b. returns b)
