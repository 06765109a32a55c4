-- ===== src/Ops/Answer.antt =====
-- What the operations of the server answer: a call may panic, and its value may be an error. The
-- union types of errors in tiauth/tiauth-core/src/ops are parts of one type.
use mono_old.Common.{
  ◌≡◌, refl, ap, subst, Option, none, some, Outcome, returns, panics, Result, ok, err,
}

-- `SetLoginError` and `InvalidEphemeral`.
pub data ChangeError : Type 0 where
  state_mismatch : ChangeError
  not_found : ChangeError
  ephemeral_refused : ChangeError

pub data ServerError (StoreError OpaqueError : Type 0) : Type 0 where
  store_error : StoreError → ServerError StoreError OpaqueError
  opaque_error : OpaqueError → ServerError StoreError OpaqueError
  change_error : ChangeError → ServerError StoreError OpaqueError

-- The errors of the operations that a proof asks for: `StoreError`, `InvalidProof` and
-- `ClaimsUnsortedError`.
pub data ProofError (StoreError : Type 0) : Type 0 where
  unstored : StoreError → ProofError StoreError
  proof_refused : ProofError StoreError
  claims_unsorted : ProofError StoreError

-- A call that changes the state whatever it answers.
abbrev pub Stateful : Type 0 → Type 0 → Type 0 → Type 0
Stateful S E A = Outcome (S × Result A E)

abbrev pub Answer : Type 0 → Type 0 → Type 0
Answer E A = Outcome (Result A E)

module _ {E A : Type 0} where
  abbrev pub pure : A → Answer E A
  pure a = returns (ok a)

  abbrev pub fail : E → Answer E A
  fail e = returns (err e)

  -- `map_err` and `?`
  abbrev pub try : {F : Type 0} → (F → E) → Result A F → Answer E A
  try f (ok a) = returns (ok a)
  try f (err e) = returns (err (f e))

  abbrev pub broaden : {F : Type 0} → (F → E) → Answer F A → Answer E A
  broaden f (returns r) = try f r
  broaden f panics = panics

  -- A call that has no error, but may panic.
  abbrev pub run : Outcome A → Answer E A
  run (returns a) = returns (ok a)
  run panics = panics

  -- `todo!()` on `None`.
  abbrev pub or_todo : Option A → Answer E A
  or_todo (some a) = returns (ok a)
  or_todo none = panics

infixl 5 ◌>>=◌
abbrev pub ◌>>=◌ : {E A B : Type 0} → Answer E A → (A → Answer E B) → Answer E B
returns (ok a) >>= f = f a
returns (err e) >>= f = returns (err e)
panics >>= f = panics

-- A chain that succeeds had a first step that did.
pub bind-ok :
    {E A B : Type 0} (m : Answer E A) (f : A → Answer E B) (b : B)
    → (m >>= f) ≡ pure b
    → (a : A) × (m ≡ pure a) × (f a ≡ pure b)
bind-ok (returns (ok a)) f b h = (a, refl, h)
bind-ok (returns (err e)) f b h = cc
bind-ok panics f b h = cc

pub try-ok : {E F A : Type 0} (f : F → E) (r : Result A F) (a : A) → try f r ≡ pure a → r ≡ ok a
try-ok f (ok a') a h = cc
try-ok f (err e) a h = cc

pub broaden-ok :
    {E F A : Type 0} (f : F → E) (m : Answer F A) (a : A) → broaden f m ≡ pure a → m ≡ pure a
broaden-ok f (returns (ok a')) a h = cc
broaden-ok f (returns (err e)) a h = cc
broaden-ok f panics a h = cc

pub run-ok : {E A : Type 0} (m : Outcome A) (a : A) → run {E = E} m ≡ pure a → m ≡ returns a
run-ok (returns a') a h = cc
run-ok panics a h = cc

-- What follows with the state that a call left, and leaves it.
abbrev pub with_state : {S E A : Type 0} → S → Answer E A → Stateful S E A
with_state s (returns r) = returns (s, r)
with_state s panics = panics

abbrev pub and_then :
    {S E F A B : Type 0} → (F → E) → Stateful S F A → (S → A → Answer E B) → Stateful S E B
and_then f panics g = panics
and_then f (returns (s, err e)) g = returns (s, err (f e))
and_then f (returns (s, ok a)) g = with_state s (g s a)

pairs-eq : {S A : Type 0} (x y : S × A) → returns x ≡ returns y → x ≡ y
pairs-eq x y h = cc

with_state-ok :
    {S E B : Type 0} (t s : S) (n : Answer E B) (b : B)
    → with_state t n ≡ returns (s, ok b)
    → (t ≡ s) × (n ≡ pure b)
with_state-ok t s panics b h = cc
with_state-ok t s (returns r) b h =
    let e = pairs-eq (t, r) (s, ok b) h in (ap (λ p. p.0) e, ap (λ p. returns (p.1)) e)

pub and_then-ok :
    {S E F A B : Type 0} (f : F → E) (m : Stateful S F A) (g : S → A → Answer E B) (s : S) (b : B)
    → and_then f m g ≡ returns (s, ok b)
    → (a : A) × (m ≡ returns (s, ok a)) × (g s a ≡ pure b)
and_then-ok f panics g s b h = cc
and_then-ok f (returns (t, err e)) g s b h = cc (ap (λ p. p.1) (pairs-eq _ _ h))
and_then-ok f (returns (t, ok a)) g s b h =
    let (same_state, ran) = with_state-ok t s (g t a) b h in
    (a, ap (λ z. returns (z, ok a)) same_state, subst (λ z. g z a ≡ pure b) same_state ran)
