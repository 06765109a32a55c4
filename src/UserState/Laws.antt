-- ===== src/UserState/Laws.antt =====
-- The histories of a `UserState` of borink-core/borink-auth/src/lib.rs.
use mono_old.Common.{
  inl, inr, subst, ℕ, ◌+◌, ◌%◌, ◌^◌, ◌<◌, ◌≤◌, ◌≡◌, refl, ◌∙◌, sym, Bool, true, false, ◌||◌,
  returns, panics, Returns, arith, ◌==◌, ==_refl,
}
use mono_old.BitSet.Small.Laws.{
  IsArray, new-IsArray, diagonal, diagonal-new, num_exists-diagonal, reset-IsArray, diagonal-reset,
}
use mono_old.BitSet.Small.Collisions.{num_exists-panics}
use native.Mathlib.Decide.{dec_lt}
use mono_old.UserState.{UserState, new, next, seen, reset}

-- A history: numbers are handed out, numbers that were handed out since the last reset come back,
-- the state is reset.
-- The counter stays below its wrap.
pub data Reachable : UserState → Type 0 where
  start : Reachable new
  hand_out : {s : UserState} → Reachable s → s.counter + 1 < 2 ^ 64 → Reachable (next s).0
  comes_back :
      {s s' : UserState} {num : ℕ} {b : Bool}
      → Reachable s
      → num < s.counter
      → seen s num ≡ returns (s', b)
      → Reachable s'
  restart : {s : UserState} → Reachable s → Reachable (reset s)

record IsValid (s : UserState) : Type 0 where
  is_array : IsArray s.seen_set
  issued : (m : ℕ) → diagonal s.seen_set m ≡ true → m < s.counter

returned : {A : Type 0} {x y : A} → returns x ≡ returns y → x ≡ y
returned e = cc e

fresh : (s : UserState) → IsValid s → s.counter < 32 → diagonal s.seen_set (s.counter % 64) ≡ false
fresh s valid h = ground (arith, valid.issued (s.counter % 64))

seen-lem :
    (s : UserState) (num : ℕ)
    → IsArray s.seen_set
    → num < 2048
    → num % 64 < 32
    → Returns (seen s num) λ r.
      (r.1 ≡ diagonal s.seen_set (num % 64))
      × IsArray r.0.seen_set
      × (r.0.counter ≡ s.counter)
      × ((m : ℕ) → diagonal r.0.seen_set m ≡ (num % 64) == m || diagonal s.seen_set m)
unfolding seen
seen-lem s num valid h low =
    let (r, call, (answer, valid', sets)) = num_exists-diagonal s.seen_set num valid h low in
    ((record s { seen_set = r.0 }, r.1), rw call refl, (answer, valid', refl, sets))

-- A number that is answered is one that the small set does not panic at.
answered :
    (s s' : UserState) (num : ℕ) (b : Bool)
    → IsArray s.seen_set
    → seen s num ≡ returns (s', b)
    → (num < 2048) × (num % 64 < 32)
unfolding seen
answered s s' num b valid e = elim (dec_lt num 2048) [
  | no h ↦ cc ((num_exists-panics s.seen_set num valid).1 (inl (omega arith)), e)
  | yes h ↦ elim (dec_lt (num % 64) 32) [
    | no high ↦ cc ((num_exists-panics s.seen_set num valid).1 (inr (omega arith)), e)
    | yes low ↦ (h, low)
  ]
]

reset-IsValid : (s : UserState) → IsArray s.seen_set → IsValid (reset s)
unfolding reset
reset-IsValid s valid = record {
  is_array = reset-IsArray s.seen_set valid;
  issued = λ m e. cc (diagonal-reset s.seen_set m, e);
}

Reachable-IsValid : {s : UserState} → Reachable s → IsValid s
Reachable-IsValid start = record { is_array = new-IsArray; issued = λ m e. cc (diagonal-new m, e) }
Reachable-IsValid (hand_out {s} earlier h) =
    let valid = Reachable-IsValid earlier in
    record { is_array = valid.is_array; issued = λ m e. omega (arith, valid.issued m e) }
Reachable-IsValid (comes_back {s} {s'} {num} {b} earlier h call) =
    let valid = Reachable-IsValid earlier in
    let (small, low) = answered s s' num b valid.is_array call in
    let (r, call', (answer, is_array, same, sets)) = seen-lem s num valid.is_array small low in
    let e : (s', b) ≡ r = returned (sym call ∙ call') in
    record {
      is_array = subst (λ p. IsArray p.0.seen_set) (sym e) is_array;
      issued = λ m on.
          subst (λ p. diagonal p.0.seen_set m ≡ true → m < p.0.counter) (sym e)
            (λ on'. ground (arith, sets m, valid.issued m)) on;
    }
Reachable-IsValid (restart {s} earlier) = reset-IsValid s (Reachable-IsValid earlier).is_array

-- After a history in which the counter stays below its wrap, and only numbers come back that were
-- handed out since the last reset, while fewer than 32 of them have been handed out, the next
-- number is answered as not seen when it comes back, and as seen when it comes back again.
pub next-seen_once :
    {s : UserState}
    → Reachable s
    → s.counter < 32
    → Returns
        (seen (next s).0 (next s).1)
        λ first. (first.1 ≡ false) × Returns (seen first.0 (next s).1) λ second. second.1 ≡ true
next-seen_once {s} reachable h =
    let valid = Reachable-IsValid reachable in
    let n = s.counter in
    let (r, call, (answer, is_array, same, sets)) =
      seen-lem (next s).0 n valid.is_array (omega arith) (omega arith) in
    let (r', call', (answer', rest, rest', rest'')) =
      seen-lem r.0 n is_array (omega arith) (omega arith) in
    (
      r,
      call,
      (answer ∙ fresh s valid h, (r', call', answer' ∙ sets (n % 64) ∙ rw (==_refl (n % 64)) refl)),
    )

-- After a history in which the counter stays below its wrap, and only numbers come back that were
-- handed out since the last reset, once 32 of them have been handed out and fewer than 64, the next
-- number panics when it comes back.
pub next-panics :
    {s : UserState}
    → Reachable s
    → 32 ≤ s.counter
    → s.counter < 64
    → seen (next s).0 (next s).1 ≡ panics
unfolding seen
next-panics {s} reachable low high =
    let valid = Reachable-IsValid reachable in
    rw ((num_exists-panics s.seen_set s.counter valid.is_array).1 (inr (omega arith))) refl
