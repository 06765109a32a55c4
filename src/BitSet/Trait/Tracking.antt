-- ===== src/BitSet/Trait/Tracking.antt =====
-- What makes a bit set a record of the numbers that it was asked about, and what follows for a
-- whole history of calls.
use mono_old.Common.{
  ℕ, Bool, false, ◌||◌, ◌≡◌, refl, none, List, [], ◌∷◌, map, Outcome, returns, ◌>>=◌, Returns, ◌==◌,
  ap, All, member,
}
use mono_old.BitSet.Trait.{CompactSet}

-- The answers of a set that forgets nothing: was the number asked about before?
unfoldable pub report : List ℕ → List ℕ → List Bool
report earlier [] = []
report earlier (n ∷ ns) = member n earlier ∷ report (n ∷ earlier) ns

-- A history of calls of `num_exists`, with the answers in order.
unfoldable pub run : {S : Type 0} → CompactSet S → S → List ℕ → Outcome (List Bool)
run c s [] = returns []
run c s (n ∷ ns) =
    c.num_exists s n 0 none >>= λ r. run c r.0 ns >>= λ answers. returns (r.1 ∷ answers)

-- The set answers by `key n` for each allowed `n`, and records it.
pub record Tracks {S : Type 0} (c : CompactSet S) (new : S) (key : ℕ → ℕ) (Allowed : ℕ → Type 0)
    : Type 1 where
  pub seen : S → ℕ → Bool
  pub IsValid : S → Type 0
  pub new-IsValid : IsValid new
  pub seen-new : (m : ℕ) → seen new m ≡ false
  pub records :
      (s : S) (n : ℕ)
      → IsValid s
      → Allowed n
      → Returns (c.num_exists s n 0 none) λ r.
        (r.1 ≡ seen s (key n)) × IsValid r.0 × ((m : ℕ) → seen r.0 m ≡ key n == m || seen s m)

module _ {S : Type 0} {c : CompactSet S} {new : S} {key : ℕ → ℕ} {Allowed : ℕ → Type 0}
    (t : Tracks c new key Allowed) where
  run_from :
      (s : S) (earlier ns : List ℕ)
      → t.IsValid s
      → ((m : ℕ) → t.seen s m ≡ member m earlier)
      → All Allowed ns
      → run c s ns ≡ returns (report earlier (map key ns))
  unfolding run report
  run_from s earlier [] valid same allowed = refl
  run_from s earlier (n ∷ ns) valid same allowed =
      let (r, call, (answer, valid', sets)) = t.records s n valid allowed.0 in
      rw
        (
          call,
          run_from r.0 (key n ∷ earlier) ns valid' (λ m. rw (sets m, same m) refl) allowed.1,
          answer,
          same (key n),
        )
        refl

  -- From the new set on, every answer is right for the whole history.
  pub run-report : (ns : List ℕ) → All Allowed ns → run c new ns ≡ returns (report [] (map key ns))
  run-report ns allowed = run_from new [] ns t.new-IsValid t.seen-new allowed

pub map_self : (ns : List ℕ) → map (λ n. n) ns ≡ ns
map_self [] = refl
map_self (n ∷ ns) = ap (λ x. n ∷ x) (map_self ns)
