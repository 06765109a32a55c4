-- ===== src/RangeSet/Deque/Chain.antt =====
-- A chain of ranges: sorted, without gaps, each one well-formed, and the numbers that it holds.
use mono_old.Common.{
  ℕ, ◌+◌, ◌≤◌, ◌<◌, ◌≡◌, refl, ◌∙◌, ap, Bool, true, false, ◌||◌, none, some, List, [], ◌∷◌, ◌++◌,
  arith, ◌==◌, ==_iff, leb, leb-true, if◌then◌else◌, Bool-cases, inl, inr, All,
}
use mono_old.RangeSet.Range.{Range, Expiry}
use mono_old.RangeSet.Range.Laws.{IsRange, Adds, holds}

abbrev pub starts : List Range → ℕ → Bool
starts [] m = false
starts (r ∷ rs) m = leb r.min m

-- A number is looked up in the last range that starts at it or before it.
unfoldable pub held : List Range → ℕ → Bool
held [] m = false
held (r ∷ rs) m = if starts rs m then held rs m else holds r m

-- The last number of the last range.
abbrev pub reach_from : ℕ → List Range → ℕ
reach_from d [] = d
reach_from d (r ∷ rs) = reach_from r.max rs

abbrev pub reach : List Range → ℕ
reach rs = reach_from 0 rs

abbrev pub Joins : Range → List Range → Type 0
Joins r [] = Unit
Joins r (next ∷ rs) = (r.min < next.min) × (next.min ≤ r.max + 1) × (r.max ≤ next.max)

abbrev pub IsChain : ℕ → List Range → Type 0
IsChain size [] = Unit
IsChain size (r ∷ rs) = IsRange size r × Joins r rs × IsChain size rs

-- A later part of a chain in place of another: it starts at the same number, ends no earlier, and
-- holds the numbers of `extra` as well.
pub record Extends (size : ℕ) (extra : ℕ → Bool) (rs rs' : List Range) : Type 0 where
  pub chain : IsChain size rs'
  pub joins : (r : Range) → Joins r rs → Joins r rs'
  pub same_reach : (d : ℕ) → reach_from d rs' ≡ reach_from d rs
  pub same_start : (m : ℕ) → starts rs' m ≡ starts rs m
  pub holds_more : (m : ℕ) → starts rs m ≡ true → held rs' m ≡ extra m || held rs m

pub IsChain-suffix : (size : ℕ) (pre rs : List Range) → IsChain size (pre ++ rs) → IsChain size rs
IsChain-suffix size [] rs chain = chain
IsChain-suffix size (r ∷ pre) rs chain = IsChain-suffix size pre rs chain.2

pub contradicts : (b : Bool) {c : Bool} (d : Bool) → (d ≡ true → c ≡ true) → c ≡ false → b ≡ d || b
contradicts b true h off = cc (h refl, off)
contradicts b false h off = refl

pub same-Joins :
    (r r' : Range) (post : List Range)
    → r'.min ≡ r.min
    → r'.max ≡ r.max
    → Joins r post
    → Joins r' post
same-Joins r r' [] min max j = j
same-Joins r r' (n ∷ post) min max j =
    (omega (arith, j.0, min), omega (arith, j.1, max), omega (arith, j.2, max))

before :
    (extra : ℕ → Bool) (pre rs : List Range) (m : ℕ) (b : Bool)
    → starts (pre ++ rs) m ≡ false
    → (extra m ≡ true → All (λ r. r.min ≤ m) pre × (starts rs m ≡ true))
    → b ≡ extra m || b
before extra [] rs m b outer inside = contradicts b (extra m) (λ on. (inside on).1) outer
before extra (p ∷ pre) rs m b outer inside =
    contradicts b (extra m) (λ on. leb-true p.min m (inside on).0.0) outer

-- An extension of a suffix extends the chain, when the extra numbers lie in the suffix.
pub Extends-under :
    (size : ℕ) (extra : ℕ → Bool) (pre rs rs' : List Range)
    → IsChain size (pre ++ rs)
    → ((m : ℕ) → extra m ≡ true → All (λ r. r.min ≤ m) pre × (starts rs m ≡ true))
    → Extends size extra rs rs'
    → Extends size extra (pre ++ rs) (pre ++ rs')
unfolding held
Extends-under size extra [] rs rs' chain inside e = e
Extends-under size extra (r ∷ pre) rs rs' (valid, joins, chain) inside e =
    let later =
      Extends-under size extra pre rs rs' chain (λ m on. ((inside m on).0.1, (inside m on).1)) e in
    record {
      chain = (valid, later.joins r joins, later.chain);
      joins = λ p j. j;
      same_reach = λ d. later.same_reach r.max;
      same_start = λ m. refl;
      holds_more = λ m on. elim (Bool-cases (starts (pre ++ rs) m)) [
        | inl inner ↦ rw (later.same_start m, inner) (later.holds_more m inner)
        | inr outer ↦
            rw (later.same_start m, outer)
              (before extra pre rs m (holds r m) outer (λ on. ((inside m on).0.1, (inside m on).1)))
      ];
    }

pub Extends-trans :
    (size : ℕ) (extra : ℕ → Bool) (rs rs' rs'' : List Range)
    → Extends size extra rs rs'
    → Extends size (λ _. false) rs' rs''
    → Extends size extra rs rs''
Extends-trans size extra rs rs' rs'' e e' = record {
  chain = e'.chain;
  joins = λ r j. e'.joins r (e.joins r j);
  same_reach = λ d. e'.same_reach d ∙ e.same_reach d;
  same_start = λ m. e'.same_start m ∙ e.same_start m;
  holds_more = λ m on. e'.holds_more m (e.same_start m ∙ on) ∙ e.holds_more m on;
}

-- The range that took a number in place of the one before.
pub Extends-added :
    (size : ℕ) (r r' : Range) (post : List Range) (num : ℕ)
    → IsChain size (r ∷ post)
    → starts post num ≡ false
    → Adds size r num (some r')
    → Extends size (λ m. num == m) (r ∷ post) (r' ∷ post)
unfolding held
Extends-added size r r' post num (valid, joins, chain) last
      (fresh, valid', min, max, expires, sets) =
    record {
      chain = (valid', same-Joins r r' post min max joins, chain);
      joins = λ p j. (omega (arith, j.0, min), omega (arith, j.1, min), omega (arith, j.2, max));
      same_reach = λ d. ap (λ x. reach_from x post) max;
      same_start = λ m. rw min refl;
      holds_more = λ m on. elim (Bool-cases (starts post m)) [
        | inl inner ↦
            rw inner
              (contradicts (held post m) (num == m) (λ same. rw ((==_iff num m).0 same) inner) last)
        | inr outer ↦ rw outer (sets m)
      ];
    }

pub joined-Joins :
    (a b : Range) (post : List Range) (e : Expiry)
    → a.min < b.min
    → Joins b post
    → Joins (record { members = none; min = a.min; max = b.max; expires = e }) post
joined-Joins a b [] e h j = tt
joined-Joins a b (n ∷ post) e h (lo, mid, hi) = (omega arith, mid, hi)

pub starts-later :
    (b : Range) (post : List Range) (m : ℕ) → Joins b post → starts post m ≡ true → b.min ≤ m
starts-later b [] m j h = cc h
starts-later b (n ∷ post) m j h = ground (arith, j.0)

-- Two full neighbours as one range.
pub Extends-joined :
    (size : ℕ) (a b : Range) (post : List Range) (e : Expiry)
    → IsChain size (a ∷ b ∷ post)
    → a.members ≡ none
    → b.members ≡ none
    → Extends size
        (λ _. false)
        (a ∷ b ∷ post)
        (record { members = none; min = a.min; max = b.max; expires = e } ∷ post)
unfolding held holds
Extends-joined size a b post e (valid, joins, (valid', joins', chain)) fa fb = record {
  chain = (
    record {
      starts = valid.starts;
      ends = valid'.ends;
      room = omega (arith, valid.room, joins.2);
      members = omega (arith, valid.room, joins.2);
    },
    joined-Joins a b post e joins.0 joins',
    chain,
  );
  joins = λ p j. (j.0, j.1, omega (arith, j.2, joins.2));
  same_reach = λ d. refl;
  same_start = λ m. refl;
  holds_more = λ m on. elim (Bool-cases (starts post m)) [
    | inl inner ↦ rw (inner, leb-true b.min m (starts-later b post m joins' inner)) refl
    | inr outer ↦ rw (outer, fa, fb) (ground (arith, joins.0, joins.1, joins.2))
  ];
}

pub Extends-self : (size : ℕ) (rs : List Range) → IsChain size rs → Extends size (λ _. false) rs rs
Extends-self size rs chain = record {
  chain = chain;
  joins = λ r j. j;
  same_reach = λ d. refl;
  same_start = λ m. refl;
  holds_more = λ m on. refl;
}
