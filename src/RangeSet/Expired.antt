-- ===== src/RangeSet/Expired.antt =====
-- Laws of `check_expired` and `num_exists` of tiauth/tiauth-core/src/counter.rs.
use mono_old.Common.{
  ℕ, zero, suc, ◌%◌, ◌≤◌, ◌<◌, ◌≡◌, refl, ◌∙◌, sym, ap, Bool, true, false, ◌||◌, not, ==_iff,
  Option, none, some, [], ◌∷◌, ◌++◌, returns, Returns, arith, ◌==◌, ==_refl, leb, leb-true,
  if◌then◌else◌, Bool-cases, inl, inr, length, get_elem?, get_elem?-lt, drop, subst,
}
use mono_old.RangeSet.Range.{Range, at, full}
use mono_old.RangeSet.Range.Laws.{holds}
use mono_old.RangeSet.Deque.{partition_point}
use mono_old.RangeSet.Deque.Chain.{
  starts, held, reach, IsChain, same-Joins, joined-Joins, starts-later, Extends,
}
use mono_old.RangeSet.Deque.Merge.{full-returns}
use mono_old.RangeSet.Laws.{add_num-Extends, split_at}
use mono_old.RangeSet.{
  Ranges, expires_by, expired_search, expire_before, check_expired, at_time, num_exists,
}

abbrev joined : Range → Range → Range
joined a b = record { members = none; min = a.min; max = b.max; expires = at 0 }

-- A chain in place of another that holds what the other held.
pub record Keeps (size : ℕ) (rs rs' : Ranges) : Type 0 where
  pub chain : IsChain size rs'
  pub kept : (m : ℕ) → held rs m ≡ true → held rs' m ≡ true

in_post :
    (post : Ranges) (a b : Range) (m : ℕ)
    → leb b.min m ≡ true
    → starts post m ≡ true
    → held (a ∷ b ∷ post) m ≡ true
    → held post m ≡ true
unfolding held
in_post post a b m lower inner on =
    subst (λ s. (if s then held post m else holds b m) ≡ true) inner
      (subst (λ s. (if s then held (b ∷ post) m else holds a m) ≡ true) lower on)

in_two :
    (post : Ranges) (a b : Range) (m : ℕ)
    → starts post m ≡ false
    → a.min < b.min
    → a.max ≤ b.max
    → held (a ∷ b ∷ post) m ≡ true
    → holds (joined a b) m ≡ true
unfolding held holds
in_two post a b m outer order longer on = ground (
  arith,
  subst (λ s. (if leb b.min m then (if s then held post m else holds b m) else holds a m) ≡ true)
      outer on,
)

keep-two :
    (size : ℕ) (a b : Range) (post : Ranges)
    → IsChain size (a ∷ b ∷ post)
    → Keeps size (a ∷ b ∷ post) (joined a b ∷ post)
unfolding held holds
keep-two size a b post (valid, joins, (valid', joins', chain)) = record {
  chain = (
    record {
      starts = valid.starts;
      ends = valid'.ends;
      room = omega (arith, valid.room, joins.2);
      members = omega (arith, valid.room, joins.2);
    },
    joined-Joins a b post (at 0) joins.0 joins',
    chain,
  );
  kept = λ m on. elim (Bool-cases (starts post m)) [
    | inl inner ↦
        let lower : leb b.min m ≡ true = leb-true b.min m (starts-later b post m joins' inner) in
        rw inner (in_post post a b m lower inner on)
    | inr outer ↦ rw outer (in_two post a b m outer (joins.0) (joins.2) on)
  ];
}

-- All ranges up to one of them as a single full range.
collapse :
    (size : ℕ) (f : Range) (pre : Ranges) (r : Range) (post : Ranges)
    → IsChain size ((f ∷ pre) ++ (r ∷ post))
    → Keeps size ((f ∷ pre) ++ (r ∷ post)) (joined f r ∷ post)
collapse size f [] r post chain = keep-two size f r post chain
collapse size f (p ∷ pre) r post chain =
    let first = keep-two size f p (pre ++ (r ∷ post)) chain in
    let rest = collapse size (joined f p) pre r post first.chain in
    record { chain = rest.chain; kept = λ m on. rest.kept m (first.kept m on) }

point-le : (less : Range → Bool) (rs : Ranges) → partition_point less rs ≤ length rs
unfolding partition_point
point-le less [] = omega arith
point-le less (r ∷ rs) = ground (arith, point-le less rs)

keep-one :
    (size : ℕ) (f : Range) (post : Ranges)
    → IsChain size (f ∷ post)
    → Keeps size (f ∷ post) (joined f f ∷ post)
unfolding held holds
keep-one size f post (valid, joins, chain) = record {
  chain = (
    record { starts = valid.starts; ends = valid.ends; room = valid.room; members = valid.room },
    same-Joins f (joined f f) post refl refl joins,
    chain,
  );
  kept = λ m on. elim (Bool-cases (starts post m)) [
    | inl inner ↦ rw inner (subst (λ s. (if s then held post m else holds f m) ≡ true) inner on)
    | inr outer ↦
        rw outer
          (ground (arith, subst (λ s. (if s then held post m else holds f m) ≡ true) outer on))
  ];
}

drop-after :
    (pre : Ranges) (r : Range) (post rs : Ranges) (n : ℕ)
    → rs ≡ pre ++ (r ∷ post)
    → n ≡ length pre
    → drop (suc n) rs ≡ post
drop-after pre r post rs n e h = rw (e, h) (drop-past pre)
  where
    drop-past : (pre : Ranges) → drop (suc (length pre)) (pre ++ (r ∷ post)) ≡ post
    drop-past [] = refl
    drop-past (p ∷ pre) = drop-past pre

full-joined :
    (size : ℕ) (f r : Range) (post : Ranges)
    → IsChain size (joined f r ∷ post)
    → full size f.min r.max (at 0) ≡ returns (joined f r)
full-joined size f r post (valid, rest, rest') =
    full-returns size (joined f r) (joined f r) (at 0) valid valid (omega arith)

expire_some :
    (size : ℕ) (f r : Range) (ranges : Ranges) (last : ℕ) (post : Ranges)
    → get_elem? ranges 0 ≡ some f
    → get_elem? ranges last ≡ some r
    → full size f.min r.max (at 0) ≡ returns (joined f r)
    → drop (suc last) ranges ≡ post
    → expire_before size ranges (suc last) ≡ returns (joined f r ∷ post)
unfolding expire_before
expire_some size f r ranges last post at_first at_last fits e =
    rw (at_first, at_last, fits, expire_before) (ap (λ xs. returns (joined f r ∷ xs)) e)

expire_before-Keeps :
    (size : ℕ) (f : Range) (rs : Ranges) (n : ℕ)
    → IsChain size (f ∷ rs)
    → n ≤ length (f ∷ rs)
    → Returns (expire_before size (f ∷ rs) n) (Keeps size (f ∷ rs))
unfolding expire_before
expire_before-Keeps size f rs zero chain h =
    (f ∷ rs, refl, record { chain = chain; kept = λ m on. on })
expire_before-Keeps size f rs (suc zero) chain h =
    let keeps = keep-one size f rs chain in
    (joined f f ∷ rs, rw (full-joined size f f rs keeps.chain) refl, keeps)
expire_before-Keeps size f rs (suc (suc n)) chain h =
    let (r, at_n) = get_elem?-lt rs n (omega arith) in
    let (pre, post, split, index) = split_at rs n r at_n in
    let keeps = collapse size f pre r post (subst (λ xs. IsChain size (f ∷ xs)) split chain) in
    (
      joined f r ∷ post,
      expire_some size f r (f ∷ rs) (suc n) post refl at_n (full-joined size f r post keeps.chain)
          (drop-after pre r post rs n split index),
      subst (λ xs. Keeps size (f ∷ xs) (joined f r ∷ post)) (sym split) keeps,
    )

at_time-Keeps :
    (size : ℕ) (f : Range) (rs : Ranges) (num : ℕ) (time : Option ℕ)
    → IsChain size (f ∷ rs)
    → Returns (at_time size (f ∷ rs) num time) (Keeps size (f ∷ rs))
unfolding check_expired expired_search
at_time-Keeps size f rs num none chain = (f ∷ rs, refl, record { chain = chain; kept = λ m on. on })
at_time-Keeps size f rs num (some time) chain = elim (Bool-cases (num % 4 == 0)) [
  | inl fourth ↦ rw fourth (
      expire_before-Keeps size f rs (partition_point (λ r. expires_by time r.expires) (f ∷ rs))
        chain (point-le (λ r. expires_by time r.expires) (f ∷ rs)))
  | inr other ↦ rw other (f ∷ rs, refl, record { chain = chain; kept = λ m on. on })
]

nonempty-at_time :
    (size : ℕ) (rs : Ranges) (num : ℕ) (time : Option ℕ)
    → IsChain size rs
    → starts rs num ≡ true
    → Returns (at_time size rs num time) (Keeps size rs)
nonempty-at_time size [] num time chain on = cc on
nonempty-at_time size (f ∷ rs) num time chain on = at_time-Keeps size f rs num time chain

pub num_exists-Keeps :
    (size : ℕ) (ranges : Ranges) (num expires : ℕ) (time : Option ℕ)
    → size ≤ 255
    → IsChain size ranges
    → starts ranges num ≡ true
    → num ≤ reach ranges
    → Returns (num_exists size ranges num expires time) λ out.
      (out.1 ≡ held ranges num)
      × IsChain size out.0
      × ((mid : Ranges) × Extends size (λ m. num == m) ranges mid × Keeps size mid out.0)
unfolding num_exists
num_exists-Keeps size ranges num expires time narrow chain on far =
    let (r, call, (answer, e)) = add_num-Extends size ranges num expires narrow chain on far in
    let (out, call', keeps) = nonempty-at_time size r.0 num time e.chain (e.same_start num ∙ on) in
    ((out, r.1), rw (call, call') refl, (answer, keeps.chain, (r.0, e, keeps)))

-- A number that was held, or is the one that is asked for, is held afterwards.
abbrev pub remembers : Bool → Bool → Bool → Bool
remembers before is_num after = not (before || is_num) || after

remembers-held :
    (before is_num after : Bool)
    → (before ≡ true → after ≡ true)
    → (is_num ≡ true → after ≡ true)
    → remembers before is_num after ≡ true
remembers-held true is_num after h k = h refl
remembers-held false true after h k = k refl
remembers-held false false after h k = refl

-- On a chain of ranges of at most 255 numbers, for a number `num` from the first range's start up
-- to the end of the last range, and whatever the expiry and the time, `num_exists` does not panic.
-- It answers whether `num` was held and leaves a chain that holds `num` and each number `m` from
-- the first range's start on that was held before.
pub num_exists-remembers :
    (size : ℕ) (ranges : Ranges) (num expires : ℕ) (time : Option ℕ) (m : ℕ)
    → size ≤ 255
    → IsChain size ranges
    → starts ranges num ≡ true
    → num ≤ reach ranges
    → starts ranges m ≡ true
    → Returns (num_exists size ranges num expires time) λ out.
      (out.1 ≡ held ranges num)
      × IsChain size out.0
      × (held out.0 num ≡ true)
      × (remembers (held ranges m) (num == m) (held out.0 m) ≡ true)
num_exists-remembers size ranges num expires time m narrow chain on far on' =
    let (out, call, (answer, chain', (mid, e, keeps))) =
      num_exists-Keeps size ranges num expires time narrow chain on far in
    let added =
      keeps.kept num (e.holds_more num on ∙ ap (λ b. b || held ranges num) (==_refl num)) in
    (
      out,
      call,
      (
        answer,
        chain',
        added,
        remembers-held (held ranges m) (num == m) (held out.0 m)
            (λ before. keeps.kept m (e.holds_more m on' ∙ or_true (num == m) before))
            (λ is_num. subst (λ n. held out.0 n ≡ true) ((==_iff num m).0 is_num) added),
      ),
    )
  where
    or_true : {b : Bool} (a : Bool) → b ≡ true → a || b ≡ true
    or_true true h = refl
    or_true false h = h
