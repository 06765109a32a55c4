-- ===== src/RangeSet/Deque/Gap.antt =====
-- The deque at one index: the range that a number falls in, and the loop that closes a gap.
use mono_old.Common.{
  ℕ, zero, suc, ◌+◌, ◌-◌, ◌≤◌, ◌<◌, ◌≡◌, refl, ◌∙◌, sym, ap, true, false, some, List, [], ◌∷◌, ◌++◌,
  returns, Returns, ◌>>=◌, arith, ltb, leb, if◌then◌else◌, Bool-cases, inl, inr, length, get_elem?,
  set, take, length-append, All, ltb-false, lt→ltb, append_assoc, append_nil, get_elem?-append,
  set-at, take-append, ◌⊎◌, subst,
}
use mono_old.RangeSet.Range.{Range}
use mono_old.RangeSet.Deque.{partition_point, copy_down, close_gap}
use mono_old.RangeSet.Deque.Chain.{starts}

-- Where the search ends: at the last range that starts at the number or before it.
pub record Located (rs : List Range) (num : ℕ) : Type 0 where
  pub pre : List Range
  pub r : Range
  pub post : List Range
  pub split : rs ≡ pre ++ r ∷ post
  pub point : partition_point (λ x. leb x.min num) rs ≡ suc (length pre)
  pub pre_below : All (λ p. leb p.min num ≡ true) pre
  pub r_below : leb r.min num ≡ true
  pub post_above : starts post num ≡ false

point-zero :
    (rs : List Range) (num : ℕ)
    → starts rs num ≡ false
    → partition_point (λ r. leb r.min num) rs ≡ 0
unfolding partition_point
point-zero [] num h = refl
point-zero (r ∷ rs) num h = rw h refl

pub locate : (rs : List Range) (num : ℕ) → starts rs num ≡ true → Located rs num
unfolding partition_point
locate [] num h = cc h
locate (r ∷ rs) num h = elim (Bool-cases (starts rs num)) [
  | inl later ↦
      let l = locate rs num later in
      record {
        pre = r ∷ l.pre;
        r = l.r;
        post = l.post;
        split = ap (λ xs. r ∷ xs) l.split;
        point = rw (h, l.point) refl;
        pre_below = (h, l.pre_below);
        r_below = l.r_below;
        post_above = l.post_above;
      }
  | inr last ↦ record {
    pre = [];
    r = r;
    post = rs;
    split = refl;
    point = rw (h, point-zero rs num last) refl;
    pre_below = tt;
    r_below = h;
    post_above = last;
  }
]

module _ {A : Type 0} where
  -- A list is empty or has a last element.
  pub last-cases : (xs : List A) → (xs ≡ []) ⊎ ((pre : List A) × (x : A) × (xs ≡ pre ++ x ∷ []))
  last-cases [] = inl refl
  last-cases (x ∷ xs) = elim (last-cases xs) [
    | inl e ↦ inr ([], x, ap (λ ys. x ∷ ys) e)
    | inr (pre, y, e) ↦ inr (x ∷ pre, y, ap (λ ys. x ∷ ys) e)
  ]

  get_elem?-step :
      (pre mid : List A) (x : A) (post : List A) (i : ℕ)
      → i ≡ length pre + length mid
      → get_elem? (pre ++ (mid ++ (x ∷ post))) i ≡ some x
  get_elem?-step [] mid x post i e =
      subst (λ j. get_elem? (mid ++ (x ∷ post)) j ≡ some x) (omega (arith, e))
        (get_elem?-append mid x post)
  get_elem?-step (p ∷ pre) mid x post zero e = let bad : 1 ≤ 0 = omega arith in elim bad [ ]
  get_elem?-step (p ∷ pre) mid x post (suc i) e = get_elem?-step pre mid x post i (omega arith)

-- The loop moves what follows the gap to its start, and leaves as many ranges behind it.
copy_down-Returns :
    (pre hole post ranges : List Range) (k i : ℕ)
    → ranges ≡ pre ++ (hole ++ post)
    → i ≡ length pre
    → length hole ≡ suc k
    → Returns
        (copy_down (length post) (suc k) i ranges)
        λ out. (left : List Range) × (out ≡ (pre ++ post) ++ left) × (length left ≡ suc k)
unfolding copy_down
copy_down-Returns pre hole [] ranges k i e h size =
    (ranges, refl, (hole, rw (append_nil pre) (e ∙ rw (append_nil hole) refl), size))
copy_down-Returns pre [] (x ∷ post) ranges k i e h size = cc size
copy_down-Returns pre (gap ∷ mid) (x ∷ post) ranges k i e h size =
    let at : get_elem? ranges (i + suc k) ≡ some x =
      rw e (get_elem?-step pre (gap ∷ mid) x post (i + suc k) (omega arith)) in
    let moved : set ranges i x ≡ (pre ++ (x ∷ [])) ++ ((mid ++ (x ∷ [])) ++ post) =
      set-at pre gap (mid ++ (x ∷ post)) ranges x i e h
      ∙ append_assoc pre x (mid ++ (x ∷ post))
      ∙ ap (λ ys. (pre ++ (x ∷ [])) ++ ys) (append_assoc mid x post) in
    let (out, call, (left, e', size')) =
      copy_down-Returns (pre ++ (x ∷ [])) (mid ++ (x ∷ [])) post (set ranges i x) k (suc i) moved
        (omega (arith, length-append pre (x ∷ []))) (omega (arith, length-append mid (x ∷ []))) in
    (
      out,
      rw (at, copy_down) call,
      (left, e' ∙ ap (λ ys. ys ++ left) (sym (append_assoc pre x post)), size'),
    )

take-to : (xs ys zs : List Range) (n : ℕ) → zs ≡ xs ++ ys → n ≡ length xs → take n zs ≡ xs
take-to xs ys zs n e h = rw (e, h) (take-append xs ys)

close_at :
    (pre hole post ranges : List Range) (k start stop : ℕ)
    → ranges ≡ pre ++ (hole ++ post)
    → start ≡ length pre
    → stop ≡ length pre + length post
    → length hole ≡ suc k
    → ((if ltb start stop then copy_down (stop - start) (suc k) start ranges else returns ranges)
        >>= λ moved. returns (take stop moved))
      ≡ returns (pre ++ post)
close_at pre hole [] ranges k start stop e h h' size =
    rw (ltb-false start stop (omega arith), append_nil pre)
      (ap returns (take-to pre (hole ++ []) ranges stop e (omega arith)))
close_at pre hole (x ∷ post) ranges k start stop e h h' size =
    let rounds : stop - start ≡ length (x ∷ post) = omega arith in
    let (out, call, (left, e', size')) =
      copy_down-Returns pre hole (x ∷ post) ranges k start e h size in
    rw (lt→ltb start stop (omega arith), rounds)
      (rw call (
        ap returns (
          take-to (pre ++ (x ∷ post)) left out stop e'
            (omega (arith, length-append pre (x ∷ post))))))

-- A gap of `step` ranges is closed.
pub close_gap-lem :
    (pre hole post ranges : List Range) (k start : ℕ)
    → ranges ≡ pre ++ (hole ++ post)
    → start ≡ length pre
    → length hole ≡ suc k
    → close_gap (suc k) start ranges ≡ returns (pre ++ post)
unfolding close_gap
close_gap-lem pre hole post ranges k start e h size =
    let total : length ranges ≡ length pre + (suc k + length post) =
      ap length e ∙ omega (arith, length-append pre (hole ++ post), length-append hole post) in
    close_at pre hole post ranges k start (length ranges - suc k) e h (omega arith) size

pub shorter :
    (pre : List Range) (x : Range) (post : List Range) → length pre < length (pre ++ (x ∷ post))
shorter pre x post = omega (arith, length-append pre (x ∷ post))
