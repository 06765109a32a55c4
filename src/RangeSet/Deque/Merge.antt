-- ===== src/RangeSet/Deque/Merge.antt =====
-- Laws of the merges in `add_num_ranges` of tiauth/tiauth-core/src/counter.rs.
use mono_old.Common.{
  get_elem?-append, get_elem?-after, set-at, ℕ, suc, ◌+◌, ◌-◌, ◌≤◌, ◌<◌, ◌≡◌, refl, ◌∙◌, sym, ap,
  false, Option, none, some, List, [], ◌∷◌, ◌++◌, Outcome, returns, Returns, arith, inl, inr,
  length, get_elem?, set, ltb-false, length-append, append_assoc, ◌⊎◌, subst, Option-cases,
}
use mono_old.RangeSet.Range.{Range, Expiry, full, last_of}
use mono_old.RangeSet.Range.Laws.{IsRange}
use mono_old.RangeSet.Deque.{full_one, previous_full, next_full, merge, merge_if_full}
use mono_old.RangeSet.Deque.Chain.{
  IsChain, Extends, Extends-under, Extends-trans, Extends-joined, Extends-self, IsChain-suffix,
}
use mono_old.RangeSet.Deque.Gap.{last-cases, close_gap-lem, shorter}

-- A merged deque holds what it held, and the target is one of its ranges.
abbrev pub Merged : ℕ → List Range → List Range × ℕ → Type 0
Merged size ranges out = Extends size (λ _. false) ranges out.0 × (out.1 < length out.0)

pub full-returns :
    (size : ℕ) (a b : Range) (e : Expiry)
    → IsRange size a
    → IsRange size b
    → a.max ≤ b.max
    → full size a.min b.max e
      ≡ returns (record { members = none; min = a.min; max = b.max; expires = e })
unfolding full
full-returns size a b e valid valid' h =
    let last : last_of size a.min ≤ b.max =
      omega (arith, valid.room, valid.ends, valid'.ends, valid.starts) in
    rw (ltb-false b.max (last_of size a.min) last) refl

-- Two neighbours anywhere in a chain.
join_at :
    (size : ℕ) (pre : List Range) (a b : Range) (post : List Range) (e : Expiry)
    → IsChain size (pre ++ (a ∷ b ∷ post))
    → a.members ≡ none
    → b.members ≡ none
    → Extends size
        (λ _. false)
        (pre ++ (a ∷ b ∷ post))
        (pre ++ (record { members = none; min = a.min; max = b.max; expires = e } ∷ post))
join_at size pre a b post e chain fa fb =
    Extends-under size (λ _. false) pre (a ∷ b ∷ post)
      (record { members = none; min = a.min; max = b.max; expires = e } ∷ post) chain
      (λ m bad. cc bad)
      (Extends-joined size a b post e (IsChain-suffix size pre (a ∷ b ∷ post) chain) fa fb)

merge_next :
    (size : ℕ) (pre : List Range) (r n : Range) (post ranges : List Range) (target : ℕ)
    → ranges ≡ pre ++ (r ∷ n ∷ post)
    → target ≡ length pre
    → IsChain size (pre ++ (r ∷ n ∷ post))
    → r.members ≡ none
    → n.members ≡ none
    → Returns (merge size ranges target r none (some n)) (Merged size (pre ++ (r ∷ n ∷ post)))
unfolding merge
merge_next size pre r n post ranges target e h chain fr fn =
    let (valid, joins, (valid', joins', rest)) = IsChain-suffix size pre (r ∷ n ∷ post) chain in
    let joined : Range = record { members = none; min = r.min; max = n.max; expires = r.expires } in
    let closed =
      close_gap-lem (pre ++ (joined ∷ [])) (n ∷ []) post (set ranges target joined) 0 (target + 1)
        (set-at pre r (n ∷ post) ranges joined target e h ∙ append_assoc pre joined (n ∷ post))
        (omega (arith, length-append pre (joined ∷ []))) refl in
    (
      (pre ++ (joined ∷ post), target),
      rw (full-returns size r n r.expires valid valid' joins.2)
          (rw closed (ap (λ rs. returns (rs, target)) (sym (append_assoc pre joined post)))),
      (join_at size pre r n post r.expires chain fr fn, omega (arith, shorter pre joined post)),
    )

merge_previous :
    (size : ℕ) (pre : List Range) (p r : Range) (post ranges : List Range) (target : ℕ)
    → ranges ≡ pre ++ (p ∷ r ∷ post)
    → target ≡ suc (length pre)
    → IsChain size (pre ++ (p ∷ r ∷ post))
    → p.members ≡ none
    → r.members ≡ none
    → Returns (merge size ranges target r (some p) none) (Merged size (pre ++ (p ∷ r ∷ post)))
unfolding merge
merge_previous size pre p r post ranges target e h chain fp fr =
    let (valid, joins, (valid', joins', rest)) = IsChain-suffix size pre (p ∷ r ∷ post) chain in
    let joined : Range = record { members = none; min = p.min; max = r.max; expires = p.expires } in
    let closed =
      close_gap-lem (pre ++ (joined ∷ [])) (r ∷ []) post (set ranges (target - 1) joined) 0 target
        (set-at pre p (r ∷ post) ranges joined (target - 1) e (omega arith)
          ∙ append_assoc pre joined (r ∷ post))
        (omega (arith, length-append pre (joined ∷ []))) refl in
    (
      (pre ++ (joined ∷ post), target - 1),
      rw (full-returns size p r p.expires valid valid' joins.2)
          (rw closed (ap (λ rs. returns (rs, target - 1)) (sym (append_assoc pre joined post)))),
      (join_at size pre p r post p.expires chain fp fr, omega (arith, shorter pre joined post)),
    )

merge_both :
    (size : ℕ) (pre : List Range) (p r n : Range) (post ranges : List Range) (target : ℕ)
    → ranges ≡ pre ++ (p ∷ r ∷ n ∷ post)
    → target ≡ suc (length pre)
    → IsChain size (pre ++ (p ∷ r ∷ n ∷ post))
    → p.members ≡ none
    → r.members ≡ none
    → n.members ≡ none
    → Returns
        (merge size ranges target r (some p) (some n))
        (Merged size (pre ++ (p ∷ r ∷ n ∷ post)))
unfolding merge
merge_both size pre p r n post ranges target e h chain fp fr fn =
    let (valid, joins, (valid', joins', (valid'', joins'', rest))) =
      IsChain-suffix size pre (p ∷ r ∷ n ∷ post) chain in
    let joined : Range = record { members = none; min = p.min; max = n.max; expires = p.expires } in
    let first : Range = record { members = none; min = p.min; max = r.max; expires = p.expires } in
    let closed =
      close_gap-lem (pre ++ (joined ∷ [])) (r ∷ n ∷ []) post (set ranges (target - 1) joined) 1
        target
        (set-at pre p (r ∷ n ∷ post) ranges joined (target - 1) e (omega arith)
          ∙ append_assoc pre joined (r ∷ n ∷ post))
        (omega (arith, length-append pre (joined ∷ []))) refl in
    let step = join_at size pre p r (n ∷ post) p.expires chain fp fr in
    let step' = join_at size pre first n post p.expires step.chain refl fn in
    (
      (pre ++ (joined ∷ post), target - 1),
      rw (full-returns size p n p.expires valid valid'' (omega (arith, joins.2, joins'.2)))
          (rw closed (ap (λ rs. returns (rs, target - 1)) (sym (append_assoc pre joined post)))),
      (
        Extends-trans size (λ _. false) (pre ++ (p ∷ r ∷ n ∷ post)) (pre ++ (first ∷ n ∷ post))
            (pre ++ (joined ∷ post)) step step',
        omega (arith, shorter pre joined post),
      ),
    )

full_one-full : (p : Range) → p.members ≡ none → full_one (some p) ≡ some p
full_one-full p fp =
    ap {B = Option Range} (λ members. elim members [ none ↦ some p | some _ ↦ none ]) fp

-- What the code finds before and after the range that became full.
previous-cases :
    (pre : List Range) (r : Range) (post ranges : List Range) (target : ℕ)
    → ranges ≡ pre ++ (r ∷ post)
    → target ≡ length pre
    → (previous_full ranges target ≡ none)
      ⊎ ((pre' : List Range) × (p : Range) × (pre ≡ pre' ++ (p ∷ []))
          × (p.members ≡ none)
          × (previous_full ranges target ≡ some p))
previous-cases pre r post ranges target e h = elim (last-cases pre) [
  | inl empty ↦ inl (rw (h, empty) refl)
  | inr (pre', p, snoc) ↦
      let index : target ≡ suc (length pre') =
        h ∙ ap length snoc ∙ omega (arith, length-append pre' (p ∷ [])) in
      let at : get_elem? ranges (length pre') ≡ some p =
        rw (e, snoc, sym (append_assoc pre' p (r ∷ post))) (get_elem?-append pre' p (r ∷ post)) in
      elim (Option-cases p.members) [
        | inl fp ↦ inr (pre', p, snoc, fp, rw (index, at) (full_one-full p fp))
        | inr (members, some_left) ↦ inl (rw (index, at, some_left) refl)
      ]
]

next-cases :
    (pre : List Range) (r : Range) (post ranges : List Range) (target : ℕ)
    → ranges ≡ pre ++ (r ∷ post)
    → target ≡ length pre
    → (next_full ranges target ≡ none)
      ⊎ ((n : Range) × (post' : List Range) × (post ≡ n ∷ post')
          × (n.members ≡ none)
          × (next_full ranges target ≡ some n))
next-cases pre r [] ranges target e h = inl (rw (e, h, get_elem?-after pre r []) refl)
next-cases pre r (n ∷ post) ranges target e h =
    let at : get_elem? ranges (suc target) ≡ some n =
      rw (e, h) (get_elem?-after pre r (n ∷ post)) in
    elim (Option-cases n.members) [
      | inl fn ↦ inr (n, post, refl, fn, rw at (full_one-full n fn))
      | inr (members, some_left) ↦ inl (rw (at, some_left) refl)
    ]

merge_full-Merged :
    (size : ℕ) (pre : List Range) (r : Range) (post ranges : List Range) (target : ℕ)
    → ranges ≡ pre ++ (r ∷ post)
    → target ≡ length pre
    → IsChain size ranges
    → r.members ≡ none
    → Returns
        (merge size ranges target r (previous_full ranges target) (next_full ranges target))
        (Merged size ranges)
unfolding merge
merge_full-Merged size pre r post ranges target e h chain fr =
    elim (previous-cases pre r post ranges target e h) [
      | inl no_prev ↦ elim (next-cases pre r post ranges target e h) [
        | inl no_next ↦
            rw (no_prev, no_next)
              (
                (ranges, target),
                refl,
                (Extends-self size ranges chain, omega (arith, ap length e, shorter pre r post)),
              )
        | inr (n, post', cons, fn, next) ↦
            let split = e ∙ ap (λ rs. pre ++ (r ∷ rs)) cons in
            let chain' = subst (IsChain size) split chain in
            let merged = merge_next size pre r n post' ranges target split h chain' fr fn in
            rw (no_prev, next) (back split merged)
      ]
      | inr (pre', p, snoc, fp, prev) ↦
          let index : target ≡ suc (length pre') =
            h ∙ ap length snoc ∙ omega (arith, length-append pre' (p ∷ [])) in
          let split' =
            e ∙ ap (λ rs. rs ++ (r ∷ post)) snoc ∙ sym (append_assoc pre' p (r ∷ post)) in
          elim (next-cases pre r post ranges target e h) [
            | inl no_next ↦
                let merged =
                  merge_previous size pre' p r post ranges target split' index
                    (subst (IsChain size) split' chain) fp fr in
                rw (prev, no_next) (back split' merged)
            | inr (n, post', cons, fn, next) ↦
                let split = split' ∙ ap (λ rs. pre' ++ (p ∷ r ∷ rs)) cons in
                let merged =
                  merge_both size pre' p r n post' ranges target split index
                    (subst (IsChain size) split chain) fp fr fn in
                rw (prev, next) (back split merged)
          ]
    ]
  where
    back :
        {rs : List Range} {m : Outcome (List Range × ℕ)}
        → ranges ≡ rs
        → Returns m (Merged size rs)
        → Returns m (Merged size ranges)
    back {rs} {m} split = subst (λ xs. Returns m (Merged size xs)) (sym split)

-- After the number was added, the merges of a range that became full keep what is held.
pub merge_if_full-Merged :
    (size : ℕ) (pre : List Range) (r : Range) (post ranges : List Range) (target : ℕ)
    → ranges ≡ pre ++ (r ∷ post)
    → target ≡ length pre
    → IsChain size ranges
    → Returns (merge_if_full size ranges target r r.members) (Merged size ranges)
merge_if_full-Merged size pre r post ranges target e h chain = elim (Option-cases r.members) [
  | inl fr ↦
      subst (λ o. Returns (merge_if_full size ranges target r o) (Merged size ranges)) (sym fr)
        (merge_full-Merged size pre r post ranges target e h chain fr)
  | inr (members, some_left) ↦ rw some_left (
    (ranges, target),
    refl,
    (Extends-self size ranges chain, omega (arith, ap length e, shorter pre r post)),
  )
]
