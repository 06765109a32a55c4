-- ===== src/Session/Keys.antt =====
-- `rotate_session_keys` and `invalidate_session_key` of tiauth/tiauth-core/src/state.rs. The session
-- keys are an array whose last key is the one in use; their equality is a parameter.
use mono_old.Common.{
  lt→ltb, append_nil, get_elem?-after, set-at, ◌≤◌, ℕ, zero, suc, ◌+◌, ◌-◌, ◌≡◌, refl, ◌∙◌, sym, ap,
  Bool, true, false, ◌||◌, Option, none, some, List, [], ◌∷◌, ◌++◌, Outcome, returns, panics, ◌>>=◌,
  arith, ltb, if◌then◌else◌, length, get_elem?, set, length-append, append_assoc, Bool-cases, inl,
  inr, subst,
}

module _ {K : Type 0} (eq : K → K → Bool) where
  -- `array[i] = v` and a read of `array[i]` panic out of range.
  abbrev pub write : List K → ℕ → K → Outcome (List K)
  write keys i k = if ltb i (length keys) then returns (set keys i k) else panics

  -- `rotate_left(1)` panics on an empty array.
  abbrev pub rotate_left : List K → Outcome (List K)
  rotate_left [] = panics
  rotate_left (k ∷ keys) = returns (keys ++ k ∷ [])

  pub rotate_session_keys : List K → K → Outcome (List K)
  rotate_session_keys keys key = rotate_left keys >>= λ rotated. write rotated (length keys - 1) key

  abbrev pub position : K → List K → Option ℕ
  position key [] = none
  position key (k ∷ keys) =
      if eq k key then some 0 else elim (position key keys) [ none ↦ none | some i ↦ some (suc i) ]

  -- `for i in first.. { keys[i] = keys[i + 1].clone() }`, for a number of rounds.
  pub shift_down : ℕ → ℕ → List K → Outcome (List K)
  shift_down zero i keys = returns keys
  shift_down (suc rounds) i keys = elim (get_elem? keys (suc i)) [
    | none ↦ panics
    | some k ↦ shift_down rounds (suc i) (set keys i k)
  ]

  abbrev pub invalidate_at : List K → K → Option ℕ → Outcome (List K)
  invalidate_at keys new_key none = rotate_session_keys keys new_key
  invalidate_at keys new_key (some i) =
      shift_down (length keys - 1 - i) i keys >>= λ shifted. write shifted (length keys - 1) new_key

  pub invalidate_session_key : List K → K → K → Outcome (List K)
  invalidate_session_key keys key_to_invalidate new_key =
      invalidate_at keys new_key (position key_to_invalidate keys)

  -- The keys without the first one that is equal to the key, or without the first of all.
  unfoldable pub without : K → List K → List K
  without key [] = []
  without key (k ∷ keys) = if eq k key then keys else k ∷ without key keys

  unfoldable pub is_key : K → List K → Bool
  is_key key [] = false
  is_key key (k ∷ keys) = eq k key || is_key key keys

  set-last : (xs : List K) (x y : K) → set (xs ++ x ∷ []) (length xs) y ≡ xs ++ y ∷ []
  set-last [] x y = refl
  set-last (z ∷ xs) x y = ap (λ ys. z ∷ ys) (set-last xs x y)

  write-last :
      (xs : List K) (x y : K) (n : ℕ)
      → n ≡ length xs
      → write (xs ++ x ∷ []) n y ≡ returns (xs ++ y ∷ [])
  write-last xs x y n e =
      rw
        (
          e,
          lt→ltb (length xs) (length (xs ++ x ∷ [])) (omega (arith, length-append xs (x ∷ []))),
          set-last xs x y,
        )
        refl

  -- Rotating drops the oldest key, and puts the new one at the end.
  pub rotate-drops :
      (k : K) (keys : List K) (key : K)
      → rotate_session_keys (k ∷ keys) key ≡ returns (keys ++ key ∷ [])
  unfolding rotate_session_keys
  rotate-drops k keys key = write-last keys k key (suc (length keys) - 1) (omega arith)

  -- The loop from the gap on leaves what follows it one place further left, and an old key last.
  shift_down-moves :
      (pre : List K) (x : K) (post : List K) (keys : List K) (i rounds : ℕ)
      → keys ≡ pre ++ (x ∷ post)
      → i ≡ length pre
      → rounds ≡ length post
      → (y : K) × (shift_down rounds i keys ≡ returns ((pre ++ post) ++ y ∷ []))
  unfolding shift_down
  shift_down-moves pre x [] keys i zero e h r =
      (x, ap returns (e ∙ ap (λ xs. xs ++ x ∷ []) (sym (append_nil pre))))
  shift_down-moves pre x [] keys i (suc rounds) e h r =
      let bad : 1 ≤ 0 = omega arith in elim bad [ ]
  shift_down-moves pre x (z ∷ post) keys i zero e h r =
      let bad : 1 ≤ 0 = omega arith in elim bad [ ]
  shift_down-moves pre x (z ∷ post) keys i (suc rounds) e h r =
      let at : get_elem? keys (suc i) ≡ some z = rw (e, h) (get_elem?-after pre x (z ∷ post)) in
      let moved : set keys i z ≡ (pre ++ z ∷ []) ++ (z ∷ post) =
        set-at pre x (z ∷ post) keys z i e h ∙ append_assoc pre z (z ∷ post) in
      let (y, call) =
        shift_down-moves (pre ++ z ∷ []) z post (set keys i z) (suc i) rounds moved
          (omega (arith, length-append pre (z ∷ []))) (omega arith) in
      (
        y,
        rw (at, shift_down)
            (call ∙ ap (λ xs. returns (xs ++ y ∷ [])) (sym (append_assoc pre z post))),
      )

  record Found (key : K) (keys : List K) : Type 0 where
    pre : List K
    x : K
    post : List K
    split : keys ≡ pre ++ (x ∷ post)
    at : position key keys ≡ some (length pre)
    rest : without key keys ≡ pre ++ post

  find : (key : K) (keys : List K) → is_key key keys ≡ true → Found key keys
  unfolding is_key without
  find key [] h = cc h
  find key (k ∷ keys) h = elim (Bool-cases (eq k key)) [
    | inl same ↦ record {
      pre = [];
      x = k;
      post = keys;
      split = refl;
      at = rw same refl;
      rest = rw same refl;
    }
    | inr other ↦
        let f = find key keys (subst (λ b. b || is_key key keys ≡ true) other h) in
        record {
          pre = k ∷ f.pre;
          x = f.x;
          post = f.post;
          split = ap (λ xs. k ∷ xs) f.split;
          at = rw (other, f.at) refl;
          rest = rw (other, f.rest) refl;
        }
  ]

  missing : (key : K) (keys : List K) → is_key key keys ≡ false → position key keys ≡ none
  unfolding is_key
  missing key [] h = refl
  missing key (k ∷ keys) h = elim (Bool-cases (eq k key)) [
    | inl same ↦ cc (subst (λ b. b || is_key key keys ≡ false) same h)
    | inr other ↦
        rw (other, missing key keys (subst (λ b. b || is_key key keys ≡ false) other h)) refl
  ]

  invalidate-Found :
      (keys : List K) (key new_key : K) (f : Found key keys)
      → invalidate_session_key keys key new_key ≡ returns (without key keys ++ new_key ∷ [])
  unfolding invalidate_session_key
  invalidate-Found keys key new_key f =
      let n : length keys ≡ length f.pre + suc (length f.post) =
        ap length f.split ∙ omega (arith, length-append f.pre (f.x ∷ f.post)) in
      let (y, moved) =
        shift_down-moves f.pre f.x f.post keys (length f.pre) (length keys - 1 - length f.pre)
          f.split refl (omega arith) in
      rw (f.at, moved)
        (write-last (f.pre ++ f.post) y new_key (length keys - 1)
            (omega (arith, length-append f.pre f.post))
          ∙ ap (λ xs. returns (xs ++ new_key ∷ [])) (sym f.rest))

  -- On one key or more, invalidating a key removes its first occurrence, keeps the order of the
  -- others, and puts the new key at the end. A key that is not there is not invalidated: the
  -- oldest key goes instead.
  pub invalidate-lem :
      (k : K) (keys : List K) (key new_key : K)
      → invalidate_session_key (k ∷ keys) key new_key
        ≡ returns ((if is_key key (k ∷ keys) then without key (k ∷ keys) else keys) ++ new_key ∷ [])
  unfolding invalidate_session_key
  invalidate-lem k keys key new_key = elim (Bool-cases (is_key key (k ∷ keys))) [
    | inl there ↦ rw there (invalidate-Found (k ∷ keys) key new_key (find key (k ∷ keys) there))
    | inr absent ↦ rw (absent, missing key (k ∷ keys) absent) (rotate-drops k keys new_key)
  ]
