-- ===== src/Claims.antt =====
-- The claims of tiauth/tiauth-core/src/data.rs: names in ascending order, each with the value of the
-- same index. The order of names is a parameter, and so are the values.
pub mod Sorted
pub mod Add
pub mod Remove
pub mod Subset
use mono_old.Common.{
  ℕ, zero, suc, ◌+◌, ◌-◌, ◌≡◌, ◌↔◌, Bool, true, false, not, ◌||◌, ◌&&◌, Option, none, some, List,
  [], ◌∷◌, Outcome, returns, panics, ◌>>=◌, Result, ok, err, ltb, leb, if◌then◌else◌, length,
  get_elem?, set,
}

pub record Ordered (K : Type 0) : Type 0 where
  pub less : K → K → Bool
  pub same : K → K → Bool
  pub same_iff : (a b : K) → (same a b ≡ true) ↔ (a ≡ b)
  pub less_irrefl : (a : K) → less a a ≡ false
  pub less_trans : (a b c : K) → less a b ≡ true → less b c ≡ true → less a c ≡ true
  pub less_total : (a b : K) → less a b ≡ false → less b a ≡ false → a ≡ b

pub data ModifyClaimError : Type 0 where
  add_exists : ModifyClaimError
  user_not_found : ModifyClaimError
  not_sorted : ModifyClaimError

-- A `ClaimsView` has the same two lists, in the bytes that it borrows.
pub record Claims (K V : Type 0) : Type 0 where
  pub keys : List K
  pub values : List V

-- `Vec::insert`
unfoldable pub insert_at : {A : Type 0} → ℕ → A → List A → Outcome (List A)
insert_at zero a xs = returns (a ∷ xs)
insert_at (suc i) a [] = panics
insert_at (suc i) a (x ∷ xs) = insert_at i a xs >>= λ ys. returns (x ∷ ys)

-- `xs[i] = a`
unfoldable pub store_at : {A : Type 0} → ℕ → A → List A → Outcome (List A)
store_at i a xs = if ltb i (length xs) then returns (set xs i a) else panics

abbrev pub shift : Result ℕ ℕ → Result ℕ ℕ
shift (ok i) = ok (suc i)
shift (err i) = err (suc i)

module _ {K : Type 0} ⦃order : Ordered K⦄ where
  -- The standard library's binary search on a sorted slice, which is only said to find one of
  -- several equal names.
  unfoldable pub binary_search : K → List K → Result ℕ ℕ
  binary_search k [] = err 0
  binary_search k (x ∷ xs) =
      if order.less x k then shift (binary_search k xs) else if order.same x k then ok 0 else err 0

  unfoldable pub is_ascending : List K → Bool
  is_ascending [] = true
  is_ascending (k ∷ []) = true
  is_ascending (k ∷ (next ∷ more)) = not (order.less next k) && is_ascending (next ∷ more)

  module _ {V : Type 0} where
    unfoldable pub to_claims_sorted : Claims K V → Result (Claims K V) ModifyClaimError
    unfolding is_ascending
    to_claims_sorted view = if is_ascending view.keys then ok view else err not_sorted

    abbrev pub add_at :
        Bool → K → V → Claims K V → Result ℕ ℕ → Outcome (Result (Claims K V) ModifyClaimError)
    add_at exists_ok claim value c (ok found) =
        if exists_ok
        then (store_at found value c.values >>= λ values.
            returns (ok (record c { values = values })))
        else returns (err add_exists)
    add_at exists_ok claim value c (err not_found) = do
      keys ← insert_at not_found claim c.keys
      values ← insert_at not_found value c.values
      returns (ok (record { keys = keys; values = values }))

    -- The loop of `add_claims`, over the zipped lists.
    unfoldable pub add_all :
        Bool → List K → List V → Claims K V → Outcome (Result (Claims K V) ModifyClaimError)
    unfolding binary_search store_at insert_at
    add_all exists_ok (claim ∷ claims) (value ∷ values) c =
        add_at exists_ok claim value c (binary_search claim c.keys) >>= λ r. elim r [
          | err e ↦ returns (err e)
          | ok c' ↦ add_all exists_ok claims values c'
        ]
    add_all exists_ok [] values c = returns (ok c)
    add_all exists_ok (claim ∷ claims) [] c = returns (ok c)

    unfoldable pub add_claims :
        Claims K V → Claims K V → Bool → Outcome (Result (Claims K V) ModifyClaimError)
    unfolding to_claims_sorted add_all
    add_claims view claims exists_ok = elim (to_claims_sorted view) [
      | err e ↦ returns (err e)
      | ok c ↦ add_all exists_ok claims.keys claims.values c
    ]

    abbrev push_claim :
        K
        → V
        → Outcome (Result (Claims K V) ModifyClaimError)
        → Outcome (Result (Claims K V) ModifyClaimError)
    push_claim claim value panics = panics
    push_claim claim value (returns (err e)) = returns (err e)
    push_claim claim value (returns (ok c)) =
        returns (ok (record { keys = claim ∷ c.keys; values = value ∷ c.values }))

    -- The loop of `remove_claims` over the zipped lists, with its variables `i` and `current`.
    unfoldable pub remove_all :
        List K → ℕ → K → List K → List V → Outcome (Result (Claims K V) ModifyClaimError)
    remove_all removals i current (claim ∷ claims) (value ∷ values) =
        let further = remove_all removals i current claims values in
        let advanced = λ (new_value : K). remove_all removals (i + 1) new_value claims values in
        if leb (length removals) i || not (order.same claim current)
        then push_claim claim value further
        else if ltb i (length removals - 1)
        then elim (get_elem? removals (i + 1)) [
          | none ↦ panics
          | some new_value ↦
              if order.less new_value current then returns (err not_sorted) else advanced new_value
        ]
        else further
    remove_all removals i current [] values = returns (ok (record { keys = []; values = [] }))
    remove_all removals i current (claim ∷ claims) [] =
        returns (ok (record { keys = []; values = [] }))

    unfoldable pub remove_claims :
        Claims K V → List K → Outcome (Result (Claims K V) ModifyClaimError)
    unfolding to_claims_sorted remove_all
    remove_claims view [] = returns (to_claims_sorted view)
    remove_claims view (first ∷ more) = remove_all (first ∷ more) 0 first view.keys view.values

    -- `binary_search(claim_key).unwrap()`, and the value of that index.
    unfoldable pub get_claim : Claims K V → K → Outcome V
    unfolding binary_search
    get_claim view claim_key = elim (binary_search claim_key view.keys) [
      | err _ ↦ panics
      | ok i ↦ elim (get_elem? view.values i) [ none ↦ panics | some value ↦ returns value ]
    ]
