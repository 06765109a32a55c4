-- ===== src/Proof/Names.antt =====
-- The names of actions and targets in tiauth/tiauth-core/src/proof.rs.
use mono_old.Common.{
  length, ◌<◌, ◌^◌, ◌≡◌, refl, Bool, true, false, ◌&&◌, List, [], ◌∷◌, Result, ok, err, ◌==◌,
  if◌then◌else◌, arith, ◌↔◌, ap, ◌∙◌, sym, subst, All, Bool-cases, inl, inr,
}
use mono_old.Proof.{
  ActionType, reset_password, delete_claims, set_claims, add_claims, merge_claims, read_users,
  read_password, delete_user, Target, select, range, all, InvalidProof, invalid_proof, Str,
}

abbrev pub same : Str → Str → Bool
same [] [] = true
same (x ∷ xs) (y ∷ ys) = x == y && same xs ys
same xs ys = false

unfoldable pub name : ActionType → Str
name reset_password =
    114 ∷ 101 ∷ 115 ∷ 101 ∷ 116 ∷ 95 ∷ 112 ∷ 97 ∷ 115 ∷ 115 ∷ 119 ∷ 111 ∷ 114 ∷ 100 ∷ []
name delete_claims = 100 ∷ 101 ∷ 108 ∷ 101 ∷ 116 ∷ 101 ∷ 95 ∷ 99 ∷ 108 ∷ 97 ∷ 105 ∷ 109 ∷ 115 ∷ []
name set_claims = 115 ∷ 101 ∷ 116 ∷ 95 ∷ 99 ∷ 108 ∷ 97 ∷ 105 ∷ 109 ∷ 115 ∷ []
name add_claims = 97 ∷ 100 ∷ 100 ∷ 95 ∷ 99 ∷ 108 ∷ 97 ∷ 105 ∷ 109 ∷ 115 ∷ []
name merge_claims = 109 ∷ 101 ∷ 114 ∷ 103 ∷ 101 ∷ 95 ∷ 99 ∷ 108 ∷ 97 ∷ 105 ∷ 109 ∷ 115 ∷ []
name read_users = 114 ∷ 101 ∷ 97 ∷ 100 ∷ 95 ∷ 117 ∷ 115 ∷ 101 ∷ 114 ∷ 115 ∷ []
name read_password = 114 ∷ 101 ∷ 97 ∷ 100 ∷ 95 ∷ 112 ∷ 97 ∷ 115 ∷ 115 ∷ 119 ∷ 111 ∷ 114 ∷ 100 ∷ []
name delete_user = 100 ∷ 101 ∷ 108 ∷ 101 ∷ 116 ∷ 101 ∷ 95 ∷ 117 ∷ 115 ∷ 101 ∷ 114 ∷ []

unfoldable pub target_name : Target → Str
target_name select = 115 ∷ 101 ∷ 108 ∷ 101 ∷ 99 ∷ 116 ∷ []
target_name range = 114 ∷ 97 ∷ 110 ∷ 103 ∷ 101 ∷ []
target_name all = 97 ∷ 108 ∷ 108 ∷ []

-- `match name { .. }`: the first name that is the same, and an error for any other.
abbrev pub first_named : {A : Type 0} → Str → List (Str × A) → Result A InvalidProof
first_named s [] = err invalid_proof
first_named s (c ∷ cases) = if same s c.0 then ok c.1 else first_named s cases

abbrev actions : List (Str × ActionType)
actions =
    (name reset_password, reset_password)
    ∷ (name delete_claims, delete_claims)
    ∷ (name set_claims, set_claims)
    ∷ (name add_claims, add_claims)
    ∷ (name merge_claims, merge_claims)
    ∷ (name read_users, read_users)
    ∷ (name read_password, read_password)
    ∷ (name delete_user, delete_user)
    ∷ []

unfoldable pub from_name : Str → Result ActionType InvalidProof
from_name s = first_named s actions

unfoldable pub target_from_name : Str → Result Target InvalidProof
target_from_name s =
    first_named s
      ((target_name select, select) ∷ (target_name range, range) ∷ (target_name all, all) ∷ [])

pub same_refl : (xs : Str) → same xs xs ≡ true
same_refl [] = refl
same_refl (x ∷ xs) = ground (arith, same_refl xs)

pub same→eq : (xs ys : Str) → same xs ys ≡ true → xs ≡ ys
same→eq [] [] h = refl
same→eq [] (y ∷ ys) h = cc h
same→eq (x ∷ xs) [] h = cc h
same→eq (x ∷ xs) (y ∷ ys) h =
    let head : x ≡ y = ground (arith, h) in
    let tail : same xs ys ≡ true = ground (arith, h) in cc (head, same→eq xs ys tail)

first_named-name :
    {A : Type 0} (f : A → Str) (s : Str) (cases : List (Str × A)) (a : A)
    → All (λ c. c.0 ≡ f c.1) cases
    → first_named s cases ≡ ok a
    → s ≡ f a
first_named-name f s [] a named e = cc e
first_named-name f s (c ∷ cases) a (named, rest) e = elim (Bool-cases (same s c.0)) [
  | inl found ↦
      let this : ok c.1 ≡ ok a =
        subst (λ b. (if b then ok c.1 else first_named s cases) ≡ ok a) found e in
      same→eq s c.0 found ∙ named ∙ ap f (cc this)
  | inr other ↦
      first_named-name f s cases a rest
        (subst (λ b. (if b then ok c.1 else first_named s cases) ≡ ok a) other e)
]

pub from_name-name : (a : ActionType) → from_name (name a) ≡ ok a
unfolding from_name name
from_name-name reset_password = refl
from_name-name delete_claims = refl
from_name-name set_claims = refl
from_name-name add_claims = refl
from_name-name merge_claims = refl
from_name-name read_users = refl
from_name-name read_password = refl
from_name-name delete_user = refl

name-from_name : (s : Str) (a : ActionType) → from_name s ≡ ok a → s ≡ name a
unfolding from_name
name-from_name s a e =
    first_named-name name s actions a
      (refl, (refl, (refl, (refl, (refl, (refl, (refl, (refl, tt)))))))) e

-- A string is read as an action exactly when it is the name of that action.
pub from_name-exact : (s : Str) (a : ActionType) → (from_name s ≡ ok a) ↔ (s ≡ name a)
from_name-exact s a =
    (name-from_name s a, λ e. subst (λ n. from_name n ≡ ok a) (sym e) (from_name-name a))

pub target_from_name-name : (t : Target) → target_from_name (target_name t) ≡ ok t
unfolding target_from_name target_name
target_from_name-name select = refl
target_from_name-name range = refl
target_from_name-name all = refl

pub name-short : (a : ActionType) → length (name a) < 2 ^ 32
unfolding name
name-short reset_password = omega arith
name-short delete_claims = omega arith
name-short set_claims = omega arith
name-short add_claims = omega arith
name-short merge_claims = omega arith
name-short read_users = omega arith
name-short read_password = omega arith
name-short delete_user = omega arith

pub target_name-short : (t : Target) → length (target_name t) < 2 ^ 32
unfolding target_name
target_name-short select = omega arith
target_name-short range = omega arith
target_name-short all = omega arith
