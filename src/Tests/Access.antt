-- ===== src/Tests/Access.antt =====
-- Runs of the claims of users, named by numbers.
use mono_old.Common.{
  ℕ, ◌≡◌, ◌↔◌, refl, true, false, none, [], ◌∷◌, Returns, returns, ok, ltb, ◌==◌, arith,
  if◌then◌else◌,
}
use mono_old.Claims.{Ordered, Claims, add_claims, remove_claims}
use mono_old.Claims.Sorted.{value_of, IsValid}
use mono_old.Claims.Add.{Agree, amend, add_claims-Agree}
use mono_old.Claims.Subset.{subset_linear, entries, subset_linear-entries}
use mono_old.Claims.Remove.{among, remove_claims-Removed}

pub ==-iff : (a b : ℕ) → ((a == b) ≡ true) ↔ (a ≡ b)
==-iff a b = (λ h. ground (arith, h), λ h. ground (arith, h))

pub ltb_irrefl : (a : ℕ) → ltb a a ≡ false
ltb_irrefl a = ground arith

pub ltb_trans : (a b c : ℕ) → ltb a b ≡ true → ltb b c ≡ true → ltb a c ≡ true
ltb_trans a b c p q = ground (arith, p, q)

pub ltb_total : (a b : ℕ) → ltb a b ≡ false → ltb b a ≡ false → a ≡ b
ltb_total a b p q = ground (arith, p, q)

instance abbrev pub number_order : Ordered ℕ
number_order = record {
  less = ltb;
  same = λ a b. a == b;
  same_iff = ==-iff;
  less_irrefl = ltb_irrefl;
  less_trans = ltb_trans;
  less_total = ltb_total;
}

abbrev held : Claims ℕ ℕ
held = record { keys = 2 ∷ 5 ∷ 8 ∷ []; values = 20 ∷ 50 ∷ 80 ∷ [] }

abbrev more : Claims ℕ ℕ
more = record { keys = 5 ∷ 1 ∷ []; values = 51 ∷ 10 ∷ [] }

held-IsValid : IsValid held
held-IsValid = record { ascending = ((refl, (refl, tt)), ((refl, tt), (tt, tt))); paired = refl }

add_claims-Agree_example :
    Returns
      (add_claims held more true)
      λ r. Agree r (amend true more.keys more.values λ q. value_of q held.keys held.values)
add_claims-Agree_example = add_claims-Agree held more true held-IsValid

remove_claims-Removed_example :
    (c : Claims ℕ ℕ) × (remove_claims held (2 ∷ 8 ∷ []) ≡ returns (ok c))
    × IsValid c
    × ((q : ℕ)
        → value_of q c.keys c.values
          ≡ (if among q (2 ∷ 8 ∷ []) then none else value_of q held.keys held.values))
unfolding among
remove_claims-Removed_example =
    remove_claims-Removed held (2 ∷ 8 ∷ []) held-IsValid ((refl, tt), (tt, tt)) (refl, (refl, tt))

subset_linear-entries_example :
    subset_linear held (2 ∷ 8 ∷ []) ≡ returns (entries (2 ∷ 8 ∷ []) held.keys held.values)
unfolding among
subset_linear-entries_example =
    subset_linear-entries held 2 (8 ∷ []) held-IsValid ((refl, tt), (tt, tt)) (refl, (refl, tt))
