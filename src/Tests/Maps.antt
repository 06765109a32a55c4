-- ===== src/Tests/Maps.antt =====
-- Runs of the append-only vector and map. The keys are numbers, hashed by their remainder.
use mono_old.Common.{
  ℕ, ◌-◌, true, Option, ◌%◌, ◌≡◌, refl, none, some, List, [], ◌∷◌, returns, panics, ◌>>=◌, Returns,
  take, length, get_elem?, ◌==◌, ==_refl, arith,
}
use mono_old.AppendOnly.Vec
use mono_old.AppendOnly.Vec.{ArcVec, get_from_elements, iter}
use mono_old.AppendOnly.Vec.Laws.{push_all, indexes, push_all-new, free}
use mono_old.AppendOnly.Vec.Iteration.{collect, present, iter-present}
use mono_old.AppendOnly.Map.{
  MapKey, new, view, view_get, next_power_of_two, power_from, search_from, find_slot, value_at,
  insert, get,
}
use mono_old.AppendOnly.Map.Laws.{Answers, find_slot-ends}
use mono_old.AppendOnly.Map.Histories.{
  Call, insertion, query, answers, promised, empty, answers-new,
}
use mono_old.AppendOnly.Map.Views.{insert_all, view_get-stays}

==_comm : (a b : ℕ) → (a == b) ≡ (b == a)
==_comm a b = ground arith

==_chain : (a b c : ℕ) → (a == b) ≡ true → (b == c) ≡ true → (a == c) ≡ true
==_chain a b c p q = ground arith

remainder-== : (a b : ℕ) → (a == b) ≡ true → a % 2 ≡ b % 2
remainder-== a b p = ground arith

instance abbrev number_key : MapKey ℕ
number_key = record {
  eq = λ a b. a == b;
  hash = λ a. a % 2;
  eq_refl = ==_refl;
  eq_comm = ==_comm;
  eq_trans = ==_chain;
  hash-eq = remainder-==;
}

push_all-new_example : Returns (push_all {A = ℕ} (5 ∷ 6 ∷ 7 ∷ []) (Vec.new 2)) λ r.
    (r.1 ≡ indexes {A = ℕ} 0 2 (5 ∷ 6 ∷ 7 ∷ []))
    × ((i : ℕ) → get_from_elements r.0.elements i ≡ get_elem? (take {A = ℕ} 2 (5 ∷ 6 ∷ 7 ∷ [])) i)
push_all-new_example = push_all-new (5 ∷ 6 ∷ 7 ∷ []) 2

abbrev slots : List (Option ℕ)
slots = some 5 ∷ none ∷ some 6 ∷ some 7 ∷ []

iter-present_example :
    (iter slots >>= λ it. returns (collect 4 it))
    ≡ returns (present (take (length slots - 1) slots))
iter-present_example = iter-present slots 4 (omega arith) (omega arith)

abbrev calls : List (Call ℕ ℕ)
calls = insertion 3 30 ∷ insertion 5 50 ∷ insertion 3 31 ∷ query 5 ∷ query 7 ∷ []

answers-new_example : answers calls (new 2) ≡ promised calls (empty (next_power_of_two 2))
answers-new_example = answers-new calls 2 (omega arith)

program : Unit {0}
unfolding Vec.new Vec.set_at Vec.set_once free power_from next_power_of_two new view search_from
    find_slot value_at insert get view_get insert_all
program = tt

abbrev one_slot : List (Option (ℕ × ℕ))
one_slot = some (3, 30) ∷ none ∷ some (5, 50) ∷ some (7, 70) ∷ []

find_slot-ends_example : Returns (find_slot one_slot 4 9) (Answers one_slot 9)
find_slot-ends_example = find_slot-ends one_slot 2 4 9 refl refl (unfold program in omega arith)

abbrev first : ArcVec (ℕ × ℕ)
first = record { capacity = 2; used = 0; elements = none ∷ some (3, 30) ∷ [] }

abbrev second : ArcVec (ℕ × ℕ)
second = record { capacity = 2; used = 0; elements = some (5, 50) ∷ some (3, 30) ∷ [] }

view_get-stays_example : view_get (view second) 3 ≡ returns (some 30)
view_get-stays_example =
    view_get-stays 2 ((3, 30) ∷ []) ((5, 50) ∷ (3, 31) ∷ []) first second 3 30 (omega arith)
      (unfold program in refl) (unfold program in refl) (unfold program in refl)

-- The map is full, and a search for a key that it does not hold panics.
full_get : get second 7 ≡ panics
unfolding program
full_get = refl
