-- ===== src/BitSet/Small.antt =====
-- `AtomicSmallBitSet` of tiauth/tiauth-core/src/counter.rs, and the same type with its `reset` of
-- borink-core/borink-auth/src/compactset.rs: an array of 32 words.
pub mod Laws
pub mod Collisions
use mono_old.Common.{
  ℕ, ◌-◌, ◌*◌, ◌/◌, Bool, Option, none, some, List, map, Outcome, returns, panics, ◌>>=◌, ltb,
  if◌then◌else◌, get_elem?, set, replicate,
}
use mono_old.BitSet.Word
use mono_old.BitSet.Trait.{AtomicBitSet}

abbrev pub small_size : ℕ
small_size = 32

abbrev pub new : List ℕ
new = replicate small_size Word.new

abbrev pub max_n : ℕ
max_n = small_size * 64 - 1

pub create_up_to : List ℕ → ℕ → Outcome (List ℕ)
create_up_to atoms n = if ltb max_n n then panics else returns atoms

-- `&self.atoms[index]` panics out of range; the word is written back.
pub exists_at : List ℕ → ℕ → Option ℕ → Outcome (List ℕ × Bool)
exists_at atoms index none = panics
exists_at atoms index (some atom) =
    Word.exists atom index >>= λ r. returns (set atoms index r.0, r.1)

-- The atom is taken at `index_in_atom`, as the source does.
pub exists : List ℕ → ℕ → Outcome (List ℕ × Bool)
exists atoms n =
    let atom_index = n / 64 in
    let index_in_atom = n - atom_index * 64 in
    if ltb max_n n then panics else exists_at atoms index_in_atom (get_elem? atoms index_in_atom)

pub reset : List ℕ → List ℕ
reset atoms = map (λ _. 0) atoms

abbrev pub small_set : AtomicBitSet (List ℕ)
small_set = record { new = new; max_n = λ _. max_n; create_up_to = create_up_to; exists = exists }
