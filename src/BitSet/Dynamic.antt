-- ===== src/BitSet/Dynamic.antt =====
-- `AtomicDynamicBitSet` of tiauth/tiauth-core/src/counter.rs: one word, and further words in a
-- growing vector that is made when a number past 63 is first asked about.
pub mod Laws
use mono_old.Common.{
  ℕ, zero, suc, ◌-◌, ◌*◌, ◌/◌, ◌^◌, Bool, Option, none, some, Outcome, returns, panics, ◌>>=◌, ltb,
  if◌then◌else◌,
}
use mono_old.BitSet.Boxcar.{Boxcar}
use mono_old.BitSet.Word
use mono_old.BitSet.Trait.{AtomicBitSet}

pub further_indexes : ℕ → ℕ × ℕ
further_indexes n =
    let n_further = n - 64 in
    let atom_index = n_further / 64 in (atom_index, n_further - atom_index * 64)

module _ (boxcar : Boxcar) where
  open boxcar use {Vec, empty, push, get, store}

  pub record DynamicSet : Type 0 where
    pub initial : ℕ
    pub further : Option Vec

  -- `get_or_init`
  abbrev pub or_init : Option Vec → Vec
  or_init none = empty
  or_init (some v) = v

  -- `while further.get(atom_index).is_none() { further.push(..) }`, on fuel.
  pub push_until : ℕ → ℕ → Vec → Vec
  push_until zero i v = v
  push_until (suc fuel) i v = elim (get v i) [
    | none ↦ push_until fuel i (push v Word.new)
    | some _ ↦ v
  ]

  -- Each round adds a word, so one round more than the index is enough.
  pub create_up_to : DynamicSet → ℕ → Outcome DynamicSet
  create_up_to s n =
      let i = (further_indexes n).0 in
      if ltb n 64
      then returns s
      else returns (record s { further = some (push_until (suc i) i (or_init s.further)) })

  pub exists_initial : DynamicSet → ℕ → Outcome (DynamicSet × Bool)
  exists_initial s n = Word.exists s.initial n >>= λ r. returns (record s { initial = r.0 }, r.1)

  -- Both `unwrap` calls panic on `None`.
  pub exists_bucket : DynamicSet → Vec → ℕ → ℕ → Option ℕ → Outcome (DynamicSet × Bool)
  exists_bucket s v atom_index index_in_bucket none = panics
  exists_bucket s v atom_index index_in_bucket (some bucket) =
      Word.exists bucket index_in_bucket >>= λ r.
      returns (record s { further = some (store v atom_index r.0) }, r.1)

  pub exists_further : DynamicSet → Option Vec → ℕ × ℕ → Outcome (DynamicSet × Bool)
  exists_further s none i = panics
  exists_further s (some v) i = exists_bucket s v i.0 i.1 (get v i.0)

  pub exists : DynamicSet → ℕ → Outcome (DynamicSet × Bool)
  exists s n =
      if ltb n 64 then exists_initial s n else exists_further s s.further (further_indexes n)

  abbrev pub dynamic_set : AtomicBitSet DynamicSet
  dynamic_set = record {
    new = record { initial = Word.new; further = none };
    max_n = λ _. 2 ^ 64 - 1;
    create_up_to = create_up_to;
    exists = exists;
  }
