-- ===== src/Tests/Instances.antt =====
-- A list as the append-only vector, cells as the serializer, and a small file system.
use mono_old.Common.{
  ℕ, ◌+◌, ◌≡◌, refl, true, false, some, List, [], ◌∷◌, ◌++◌, Result, ok, err, ◌==◌, if◌then◌else◌,
  length, get_elem?, set, length-append, length-set, get_elem?-lt, get_elem?-ge, get_elem?-set,
  arith, suc, zero,
}
use mono_old.BitSet.Boxcar.{Boxcar}
use mono_old.Rmp.{Rmp, Read, rmp_error}
use mono_old.Git.Effects.{World, Done}

pub get_elem?-push :
    (v : List ℕ) (x i : ℕ)
    → get_elem? (v ++ x ∷ []) i ≡ (if length v == i then some x else get_elem? v i)
get_elem?-push [] x zero = refl
get_elem?-push [] x (suc i) = ground arith
get_elem?-push (y ∷ v) x zero = ground arith
get_elem?-push (y ∷ v) x (suc i) = ground (arith, get_elem?-push v x i)

abbrev pub list_boxcar : Boxcar
list_boxcar = record {
  Vec = List ℕ;
  empty = [];
  push = λ v x. v ++ x ∷ [];
  get = get_elem?;
  store = set;
  count = length;
  count-empty = refl;
  count-push = λ v x. length-append v (x ∷ []);
  count-store = length-set;
  get-ge = get_elem?-ge;
  get-lt = get_elem?-lt;
  get-push = get_elem?-push;
  get-store = λ v i x j h. get_elem?-set v i x j h;
}

abbrev read_cell : Read ℕ
read_cell [] = err rmp_error
read_cell (x ∷ rest) = ok (x, rest)

-- One cell for a number, and one for a length in front of bytes.
abbrev pub cells : Rmp
cells = record {
  write_array_len = λ n. n ∷ [];
  read_array_len = read_cell;
  write_u64 = λ n. n ∷ [];
  read_u64 = read_cell;
  write_bin = λ b. length b ∷ b;
  read_bin_len = read_cell;
  write_str = λ s. length s ∷ s;
  read_str_len = read_cell;
  is_utf8 = λ s. true;
  array_len-law = λ n rest h. refl;
  u64-law = λ n rest h. refl;
  bin-law = λ b rest h. refl;
  str-law = λ s rest h. refl;
}

-- The world is the number of commands that were run; the checkout is there after nine of them.
abbrev command : ℕ → ℕ × Result Done ℕ
command w = (w + 1, ok tt)

abbrev pub counting : World
counting = record {
  W = ℕ;
  P = ℕ;
  E = ℕ;
  repo_path = 1;
  repo_dir = 2;
  target_subpath = 3;
  store_dir_exists = λ w. false;
  create_store_dir = command;
  try_exists = λ w. ok false;
  target_exists = λ w. w == 9;
  repo_clone = λ p. command;
  create_repo_meta = λ p. command;
  write_repo_meta = λ p. command;
  commit_exists = λ p w. ok true;
  repo_fetch = λ p. command;
  copy_dir_all = λ p. command;
  checkout = command;
  remove_git_dir = command;
  create_path_meta = command;
  write_path_meta = command;
}
