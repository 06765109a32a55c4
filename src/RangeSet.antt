-- ===== src/RangeSet.antt =====
-- `CompactSetRange` of tiauth/tiauth-core/src/counter.rs: a set of numbers in a sorted deque of
-- ranges of `size` numbers (64 in the source), which are merged when they are full.
pub mod Range
pub mod Deque
pub mod Laws
pub mod Saved
pub mod Expired
pub mod Remembered
use mono_old.Common.{
  ℕ, zero, suc, ◌+◌, ◌-◌, ◌%◌, Bool, true, false, Option, none, some, List, [], ◌∷◌, Outcome,
  returns, panics, ◌>>=◌, ◌==◌, leb, if◌then◌else◌, get_elem?, set, drop,
}
use mono_old.RangeSet.Range
use mono_old.RangeSet.Range.{Expiry, at, unknown, full}
use mono_old.RangeSet.Deque.{partition_point, add_num_ranges}

abbrev pub Ranges : Type 0
Ranges = List Range.Range

abbrev pub expires_by : ℕ → Expiry → Bool
expires_by time (at t) = leb t time
expires_by time unknown = false

unfoldable pub expired_search : Ranges → ℕ → ℕ
expired_search ranges time = partition_point (λ r. expires_by time r.expires) ranges

-- `for i in first..last { ranges[i].expires = Expiry::At(expires) }`, for a number of rounds.
unfoldable pub mark : ℕ → ℕ → ℕ → Ranges → Outcome (Ranges)
mark zero i expires ranges = returns ranges
mark (suc rounds) i expires ranges = elim (get_elem? ranges i) [
  | none ↦ panics
  | some r ↦ mark rounds (suc i) expires (set ranges i (record r { expires = at expires }))
]

unfoldable pub add_num : ℕ → Ranges → ℕ → ℕ → Outcome (Ranges × Bool)
add_num size ranges num expires = add_num_ranges size ranges num >>= λ r.
    (let exp_i = expired_search r.0 expires in mark (r.1 - exp_i) exp_i expires r.0) >>= λ ranges'.
    returns (ranges', r.2)

-- The ranges before `exp_i` become one full range; `ranges[exp_i - 1]` and `ranges[0]` are there.
unfoldable pub expire_before : ℕ → Ranges → ℕ → Outcome (Ranges)
expire_before size ranges zero = returns ranges
expire_before size ranges (suc last) = elim (get_elem? ranges 0) [
  | none ↦ panics
  | some first ↦ elim (get_elem? ranges last) [
    | none ↦ panics
    | some r ↦ full size first.min r.max (at 0) >>= λ new_range.
        returns (new_range ∷ drop (suc last) ranges)
  ]
]

unfoldable pub check_expired : ℕ → Ranges → ℕ → Outcome (Ranges)
check_expired size [] time = panics
check_expired size (r ∷ ranges) time =
    expire_before size (r ∷ ranges) (expired_search (r ∷ ranges) time)

abbrev pub new : ℕ → Ranges
new size = Range.new size 1 ∷ []

abbrev pub at_time : ℕ → Ranges → ℕ → Option ℕ → Outcome (Ranges)
at_time size ranges num none = returns ranges
at_time size ranges num (some time) =
    if num % 4 == 0 then check_expired size ranges time else returns ranges

unfoldable pub num_exists : ℕ → Ranges → ℕ → ℕ → Option ℕ → Outcome (Ranges × Bool)
num_exists size ranges num expires time = add_num size ranges num expires >>= λ r.
    at_time size r.0 num time >>= λ ranges'. returns (ranges', r.1)
