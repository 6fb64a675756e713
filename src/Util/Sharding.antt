-- ===== src/Util/Sharding.antt =====
-- `Sharding` of src/kernel/table.h, and `range` of src/util/common.h. `boost::lexical_cast<int>` is a
-- parameter; `none` is its exception.
use maiter_p.Base.{
  ℕ, zero, suc, ◌+◌, ◌-◌, ◌%◌, ◌<◌, ◌≡◌, refl, ap, Option, none, some, List, [], ◌∷◌, Run, ok,
  fault, division_by_zero, bad_cast, ◌==◌, if◌then◌else◌, length, arith, get_or,
}
use maiter_p.Base.Int.{ℤ, pos, negsuc}

unfoldable pub negative : ℕ → ℤ
negative zero = pos 0
negative (suc n) = negsuc n

-- `%` on `int`, which rounds to 0.
unfoldable pub remainder : ℤ → ℕ → Run ℤ
unfolding negative
remainder k zero = fault division_by_zero
remainder (pos n) (suc shards) = ok (pos (n % suc shards))
remainder (negsuc n) (suc shards) = ok (negative (suc n % suc shards))

-- `Mod`
unfoldable pub mod_shard : ℤ → ℕ → Run ℤ
mod_shard key shards = remainder key shards

-- `UintMod`
unfoldable pub uint_mod : ℕ → ℕ → Run ℤ
uint_mod key shards = remainder (pos key) shards

-- `key.substr(0, key.find("_"))`: without an underscore, the whole key.
unfoldable pub before_underscore : List ℕ → List ℕ
before_underscore [] = []
before_underscore (c ∷ rest) = if c == 95 then [] else c ∷ before_underscore rest

-- `Mod_str`
unfoldable pub mod_str : (List ℕ → Option ℤ) → List ℕ → ℕ → Run ℤ
mod_str cast key shards = elim (cast (before_underscore key)) [
  | none ↦ fault bad_cast
  | some n ↦ remainder n shards
]

-- The loop of `range`, from 0 or more: its number of passes is known. The step is not used.
unfoldable pub count_from : ℕ → ℕ → List ℕ
count_from zero i = []
count_from (suc n) i = i ∷ count_from n (suc i)

unfoldable pub range : ℕ → ℕ → ℕ → List ℕ
range from to step = count_from (to - from) from

unfoldable pub range_to : ℕ → List ℕ
range_to to = range 0 to 1

length-count_from : (n i : ℕ) → length (count_from n i) ≡ n
unfolding count_from
length-count_from zero i = refl
length-count_from (suc n) i = ap suc (length-count_from n (suc i))

count_from-at : (n i k d : ℕ) → k < n → get_or (count_from n i) k d ≡ i + k
unfolding count_from get_or
count_from-at zero i k d lt = absurd (omega arith)
count_from-at (suc n) i zero d lt = omega arith
count_from-at (suc n) i (suc k) d lt = omega (arith, count_from-at n (suc i) k d (omega arith))

-- The numbers of a range, in order.
pub range-at : (from to step k d : ℕ) → from + k < to → get_or (range from to step) k d ≡ from + k
unfolding range
range-at from to step k d lt = count_from-at (to - from) from k d (omega arith)
