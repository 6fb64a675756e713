-- ===== src/Examples/Pagerank.antt =====
-- src/examples/pagerank.cpp. A number outside `int`, on which `atoi` is undefined, is read as it is.
use maiter_p.Base.{
  ℕ, zero, suc, ◌+◌, ◌-◌, ◌*◌, ◌&&◌, ◌||◌, none, some, List, [], ◌∷◌, ◌++◌, Run, ok, fault,
  uninitialized, out_of_range, ◌>>=◌, ◌==◌, leb, if◌then◌else◌, map, length,
}
use maiter_p.Base.Int.{ℤ, pos, negsuc}
use maiter_p.Kernel.{IterateKernel}
use maiter_p.Examples.Doubles.{Double}
use maiter_p.Examples.Text.{find_byte, take, drop, read_links, space, tab}

unfoldable digits : ℕ → List ℕ → ℕ
digits n [] = n
digits n (c ∷ rest) =
    let more = digits (n * 10 + (c - 48)) rest in if leb 48 c && leb c 57 then more else n

abbrev negated : ℕ → ℤ
negated zero = pos 0
negated (suc n) = negsuc n

-- After the white space and the sign: the digits up to the first other byte.
unfoldable pub atoi : List ℕ → ℤ
unfolding digits
atoi [] = pos 0
atoi (c ∷ rest) =
    let skipped = atoi rest in
    if (c == space) || (leb 9 c && leb c 13)
    then skipped
    else if c == 45
    then negated (digits 0 rest)
    else if c == 43
    then pos (digits 0 rest)
    else pos (digits 0 (c ∷ rest))

-- The last byte; of an empty string the source reads before the start.
unfoldable pub last_byte : List ℕ → Run ℕ
last_byte [] = fault out_of_range
last_byte (c ∷ []) = ok c
last_byte (c ∷ d ∷ rest) = last_byte (d ∷ rest)

-- One round of the loop of `read_data`: before an empty link `to` is read unset.
unfoldable pub rank_target : List ℕ → Run ℤ
unfolding atoi
rank_target [] = fault uninitialized
rank_target (c ∷ link) = ok (atoi (c ∷ link))

-- A line with no tab leaves the key and the links as they are.
unfoldable pub read_ranks : List ℕ → ℤ → List ℤ → Run (ℤ × List ℤ)
unfolding find_byte take drop last_byte rank_target read_links
read_ranks line k targets = elim (find_byte tab line) [
  | none ↦ ok (k, targets)
  | some p ↦
      let links = drop (suc p) line in
      do
        last ← last_byte links
        linkvec ←
            read_links (λ link rest. rank_target link) (suc (suc (length links)))
              (if last == space then links else links ++ space ∷ [])
        ok (atoi (take p line), linkvec)
]

module _ {ℓ} {V : Type ℓ} ⦃double : Double V⦄ where
  -- What each out-neighbour is sent: the delta, damped, in equal shares.
  unfoldable pub share : V → ℕ → V
  share delta size = double.div (double.mul delta (double.literal 8 1)) (double.of_int size)

module _ {V : Type 0} ⦃double : Double V⦄ where
  -- `PagerankIterateKernel`
  unfoldable pub pagerank : IterateKernel ℤ V (List ℤ)
  unfolding read_ranks share
  pagerank = record {
    no_data = [];
    read_data = read_ranks;
    init_c = λ k targets. double.literal 2 1;
    default_v = double.literal 0 0;
    init_v = λ k targets. double.literal 0 0;
    accumulate = double.add;
    process_delta_v = λ k delta value targets. (delta, value, targets);
    priority = λ pri v delta. delta;
    g_func = λ k delta v targets. map (λ target. (target, share delta (length targets))) targets;
  }
