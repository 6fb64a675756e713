-- ===== src/Examples/Adsorption.antt =====
-- src/examples/adsorption.cpp
use maiter_p.Base.{ℕ, List, [], if◌then◌else◌, map, ltb}
use maiter_p.Kernel.{Key, IterateKernel}
use maiter_p.Examples.Doubles.{Double}
use maiter_p.Examples.Shortestpath.{Link, Casts, read_weighted}

module _ {ℓ} {K V : Type ℓ} ⦃key : Key K⦄ ⦃double : Double V⦄ (casts : Casts K V)
    (adsorption_starts : ℕ) (adsorption_damping : V) where
  -- `AdsorptionIterateKernel`; its `read_data` is that of shortest paths, word for word.
  unfoldable pub adsorption : IterateKernel K V (List (Link K V))
  unfolding read_weighted
  adsorption = record {
    no_data = [];
    read_data = λ line k links. read_weighted casts key.no_key line;
    init_c = λ k links.
        if ltb (key.node k) adsorption_starts then double.literal 10 0 else double.literal 0 0;
    default_v = double.literal 0 0;
    init_v = λ k links. double.literal 0 0;
    accumulate = double.add;
    process_delta_v = λ k delta value links. (delta, value, links);
    priority = λ pri v delta. delta;
    g_func = λ k delta v links.
        map (λ target. (target.end, double.mul (double.mul delta adsorption_damping) target.weight))
          links;
  }
