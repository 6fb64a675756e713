-- ===== src/Examples/Katz.antt =====
-- src/examples/katz.cpp
use maiter_p.Base.{
  ℕ, List, [], ◌∷◌, Run, ok, fault, uninitialized, ◌>>=◌, if◌then◌else◌, map, ◌==◌, length, suc,
}
use maiter_p.Kernel.{Key, IterateKernel}
use maiter_p.Examples.Doubles.{Double}
use maiter_p.Examples.Text.{find_byte, before, after, read_links, tab}
use maiter_p.Examples.Shortestpath.{Casts}

module _ {ℓ} {K V : Type ℓ} (casts : Casts K V) where
  -- One round of the loop of `read_data`: before an empty link `to` is read unset.
  unfoldable pub read_target : List ℕ → Run K
  read_target [] = fault uninitialized
  read_target (c ∷ link) = casts.cast_key (c ∷ link)

  unfoldable pub read_targets : List ℕ → Run (K × List K)
  unfolding find_byte before after read_target read_links
  read_targets line =
      let pos = find_byte tab line in
      do
        source ← casts.cast_key (before pos line)
        linkvec ←
            read_links (λ link rest. read_target link) (suc (length (after pos line)))
              (after pos line)
        ok (source, linkvec)

module _ {ℓ} {K V : Type ℓ} ⦃key : Key K⦄ ⦃double : Double V⦄ (casts : Casts K V) (katz_source : ℕ)
    (katz_beta : V) where
  -- `KatzIterateKernel`
  unfoldable pub katz : IterateKernel K V (List K)
  unfolding read_targets
  katz = record {
    no_data = [];
    read_data = λ line k links. read_targets casts line;
    init_c = λ k links.
        if key.node k == katz_source then double.literal 1000000 0 else double.literal 0 0;
    default_v = double.literal 0 0;
    init_v = λ k links. double.literal 0 0;
    accumulate = double.add;
    process_delta_v = λ k delta value links. (delta, value, links);
    priority = λ pri v delta. delta;
    g_func = λ k delta v links. map (λ target. (target, double.mul katz_beta delta)) links;
  }
