-- ===== src/Examples/Shortestpath.antt =====
-- src/examples/shortestpath.cpp
use maiter_p.Base.{
  ℕ, none, some, List, [], ◌∷◌, Run, ok, ◌>>=◌, ◌==◌, if◌then◌else◌, map, length, suc,
}
use maiter_p.Kernel.{Key, Value, IterateKernel}
use maiter_p.Examples.Doubles.{Double, min_d}
use maiter_p.Examples.Text.{find_byte, before, after, substr, read_links, tab, comma}

-- `Link`, of this file and of src/examples/adsorption.cpp.
pub record Link {ℓ} (K V : Type ℓ) : Type ℓ where
  pub end : K
  pub weight : V

-- `boost::lexical_cast` to a key and to a number, which throw `bad_cast` on other text.
pub record Casts {ℓ} (K V : Type ℓ) : Type ℓ where
  pub cast_key : List ℕ → Run K
  pub cast_value : List ℕ → Run V

module _ {ℓ} {K V : Type ℓ} ⦃double : Double V⦄ (casts : Casts K V) where
  -- One round of the loop of `read_data`: an empty link is `Link(0, 0)`. The comma is looked for in all
  -- that is left of the line.
  unfoldable pub read_link : K → List ℕ → List ℕ → Run (Link K V)
  unfolding find_byte before substr
  read_link zero_k [] links = ok (record { end = zero_k; weight = double.literal 0 0 })
  read_link zero_k (c ∷ link) links =
      let cut = find_byte comma links in
      do
        end ← casts.cast_key (before cut (c ∷ link))
        text ← elim cut [ none ↦ ok (c ∷ link) | some p ↦ substr (suc p) (c ∷ link) ]
        weight ← casts.cast_value text
        ok (record { end = end; weight = weight })

  unfoldable pub read_weighted : K → List ℕ → Run (K × List (Link K V))
  unfolding find_byte before after read_link read_links
  read_weighted zero_k line =
      let pos = find_byte tab line in
      do
        source ← casts.cast_key (before pos line)
        linkvec ← read_links (read_link zero_k) (suc (length (after pos line))) (after pos line)
        ok (source, linkvec)

module _ {ℓ} {K V : Type ℓ} ⦃key : Key K⦄ ⦃value : Value V⦄ ⦃double : Double V⦄ (casts : Casts K V)
    (shortestpath_source : ℕ) where
  -- `ShortestpathIterateKernel`. Its `process_delta_v` is the inherited one, which does nothing.
  unfoldable pub shortestpath : IterateKernel K V (List (Link K V))
  unfolding read_weighted min_d
  shortestpath = record {
    no_data = [];
    read_data = λ line k links. read_weighted casts key.no_key line;
    init_c =
        λ k links. if key.node k == shortestpath_source then double.literal 0 0 else double.max_d;
    default_v = double.max_d;
    init_v = λ k links. double.max_d;
    accumulate = min_d;
    process_delta_v = λ k delta value links. (delta, value, links);
    priority = λ pri v delta. double.sub v (min_d v delta);
    g_func = λ k delta v links. map (λ target. (target.end, double.add delta target.weight)) links;
  }
