-- ===== src/Examples/Distances.antt =====
-- What the shortest-path program of src/examples/shortestpath.cpp computes: where an accumulative
-- iteration is at rest, each value is the greatest that no link undercuts.
use maiter_p.Base.{
  ℕ, ◌<◌, ◌≤◌, ◌^◌, ◌≡◌, refl, ap, sym, ◌∙◌, Bool, true, false, not, ◌&&◌, List, [], ◌∷◌, ◌==◌,
  if◌then◌else◌, Bool-cases, inl, inr, map, length, arith,
}
use maiter_p.Kernel.{Key, Value}
use maiter_p.Accumulation.{mail, sent, spread}
use maiter_p.StateTable.Defs.{StateTable, Bucket}
use maiter_p.Iterators.Pass.{Progress}
use maiter_p.Maiter.Loaded.{AllRead}
use maiter_p.Maiter.Job.{RunMaiter}
use maiter_p.Maiter.Job.Fixpoint.{AllLines, AllLines-map, AtRest, IsFixpoint, RunMaiter-IsFixpoint}
use maiter_p.Examples.Doubles.{Double, min_d}
use maiter_p.Examples.Shortestpath.{Link, Casts, shortestpath}
use maiter_p.Examples.Laws.{Ordered, Absorbs, shortestpath-Accumulative}

-- `a` does not undercut `v`.
abbrev keeps {ℓ} : {V : Type ℓ} → ⦃value : Value V⦄ → V → V → Bool
keeps ⦃value = value⦄ a v = not (value.vlt a v)

module _ {ℓ} {K V : Type ℓ} ⦃key : Key K⦄ ⦃value : Value V⦄ ⦃double : Double V⦄ where
  -- No link from a vertex at the distance `d` undercuts `v` at the vertex `j`.
  unfoldable pub links_keep : V → List (Link K V) → K → V → Bool
  links_keep d [] j v = true
  links_keep d (l ∷ links) j v =
      (if key.beq l.end j then keeps (double.add d l.weight) v else true) && links_keep d links j v

  unfoldable pub all_keep : List (Bucket K V (List (Link K V))) → K → V → Bool
  unfolding links_keep
  all_keep [] j v = true
  all_keep (u ∷ us) j v = (if u.in_use then links_keep u.v2 u.v3 j v else true) && all_keep us j v

  -- The constant of the program: 0 at the source.
  unfoldable pub start_distance : ℕ → K → V
  start_distance source j = if key.node j == source then double.literal 0 0 else double.max_d

  -- Neither the constant nor any link of the table undercuts `v` at `j`.
  unfoldable pub settled : ℕ → StateTable K V (List (Link K V)) → K → V → Bool
  unfolding all_keep start_distance
  settled source t j v = keeps (start_distance source j) v && all_keep t.buckets j v

  -- The greatest value that is settled.
  pub record IsDistance (source : ℕ) (t : StateTable K V (List (Link K V))) (j : K) (v : V)
      : Type ℓ where
    pub is_settled : settled source t j v ≡ true
    pub greatest : (w : V) → settled source t j w ≡ true → value.vlt v w ≡ false

module _ {ℓ} {V : Type ℓ} ⦃value : Value V⦄ ⦃double : Double V⦄
    (ordered : Ordered value double) where
  open ordered use {lt_irrefl, lt_trans, lt_total, lt_max}

  keeps-min_d : (a b v : V) → keeps (min_d a b) v ≡ (keeps a v && keeps b v)
  unfolding min_d
  keeps-min_d a b v = ground (arith, lt_trans a b v, lt_trans b a v, lt_total a b, lt_irrefl v)

  keeps-max_d : (v : V) → keeps double.max_d v ≡ true
  keeps-max_d v = rw (lt_max v) refl

  module _ {K : Type ℓ} ⦃key : Key K⦄ (casts : Casts K V) (source : ℕ) where
    mail-links_keep :
        (d : V) (links : List (Link K V)) (j : K) (v : V)
        → keeps
            (mail (shortestpath casts source) (map (λ l. (l.end, double.add d l.weight)) links) j)
            v
          ≡ links_keep d links j v
    unfolding mail links_keep shortestpath
    mail-links_keep d [] j v = keeps-max_d v
    mail-links_keep d (l ∷ links) j v = elim (Bool-cases (key.beq l.end j)) [
      | inl e ↦ rw e (
          keeps-min_d _ _ v
          ∙ ap (λ b. keeps (double.add d l.weight) v && b) (mail-links_keep d links j v))
      | inr e ↦ rw e (mail-links_keep d links j v)
    ]

    spread-all_keep :
        (us : List (Bucket K V (List (Link K V)))) (j : K) (v : V)
        → keeps (spread (shortestpath casts source) us j) v ≡ all_keep us j v
    unfolding spread all_keep sent shortestpath
    spread-all_keep [] j v = keeps-max_d v
    spread-all_keep (u ∷ us) j v = elim (Bool-cases u.in_use) [
      | inl used ↦
          rw used
            (keeps-min_d _ _ v ∙ both (mail-links_keep u.v2 u.v3 j v) (spread-all_keep us j v))
      | inr free ↦ rw free (spread-all_keep us j v)
    ]
      where
        both : {a b c d : Bool} → a ≡ c → b ≡ d → (a && b) ≡ (c && d)
        both e f = cc

    -- Being settled is being no greater than the value of the fixpoint.
    settled-keeps :
        (t : StateTable K V (List (Link K V))) (j : K) (v w : V)
        → IsFixpoint ⦃kernel = shortestpath casts source⦄ (start_distance source) t j v
        → settled source t j w ≡ keeps v w
    unfolding settled shortestpath
    settled-keeps t j v w fixed = sym (
        ap (λ a. keeps a w) fixed
        ∙ keeps-min_d _ _ w
        ∙ ap (λ b. keeps (start_distance source j) w && b) (spread-all_keep t.buckets j w))

    pub fixpoint-IsDistance :
        (t : StateTable K V (List (Link K V))) (j : K) (v : V)
        → IsFixpoint ⦃kernel = shortestpath casts source⦄ (start_distance source) t j v
        → IsDistance source t j v
    fixpoint-IsDistance t j v fixed = record {
      is_settled = settled-keeps t j v v fixed ∙ rw (lt_irrefl v) refl;
      greatest = λ w is. not-true (sym (settled-keeps t j v w fixed) ∙ is);
    }
      where
        not-true : {b : Bool} → not b ≡ true → b ≡ false
        not-true {b = true} h = absurd (cc h)
        not-true {b = false} h = refl

module _ {ℓ} {K V R : Type ℓ} ⦃key : Key K⦄ ⦃value : Value V⦄ ⦃double : Double V⦄
    (casts : Casts K V) (source : ℕ) (progress : Progress V R) where
  -- For the shortest-path program over a total order under the maximum, with addition of a weight that
  -- keeps the order and the maximum, on a file of readable lines, at least as many as threads and no
  -- more than nodes, with the number of nodes positive and within int: whatever the interleaving of the
  -- workers, if nothing is left to spread at the end of the job, each line that it writes has the
  -- greatest value that neither the constant of its key nor any link from a vertex of the last table
  -- undercuts.
  pub shortestpath-IsDistance :
      Ordered value double
      → Absorbs value double
      → {num_threads num_nodes : ℕ} {file : List (List ℕ)} {lines : List (K × V)}
        {last : StateTable K V (List (Link K V))}
      → AllRead (shortestpath casts source) file
      → num_threads ≤ length file
      → length file ≤ num_nodes
      → 0 < num_nodes
      → num_nodes < 2 ^ 31
      → RunMaiter (shortestpath casts source) progress num_threads num_nodes file lines last
      → AtRest ⦃kernel = shortestpath casts source⦄ last
      → AllLines (IsDistance source last) lines
  unfolding start_distance shortestpath
  shortestpath-IsDistance ordered absorbs {lines = lines} {last = last} all threads room many small
        run rest =
      AllLines-map (fixpoint-IsDistance ordered casts source last) lines (
        RunMaiter-IsFixpoint ⦃kernel = shortestpath casts source⦄ progress
          (shortestpath-Accumulative casts source ordered absorbs) (start_distance source)
          (λ j x. refl) (λ j x. refl) all threads room many small run rest)
