-- ===== src/Maiter/Job/Fixpoint.antt =====
-- What a job writes (src/kernel/kernel.h, `runMaiter`), if the workers come to rest.
use maiter_p.Base.{
  ℕ, zero, suc, ◌<◌, ◌≤◌, ◌^◌, ◌≡◌, refl, sym, ap, ◌∙◌, true, some, List, [], ◌∷◌, Returns-unique,
  length, get_or, replicate, Bool-cases, inl, inr, arith,
}
use mathlib.Core.Path.{subst}
use maiter_p.Kernel.{Key, Value, IterateKernel}
use maiter_p.Accumulation.{spread, Accumulative}
use maiter_p.StateTable.Defs.{StateTable, Bucket}
use maiter_p.StateTable.Put.{blank}
use maiter_p.StateTable.Probe.{slot}
use maiter_p.StateTable.Invariant.{WellFormed, view, row_at}
use maiter_p.Iterators.Pass.{Progress}
use maiter_p.Iterators.Results.{results, dump-results}
use maiter_p.Maiter.Loaded.{AllRead, Initial, init_table-Initial}
use maiter_p.Maiter.Threads.{Sound, Reaches-Sound, Reaches-fixpoint, start-Sound}
use maiter_p.Maiter.Job.{loaded, RunMaiter, phases}

module _ {ℓ} {K V : Type ℓ} where
  -- Every line written satisfies `P`.
  abbrev pub AllLines : (K → V → Type ℓ) → List (K × V) → Type ℓ
  AllLines P [] = Unit
  AllLines P ((k, v) ∷ rest) = P k v × AllLines P rest

pub AllLines-map {ℓ} :
    {K V : Type ℓ} {P Q : K → V → Type ℓ}
    → ((k : K) (v : V) → P k v → Q k v)
    → (lines : List (K × V)) → AllLines P lines
    → AllLines Q lines
AllLines-map change [] all = tt
AllLines-map change ((k, v) ∷ lines) (p, all) = (change k v p, AllLines-map change lines all)

module _ {ℓ} {K V D : Type ℓ} where
  AllLines-results :
      (P : K → V → Type ℓ) (us : List (Bucket K V D)) (o : Bucket K V D)
      → ((b : ℕ)
          → b < length us
          → (get_or us b o).in_use ≡ true
          → P (get_or us b o).k (get_or us b o).v2)
      → AllLines P (results us)
  unfolding results get_or
  AllLines-results P [] o all = tt
  AllLines-results P (u ∷ us) o all =
      let rest = AllLines-results P us o (λ b h. all (suc b) (omega arith)) in
      elim (Bool-cases u.in_use) [
        | inl used ↦ rw used (all 0 (omega arith) used, rest)
        | inr free ↦ rw free rest
      ]

get_or-replicate_self {ℓ} : {A : Type ℓ} (n w : ℕ) (a : A) → get_or (replicate n a) w a ≡ a
unfolding get_or
get_or-replicate_self zero w a = refl
get_or-replicate_self (suc n) zero a = refl
get_or-replicate_self (suc n) (suc w) a = get_or-replicate_self n w a

module _ {ℓ} {K V D : Type ℓ} ⦃key : Key K⦄ ⦃value : Value V⦄ ⦃kernel : IterateKernel K V D⦄ where
  -- Nothing is left to spread.
  abbrev pub AtRest : StateTable K V D → Type ℓ
  AtRest t = (j : K) (d v : V) (x : D) → view t j ≡ some (d, v, x) → d ≡ kernel.default_v

  -- The value is the constant and all that the table's vertices send for their whole values.
  abbrev pub IsFixpoint : (K → V) → StateTable K V D → K → V → Type ℓ
  IsFixpoint c t j v = v ≡ kernel.accumulate (c j) (spread kernel t.buckets j)

  pub Initial-Sound :
      (laws : Accumulative kernel) (c : K → V) (t : StateTable K V D) (num_threads : ℕ)
      → ((j : K) (x : D) → kernel.init_c j x ≡ c j)
      → ((j : K) (x : D) → kernel.init_v j x ≡ kernel.default_v)
      → Initial t
      → Sound c (loaded t num_threads)
  Initial-Sound laws c t num_threads constant plain init =
      start-Sound laws t (replicate num_threads []) init.wf
        (λ w. get_or-replicate_self num_threads w [])
        (λ j d v x present.
          let (is_c, is_v) = init.rows j d v x present in (is_c ∙ constant j x, is_v ∙ plain j x))

  -- For an accumulative kernel whose initial deltas are a constant for each key and whose initial
  -- values are the default, on a file of readable lines, at least as many as threads and no more than
  -- nodes, with the number of nodes positive and within int: whatever the interleaving of the workers,
  -- if nothing is left to spread at the end of the job, each line that it writes has as its value the
  -- constant of its key and all that the vertices of the last table send it for their whole values.
  pub RunMaiter-IsFixpoint :
      {R : Type ℓ} (progress : Progress V R) (laws : Accumulative kernel) (c : K → V)
      {num_threads num_nodes : ℕ} {file : List (List ℕ)} {lines : List (K × V)}
      {last : StateTable K V D}
      → ((j : K) (x : D) → kernel.init_c j x ≡ c j)
      → ((j : K) (x : D) → kernel.init_v j x ≡ kernel.default_v)
      → AllRead kernel file
      → num_threads ≤ length file
      → length file ≤ num_nodes
      → 0 < num_nodes
      → num_nodes < 2 ^ 31
      → RunMaiter kernel progress num_threads num_nodes file lines last
      → AtRest last
      → AllLines (IsFixpoint c last) lines
  unfolding view
  RunMaiter-IsFixpoint progress laws c {num_threads} {num_nodes} {file} {lines} {last} constant
        plain all threads room many small (phases first line s sums loads reach empty same dumps)
        rest =
      let (init, _, _, _) =
        Returns-unique _ (init_table-Initial num_threads num_nodes file all threads room many small)
          loads in
      let start = Initial-Sound laws c first num_threads constant plain init in
      let wf : WellFormed last = subst WellFormed same (Reaches-Sound laws start reach).wf in
      let written : lines ≡ results last.buckets =
        Returns-unique _ (dump-results ⦃progress = progress⦄ last wf.fits.width) dumps in
      let at_end : (j : K) (d v : V) (x : D)
          → view last j ≡ some (d, v, x)
          → IsFixpoint c last j v =
        subst
          (λ t.
            AtRest t → (j : K) (d v : V) (x : D) → view t j ≡ some (d, v, x) → IsFixpoint c t j v)
          same (λ quiet. Reaches-fixpoint laws start reach empty quiet) rest in
      subst (AllLines (IsFixpoint c last)) (sym written) (
        AllLines-results (IsFixpoint c last) last.buckets blank (λ b h used.
          at_end (slot last b).k (slot last b).v1 (slot last b).v2 (slot last b).v3
            (ap (row_at last) (wf.probed b (rw (← wf.fits.width) h) used))))
