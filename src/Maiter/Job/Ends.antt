-- ===== src/Maiter/Job/Ends.antt =====
-- A job (src/kernel/kernel.h, `runMaiter`) with the workers in turn ends.
use maiter_p.Base.{ℕ, ◌<◌, ◌≤◌, ◌^◌, ◌≡◌, refl, sym, ap, ◌∙◌, List, [], ◌∷◌, ok, Returns, length}
use mathlib.Core.Path.{subst}
use maiter_p.Kernel.{Key, Value, IterateKernel}
use maiter_p.Locks.{Vertexlock, init_mutex, destroy_mutex-init}
use maiter_p.Accumulation.{Accumulative}
use maiter_p.StateTable.Defs.{StateTable}
use maiter_p.StateTable.Invariant.{WellFormed}
use maiter_p.Iterators.Intervals.{Interval}
use maiter_p.Iterators.Pass.{Progress}
use maiter_p.Iterators.Results.{results, dump-results}
use maiter_p.Global.{TableIterator, whole, scheduled}
use maiter_p.Maiter.Balance.{Balanced}
use maiter_p.Maiter.Frame.{SameFrame, SameFrame-refl}
use maiter_p.Maiter.Loaded.{AllRead, init_table-Initial}
use maiter_p.Maiter.Job.Fixpoint.{Initial-Sound}
use maiter_p.Maiter.Transit.{in_transit}
use maiter_p.Maiter.Load.{init_table}
use maiter_p.Maiter.Round.Kept.{Closed, Closed-same, Valid-same, Goes, Goes-here, Goes-trans}
use maiter_p.Maiter.Round.Filled.{AllListed, AllListed-same, set-AllShares}
use maiter_p.Maiter.Round.Shares.{Sane, positions_of, share_out-eq, run_rounds-Goes}
use maiter_p.Maiter.Job.{run_phase, run_maiter}

module _ {ℓ} {K V D : Type ℓ} ⦃key : Key K⦄ ⦃value : Value V⦄ ⦃kernel : IterateKernel K V D⦄ where
  -- Iterators that the workers can share out.
  abbrev pub AllSane : StateTable K V D → ℕ → List TableIterator → Type 0
  AllSane t n [] = Unit
  AllSane t n (it ∷ its) = (n ≤ positions_of t it) × Sane t it × AllSane t n its

  positions_of-same :
      {t t' : StateTable K V D} (it : TableIterator)
      → WellFormed t
      → WellFormed t'
      → SameFrame t t'
      → positions_of t' it ≡ positions_of t it
  positions_of-same whole wf wf' frames = wf'.fits.width ∙ frames.same_size ∙ sym wf.fits.width
  positions_of-same (scheduled s) wf wf' frames = refl

  AllSane-same :
      {t t' : StateTable K V D} (n : ℕ) (its : List TableIterator)
      → WellFormed t
      → WellFormed t'
      → SameFrame t t'
      → AllSane t n its
      → AllSane t' n its
  AllSane-same n [] wf wf' frames sane = tt
  AllSane-same n (it ∷ its) wf wf' frames (enough, sane, others) =
      let same = positions_of-same it wf wf' frames in
      (
        subst (λ p. n ≤ p) (sym same) enough,
        λ pos below. Valid-same it pos frames (sane pos (subst (λ p. pos < p) same below)),
        AllSane-same n its wf wf' frames others,
      )

  module _ (laws : Accumulative kernel) (c m : K → V) (l : Vertexlock) where
    pub run_phase-Goes :
        (t : StateTable K V D) (xs : List Interval) (ids : List ℕ) (its : List TableIterator)
        → 0 < length xs
        → AllListed xs ids
        → AllSane t (length xs) its
        → WellFormed t
        → Balanced c t m
        → Closed l t
        → Returns (run_phase l t xs ids its) (Goes laws c m l t)
    unfolding run_phase
    run_phase-Goes t xs ids [] some all sane wf balanced closed =
        ((l, t), refl, Goes-here laws c m l wf balanced)
    run_phase-Goes t xs ids (it ∷ its) some all (enough, sane, others) wf balanced closed =
        let (ys, shared, (shares, same, wide)) = set-AllShares (positions_of t it) xs some enough in
        let all' = AllListed-same ys xs ids same all in
        let (r, runs, goes) =
          run_rounds-Goes laws c m l t t it ys ids sane (SameFrame-refl t) shares all' wf balanced
            closed in
        let (r', runs', goes') =
          run_phase-Goes r.1 ys ids its (subst (λ n. 0 < n) (sym wide) some) all'
            (AllSane-same (length ys) its wf goes.kept.wf goes.frames
              (subst (λ n. AllSane t n its) (sym wide) others))
            goes.kept.wf goes.kept.balanced (Closed-same goes.kept.same_rows goes.frames closed) in
        (
          r',
          rw (share_out-eq t it (length xs) xs ∙ shared, runs)
              (ap (λ a. run_phase a r.1 ys ids its) goes.kept.locks ∙ runs'),
          Goes-trans laws c m l goes goes',
        )

  -- Under the same conditions on kernel, file and sizes, with the workers in turn, at least one, each
  -- with an interval, where on the loaded table all links lead to its vertices, their locks exist, and
  -- each iterator has as many positions as threads and a bucket behind each, in use where it is
  -- scheduled: the job ends without a fault, and writes the results of a well-formed table of the size
  -- asked for that is in balance with nothing under way.
  pub run_maiter-Returns :
      {R : Type ℓ} (progress : Progress V R) (laws : Accumulative kernel) (c : K → V)
      (num_threads num_nodes : ℕ) (file : List (List ℕ)) (xs : List Interval) (ids : List ℕ)
      (its : List TableIterator)
      → ((j : K) (x : D) → kernel.init_c j x ≡ c j)
      → ((j : K) (x : D) → kernel.init_v j x ≡ kernel.default_v)
      → AllRead kernel file
      → num_threads ≤ length file
      → length file ≤ num_nodes
      → 0 < num_nodes
      → num_nodes < 2 ^ 31
      → 0 < length xs
      → AllListed xs ids
      → ((t : StateTable K V D)
          → init_table num_threads num_nodes file ≡ ok (t, length file)
          → Closed (init_mutex (length file)) t × AllSane t (length xs) its)
      → Returns (run_maiter kernel progress num_threads num_nodes file xs ids its) λ r.
        (last : StateTable K V D) × WellFormed last
        × Balanced c last (λ j. kernel.default_v)
        × (last.size ≡ num_nodes)
        × (r.0 ≡ results last.buckets)
  unfolding run_maiter in_transit
  run_maiter-Returns progress laws c num_threads num_nodes file xs ids its constant plain all
        threads room many small some listed_all closed =
      let ((t, line), loads, (init, size_is, lines, _)) =
        init_table-Initial num_threads num_nodes file all threads room many small in
      let loads' : init_table num_threads num_nodes file ≡ ok (t, length file) =
        loads ∙ ap (λ n. ok (t, n)) lines in
      let (links, sane) = closed t loads' in
      let (r, runs, goes) =
        run_phase-Goes laws c (λ j. kernel.default_v) (init_mutex (length file)) t xs ids its some
          listed_all sane init.wf (Initial-Sound laws c t 0 constant plain init).balanced links in
      let (written, dumps, lines_are) =
        dump-results ⦃progress = progress⦄ r.1 goes.kept.wf.fits.width in
      (
        written,
        rw (loads', runs, goes.kept.locks, destroy_mutex-init (length file)) dumps,
        (r.1, goes.kept.wf, goes.kept.balanced, goes.frames.same_size ∙ size_is, lines_are),
      )
