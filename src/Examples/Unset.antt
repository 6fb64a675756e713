-- ===== src/Examples/Unset.antt =====
-- What src/examples/adsorption.cpp computes as its main function sets it up: `adsorption_starts` and
-- `adsorption_damping` are never assigned, and stay 0.
use maiter_p.Base.{
  ℕ, ◌<◌, ◌≤◌, ◌^◌, ◌≡◌, refl, ap, ◌∙◌, List, [], ◌∷◌, Bool-cases, inl, inr, map, length, arith,
  le→ltb, Option, ok, >>=-eq-ok, ok-injective,
}
use maiter_p.Kernel.{Key, Value, IterateKernel}
use maiter_p.Accumulation.{mail, sent, spread}
use maiter_p.StateTable.Defs.{StateTable, Bucket}
use maiter_p.Iterators.Pass.{Progress}
use maiter_p.Maiter.Loaded.{AllRead, last_row}
use maiter_p.Maiter.Job.{RunMaiter}
use maiter_p.Maiter.Job.Fixpoint.{AllLines, AllLines-map, AtRest, IsFixpoint, RunMaiter-IsFixpoint}
use maiter_p.Maiter.Job.Lines.{lines_of, counted, RunMaiter-lines_of}
use maiter_p.Examples.Doubles.{Double}
use maiter_p.Examples.Shortestpath.{Link, Casts}
use maiter_p.Examples.Adsorption.{adsorption}
use mathlib.Core.Path.{subst}
use maiter_p.Maiter.Settings.{Settings}
use maiter_p.Examples.Mains.{AdsorptionGlobals, adsorption_main, maiter_init}
use maiter_p.Examples.Laws.{Exact, linear-Accumulative}

module _ {ℓ} {K V : Type ℓ} ⦃key : Key K⦄ ⦃value : Value V⦄ ⦃double : Double V⦄ (casts : Casts K V)
    (exact : Exact double) where
  abbrev nothing : V
  nothing = double.literal 0 0

  abbrev unset : IterateKernel K V (List (Link K V))
  unset = adsorption casts 0 nothing

  mail-unset :
      (d : V) (links : List (Link K V)) (j : K)
      → mail unset (map (λ l. (l.end, double.mul (double.mul d nothing) l.weight)) links) j
        ≡ nothing
  unfolding mail adsorption
  mail-unset d [] j = refl
  mail-unset d (l ∷ links) j = elim (Bool-cases (key.beq l.end j)) [
    | inl e ↦
        rw
          (
            e,
            mail-unset d links j,
            exact.mul_comm d nothing,
            exact.mul_zero d,
            exact.mul_zero l.weight,
          )
          (exact.add_zero nothing)
    | inr e ↦ rw e (mail-unset d links j)
  ]

  spread-unset : (us : List (Bucket K V (List (Link K V)))) (j : K) → spread unset us j ≡ nothing
  unfolding spread sent adsorption
  spread-unset [] j = refl
  spread-unset (u ∷ us) j = elim (Bool-cases u.in_use) [
    | inl used ↦ rw (used, mail-unset u.v2 u.v3 j, spread-unset us j) (exact.add_zero nothing)
    | inr free ↦ rw free (spread-unset us j)
  ]

  fixpoint-unset :
      (t : StateTable K V (List (Link K V))) (j : K) (v : V)
      → IsFixpoint ⦃kernel = unset⦄ (λ i. nothing) t j v
      → v ≡ nothing
  unfolding adsorption
  fixpoint-unset t j v fixed =
      fixed ∙ ap (λ a. double.add nothing a) (spread-unset t.buckets j) ∙ exact.add_zero nothing

  -- The results with the globals at 0.
  adsorption-nothing :
      {R : Type ℓ} (progress : Progress V R) {num_threads num_nodes : ℕ} {file : List (List ℕ)}
      {lines : List (K × V)} {last : StateTable K V (List (Link K V))}
      → AllRead unset file
      → num_threads ≤ length file
      → length file ≤ num_nodes
      → 0 < num_nodes
      → num_nodes < 2 ^ 31
      → RunMaiter unset progress num_threads num_nodes file lines last
      → AtRest ⦃kernel = unset⦄ last
      → AllLines (λ k v. v ≡ nothing) lines
        × ((j : K) → lines_of j lines ≡ counted (last_row ⦃kernel = unset⦄ file j))
  unfolding adsorption
  adsorption-nothing progress {lines = lines} {last = last} all threads room many small run rest =
      let laws = (linear-Accumulative casts 0 nothing exact).1 in
      (
        AllLines-map (fixpoint-unset last) lines (
            RunMaiter-IsFixpoint ⦃kernel = unset⦄ progress laws (λ j. nothing)
              (λ j x. rw (le→ltb (key.node j) 0 (omega arith)) refl) (λ j x. refl) all threads room
              many small run rest),
        RunMaiter-lines_of ⦃kernel = unset⦄ laws.plain progress all threads room many small run,
      )

  module _ {R : Type ℓ} (progress : Progress V R) (one_v : V) (of_nat : ℕ → V) (atof : List ℕ → V)
      (memory : Settings V) where
    -- Whatever the configuration, the globals are 0.
    adsorption_main-nothing :
        (config : Option (List (List ℕ))) {settings : Settings V} {globals : AdsorptionGlobals V}
        → adsorption_main nothing one_v of_nat atof memory config ≡ ok (settings, globals)
        → record { adsorption_starts = 0; adsorption_damping = nothing } ≡ globals
    unfolding adsorption_main
    adsorption_main-nothing config run =
        let (read, loads, rest) =
          >>=-eq-ok (maiter_init nothing one_v of_nat atof memory config)
            (λ c. ok (c.1, record { adsorption_starts = 0; adsorption_damping = nothing })) run in
        ap (λ p. p.1) (ok-injective rest)

    -- Over exact arithmetic, the adsorption program with its globals as its main function leaves them,
    -- whatever the configuration, on a file of readable lines, at least as many as threads and no more
    -- than nodes, with the number of nodes positive and within int, if nothing is left to spread at the
    -- end of the job, writes exactly one line for each key that a line of the file is for, none for any
    -- other key, and the value 0 in every line.
    pub adsorption-unset :
        (config : Option (List (List ℕ))) {settings : Settings V} {globals : AdsorptionGlobals V}
        {num_threads num_nodes : ℕ} {file : List (List ℕ)} {lines : List (K × V)}
        {last : StateTable K V (List (Link K V))}
        → adsorption_main nothing one_v of_nat atof memory config ≡ ok (settings, globals)
        → AllRead (adsorption casts globals.adsorption_starts globals.adsorption_damping) file
        → num_threads ≤ length file
        → length file ≤ num_nodes
        → 0 < num_nodes
        → num_nodes < 2 ^ 31
        → RunMaiter
            (adsorption casts globals.adsorption_starts globals.adsorption_damping)
            progress
            num_threads
            num_nodes
            file
            lines
            last
        → AtRest ⦃kernel = adsorption casts globals.adsorption_starts globals.adsorption_damping⦄
            last
        → AllLines (λ k v. v ≡ nothing) lines
          × ((j : K)
              → lines_of j lines
                ≡ counted (
                    last_row
                      ⦃kernel = adsorption casts globals.adsorption_starts
                        globals.adsorption_damping⦄
                      file j))
    adsorption-unset config {num_threads = num_threads} {num_nodes} {file} {lines} {last} main all
          threads room many small run rest =
        subst
          (λ (g : AdsorptionGlobals V).
            let program = adsorption casts g.adsorption_starts g.adsorption_damping in
            AllRead program file
            → RunMaiter program progress num_threads num_nodes file lines last
            → AtRest ⦃kernel = program⦄ last
            → AllLines (λ k v. v ≡ nothing) lines
              × ((j : K) → lines_of j lines ≡ counted (last_row ⦃kernel = program⦄ file j)))
          (adsorption_main-nothing config main)
          (λ all run rest. adsorption-nothing progress all threads room many small run rest) all run
          rest
