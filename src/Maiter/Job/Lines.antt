-- ===== src/Maiter/Job/Lines.antt =====
-- Which lines a job writes (src/kernel/kernel.h, `runMaiter`): the workers neither add nor move rows.
use maiter_p.Base.{
  ℕ, zero, suc, ◌%◌, ◌<◌, ◌≤◌, ◌^◌, ◌≡◌, refl, sym, ap, ◌∙◌, true, Option, none, some, List, [],
  ◌∷◌, Returns-unique, length, get_or, Bool-cases, inl, inr, arith, if◌then◌else◌,
}
use mathlib.Core.Path.{subst}
use maiter_p.Kernel.{Key, Value, IterateKernel}
use maiter_p.StateTable.Defs.{StateTable, Bucket}
use maiter_p.StateTable.Put.{blank}
use maiter_p.StateTable.Probe.{Found, hit, gap, full, slot, home, walk, probe}
use maiter_p.StateTable.Walk.{walk_congr}
use maiter_p.StateTable.Invariant.{WellFormed, view, row_at, probe-hit, probe-hit_iff}
use maiter_p.Iterators.Pass.{Progress}
use maiter_p.Iterators.Results.{results, dump-results}
use maiter_p.Maiter.Frame.{
  SameFrame, SameFrame-refl, SameFrame-trans, accumulate_f1-SameFrame, spread_vertex-SameFrame,
}
use maiter_p.Maiter.Loaded.{AllRead, last_row, init_table-Initial}
use maiter_p.Maiter.Threads.{System, Step, take, deliver, Reaches, start, more}
use maiter_p.Maiter.Job.{RunMaiter, phases}

module _ {ℓ} {K V : Type ℓ} ⦃key : Key K⦄ where
  -- The number of lines for a key.
  unfoldable pub lines_of : K → List (K × V) → ℕ
  lines_of j [] = 0
  lines_of j ((k, v) ∷ rest) = if key.beq j k then suc (lines_of j rest) else lines_of j rest

module _ {ℓ} {K V D : Type ℓ} ⦃key : Key K⦄ where
  -- A bucket in use for a key.
  abbrev Keyed : K → Bucket K V D → Type 0
  Keyed j u = (u.in_use ≡ true) × (key.beq j u.k ≡ true)

  lines_of-none :
      (j : K) (us : List (Bucket K V D)) (o : Bucket K V D)
      → ((b : ℕ) → b < length us → ¬ Keyed j (get_or us b o))
      → lines_of j (results us) ≡ 0
  unfolding results lines_of get_or
  lines_of-none j [] o absent = refl
  lines_of-none j (u ∷ us) o absent =
      let rest = lines_of-none j us o (λ b h. absent (suc b) (omega arith)) in
      elim (Bool-cases u.in_use) [
        | inr free ↦ rw free rest
        | inl used ↦ elim (Bool-cases (key.beq j u.k)) [
          | inl e ↦ absurd (absent 0 (omega arith) (used, e))
          | inr e ↦ rw (used, e) rest
        ]
      ]

  lines_of-one :
      (j : K) (us : List (Bucket K V D)) (o : Bucket K V D) (i : ℕ)
      → i < length us
      → Keyed j (get_or us i o)
      → ((b : ℕ) → b < length us → Keyed j (get_or us b o) → b ≡ i)
      → lines_of j (results us) ≡ 1
  unfolding results lines_of get_or
  lines_of-one j [] o i h here single = absurd (omega arith)
  lines_of-one j (u ∷ us) o zero h (used, e) single =
      rw (used, e)
        (ap suc (
          lines_of-none j us o
            (λ b h there. let same = single (suc b) (omega arith) there in absurd (omega arith))))
  lines_of-one j (u ∷ us) o (suc i) h here single =
      let rest =
        lines_of-one j us o i (omega arith) here
          (λ b h there. let same = single (suc b) (omega arith) there in omega arith) in
      elim (Bool-cases u.in_use) [
        | inr free ↦ rw free rest
        | inl used ↦ elim (Bool-cases (key.beq j u.k)) [
          | inl e ↦ let same = single 0 (omega arith) (used, e) in absurd (omega arith)
          | inr e ↦ rw (used, e) rest
        ]
      ]

hit-injective : {i j : ℕ} → hit i ≡ hit j → i ≡ j
hit-injective e = cc

-- One line for a row, and none where there is no row.
unfoldable pub counted {ℓ} : {A : Type ℓ} → Option A → ℕ
counted none = 0
counted (some a) = 1

module _ {ℓ} {K V D : Type ℓ} ⦃key : Key K⦄ ⦃value : Value V⦄ ⦃kernel : IterateKernel K V D⦄ where
  -- On a well-formed table a key has as many lines as rows.
  results-view :
      {t : StateTable K V D}
      → WellFormed t
      → (j : K) → lines_of j (results t.buckets) ≡ counted (view t j)
  unfolding view counted
  results-view {t} wf j = found (probe t j) refl
    where
      width : length t.buckets ≡ t.size
      width = wf.fits.width

      keyed_hit : (b : ℕ) → b < length t.buckets → Keyed j (slot t b) → probe t j ≡ hit b
      keyed_hit b h (used, e) =
          probe-hit_iff wf j b (omega (arith, width)) used (sym ((key.beq_iff j _).0 e))

      found : (p : Found) → probe t j ≡ p → lines_of j (results t.buckets) ≡ counted (row_at t p)
      found (hit i) at_hit =
          let (below, used, name) = probe-hit wf.fits j i at_hit in
          lines_of-one j t.buckets blank i (omega (arith, below, width))
            (used, (key.beq_iff j _).1 (sym name))
            (λ b h there. hit-injective (sym (keyed_hit b h there) ∙ at_hit))
      found (gap i) at_gap =
          lines_of-none j t.buckets blank (λ b h there. cc (keyed_hit b h there, at_gap))
      found full at_full =
          lines_of-none j t.buckets blank (λ b h there. cc (keyed_hit b h there, at_full))

  probe-same : {t t' : StateTable K V D} → SameFrame t t' → (j : K) → probe t' j ≡ probe t j
  unfolding probe
  probe-same {t} {t'} same j =
      ap (λ n. walk n (slot t') j n (key.hash j % n)) same.same_size
      ∙ walk_congr t.size (slot t') (slot t) j
          (λ i. (ap (λ f. f.0) (same.same_frame i), ap (λ f. f.1) (same.same_frame i))) t.size
          (home t j)

  SameFrame-WellFormed : {t t' : StateTable K V D} → SameFrame t t' → WellFormed t → WellFormed t'
  SameFrame-WellFormed {t} {t'} same wf =
      let size = same.same_size in
      let width = same.same_width in
      let fits = wf.fits in
      record {
        fits = record {
          width = width ∙ fits.width ∙ sym size;
          nonempty = omega (arith, fits.nonempty, size);
          small = omega (arith, fits.small, size);
        };
        probed = λ i h used.
            let kept = same.same_frame i in
            probe-same same (slot t' i).k
            ∙ ap (probe t) (ap (λ f. f.1) kept)
            ∙ wf.probed i (omega (arith, h, size)) (sym (ap (λ f. f.0) kept) ∙ used);
      }

  counted-same :
      {t t' : StateTable K V D}
      → SameFrame t t'
      → (j : K) → counted (view t' j) ≡ counted (view t j)
  unfolding view counted
  counted-same {t} {t'} same j = rw (probe-same same j) (at_found (probe t j))
    where
      at_found : (p : Found) → counted (row_at t' p) ≡ counted (row_at t p)
      at_found (hit i) = refl
      at_found (gap i) = refl
      at_found full = refl

  module _ (plain : (k : K) (d v : V) (x : D) → kernel.process_delta_v k d v x ≡ (d, v, x)) where
    Step-SameFrame : {s s' : System K V D} → Step s s' → SameFrame s.table s'.table
    Step-SameFrame {s} (take w pos hw idle hpos used run) =
        spread_vertex-SameFrame plain s.table pos [] run
    Step-SameFrame {s} (deliver w i a first run) = accumulate_f1-SameFrame s.table i a run

    Reaches-SameFrame : {s s' : System K V D} → Reaches s s' → SameFrame s.table s'.table
    Reaches-SameFrame {s} start = SameFrame-refl s.table
    Reaches-SameFrame (more reach step) =
        SameFrame-trans (Reaches-SameFrame reach) (Step-SameFrame step)

    -- For a kernel that does not change a row before it spreads it, on a file of readable lines, at
    -- least as many as threads and no more than nodes, with the number of nodes positive and within
    -- int: whatever the interleaving of the workers, the job writes exactly one line for each key that
    -- a line of the file is for, and none for any other key.
    pub RunMaiter-lines_of :
        {R : Type ℓ} (progress : Progress V R) {num_threads num_nodes : ℕ} {file : List (List ℕ)}
        {lines : List (K × V)} {last : StateTable K V D}
        → AllRead kernel file
        → num_threads ≤ length file
        → length file ≤ num_nodes
        → 0 < num_nodes
        → num_nodes < 2 ^ 31
        → RunMaiter kernel progress num_threads num_nodes file lines last
        → (j : K) → lines_of j lines ≡ counted (last_row {V = V} {D = D} file j)
    RunMaiter-lines_of progress {num_threads} {num_nodes} {file} {lines} {last} all threads room
          many small (phases first line s sums loads reach empty same dumps) j =
        let (init, _, _, rows) =
          Returns-unique _
            (init_table-Initial num_threads num_nodes file all threads room many small) loads in
        let frames : SameFrame first last =
          subst (SameFrame first) same (Reaches-SameFrame reach) in
        let wf = SameFrame-WellFormed frames init.wf in
        let written : lines ≡ results last.buckets =
          Returns-unique _ (dump-results ⦃progress = progress⦄ last wf.fits.width) dumps in
        ap (lines_of j) written ∙ results-view wf j ∙ counted-same frames j ∙ ap counted (rows j)
