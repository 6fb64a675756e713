-- ===== src/Maiter/Round/Kept.antt =====
-- What a round of a worker (src/kernel/kernel.h, `run_loop`) keeps, on a graph whose links all lead to
-- vertices of the table.
use maiter_p.Base.{
  ℕ, ◌<◌, ◌≡◌, refl, sym, ap, ◌∙◌, Bool, true, List, [], ◌∷◌, Returns, length, get_or, Bool-cases,
  inl, inr,
}
use mathlib.Core.Path.{subst}
use maiter_p.Kernel.{Key, Value, IterateKernel}
use maiter_p.Locks.{Vertexlock, IsFree}
use maiter_p.Accumulation.{Accumulative}
use maiter_p.StateTable.Defs.{StateTable}
use maiter_p.StateTable.Put.{blank}
use maiter_p.StateTable.Probe.{slot, at-get_or}
use maiter_p.StateTable.Invariant.{WellFormed}
use maiter_p.Global.{TableIterator, whole, scheduled}
use maiter_p.Maiter.Iterate.{run_iter}
use maiter_p.Maiter.Balance.{Balanced, SameRows}
use maiter_p.Maiter.Turn.{Deliverable, Deliverable-same, Kept, run_iter-Kept}
use maiter_p.Maiter.Frame.{frame, SameFrame, SameFrame-refl, SameFrame-trans, run_iter-SameFrame}
use maiter_p.Maiter.Round.{bucket_behind, scheduled_bucket, is_in_use, run_behind, run_positions}

module _ {ℓ} {K V D : Type ℓ} ⦃key : Key K⦄ ⦃value : Value V⦄ ⦃kernel : IterateKernel K V D⦄ where
  -- What stands in a bucket in use can be spread: its lock is free, and whatever it sends arrives.
  abbrev CanSpread : Vertexlock → StateTable K V D → Bool × K × D → Type ℓ
  CanSpread l t (used, k, x) =
      used ≡ true → IsFree l (key.node k) × ((d v : V) → Deliverable l t (kernel.g_func k d v x))

  -- All links lead to vertices of the table.
  abbrev pub Closed : Vertexlock → StateTable K V D → Type ℓ
  Closed l t = (b : ℕ) → CanSpread l t (frame (slot t b))

  pub Closed-same :
      {l : Vertexlock} {t t' : StateTable K V D}
      → SameRows t t'
      → SameFrame t t'
      → Closed l t
      → Closed l t'
  Closed-same {l} {t} {t'} rows frames closed b =
      subst (CanSpread l t') (sym (frames.same_frame b))
        (λ used. ((closed b used).0, λ d v. Deliverable-same rows ((closed b used).1 d v)))

  -- A position at which the iterator has a bucket in use behind it.
  abbrev pub Valid : StateTable K V D → TableIterator → ℕ → Type 0
  Valid t whole pos = pos < t.size
  Valid t (scheduled s) pos =
      (pos < t.size)
      × (pos < length s.scheduled_pos)
      × (get_or s.scheduled_pos pos 0 < t.size)
      × ((slot t (get_or s.scheduled_pos pos 0)).in_use ≡ true)

  abbrev pub AllValid : StateTable K V D → TableIterator → List ℕ → Type 0
  AllValid t it [] = Unit
  AllValid t it (pos ∷ rest) = Valid t it pos × AllValid t it rest

  Valid-size : (t : StateTable K V D) (it : TableIterator) (pos : ℕ) → Valid t it pos → pos < t.size
  Valid-size t whole pos valid = valid
  Valid-size t (scheduled s) pos valid = valid.0

  pub Valid-same :
      {t t' : StateTable K V D} (it : TableIterator) (pos : ℕ)
      → SameFrame t t'
      → Valid t it pos
      → Valid t' it pos
  Valid-same whole pos frames valid = subst (λ n. pos < n) (sym frames.same_size) valid
  Valid-same (scheduled s) pos frames (below, inside, there, used) = (
    subst (λ n. pos < n) (sym frames.same_size) below,
    inside,
    subst (λ n. get_or s.scheduled_pos pos 0 < n) (sym frames.same_size) there,
    ap (λ f. f.0) (frames.same_frame (get_or s.scheduled_pos pos 0)) ∙ used,
  )

  AllValid-same :
      {t t' : StateTable K V D} (it : TableIterator) (ps : List ℕ)
      → SameFrame t t'
      → AllValid t it ps
      → AllValid t' it ps
  AllValid-same it [] frames valid = tt
  AllValid-same it (pos ∷ rest) frames (valid, others) =
      (Valid-same it pos frames valid, AllValid-same it rest frames others)

  module _ (laws : Accumulative kernel) (c m : K → V) (l : Vertexlock) where
    -- Besides what `Kept` says, the buckets in use, their keys and their links are the same.
    pub record Goes (t : StateTable K V D) (r : Vertexlock × StateTable K V D) : Type ℓ where
      pub kept : Kept laws c m l t r
      pub frames : SameFrame t r.1

    pub Goes-here : {t : StateTable K V D} → WellFormed t → Balanced c t m → Goes t (l, t)
    Goes-here {t} wf balanced = record {
      kept = record { locks = refl; wf = wf; balanced = balanced; same_rows = λ j. refl };
      frames = SameFrame-refl t;
    }

    pub Goes-trans :
        {t : StateTable K V D} {r r' : Vertexlock × StateTable K V D}
        → Goes t r
        → Goes r.1 r'
        → Goes t r'
    Goes-trans a b = record {
      kept = record {
        locks = b.kept.locks;
        wf = b.kept.wf;
        balanced = b.kept.balanced;
        same_rows = λ j. b.kept.same_rows j ∙ a.kept.same_rows j;
      };
      frames = SameFrame-trans a.frames b.frames;
    }

    module _ {t : StateTable K V D} (wf : WellFormed t) (balanced : Balanced c t m)
        (closed : Closed l t) where
      run_iter-Goes :
          (b : ℕ) → b < t.size → (slot t b).in_use ≡ true → Returns (run_iter l t b) (Goes t)
      run_iter-Goes b below used =
          let (r, runs, kept) =
            run_iter-Kept laws c m l wf balanced b below used (closed b used).0
              ((closed b used).1 _ _) in
          (r, runs, record { kept = kept; frames = run_iter-SameFrame laws.plain l t b runs })

      run_behind-Goes :
          (it : TableIterator) (pos : ℕ)
          → Valid t it pos
          → (slot t pos).in_use ≡ true
          → Returns (run_behind l t it pos) (Goes t)
      unfolding run_behind bucket_behind scheduled_bucket
      run_behind-Goes whole pos valid used = run_iter-Goes pos valid used
      run_behind-Goes (scheduled s) pos (below, inside, there, used') used =
          rw (at-get_or s.scheduled_pos pos 0 inside)
            (run_iter-Goes (get_or s.scheduled_pos pos 0) there used')

    -- The loop over positions ends, and leaves the table and the locks as good as it found them.
    pub run_positions-Goes :
        (t : StateTable K V D) (it : TableIterator) (positions : List ℕ)
        → WellFormed t
        → Balanced c t m
        → Closed l t
        → AllValid t it positions
        → Returns (run_positions l t it positions) (Goes t)
    unfolding run_positions is_in_use
    run_positions-Goes t it [] wf balanced closed valid = ((l, t), refl, Goes-here wf balanced)
    run_positions-Goes t it (pos ∷ rest) wf balanced closed (valid, others) =
        let there = at-get_or t.buckets pos blank (rw wf.fits.width (Valid-size t it pos valid)) in
        elim (Bool-cases (slot t pos).in_use) [
          | inl used ↦
              let (r, runs, goes) = run_behind-Goes wf balanced closed it pos valid used in
              let (r', runs', goes') =
                run_positions-Goes r.1 it rest goes.kept.wf goes.kept.balanced
                  (Closed-same goes.kept.same_rows goes.frames closed)
                  (AllValid-same it rest goes.frames others) in
              (
                r',
                rw (there, used, runs)
                    (ap (λ a. run_positions a r.1 it rest) goes.kept.locks ∙ runs'),
                Goes-trans goes goes',
              )
          | inr free ↦ rw (there, free) (run_positions-Goes t it rest wf balanced closed others)
        ]
