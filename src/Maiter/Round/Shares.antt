-- ===== src/Maiter/Round/Shares.antt =====
-- A round of all workers (src/kernel/kernel.h, `run_loop`) over the shares that the constructor of the
-- iterator makes.
use maiter_p.Base.{ℕ, ◌<◌, ◌≡◌, refl, ap, ◌∙◌, List, [], ◌∷◌, Returns, length}
use maiter_p.Kernel.{Key, Value, IterateKernel}
use maiter_p.Locks.{Vertexlock}
use maiter_p.Accumulation.{Accumulative}
use maiter_p.StateTable.Defs.{StateTable}
use maiter_p.StateTable.Invariant.{WellFormed}
use maiter_p.Iterators.Intervals.{Interval, set_intervals}
use maiter_p.Global.{TableIterator, whole, scheduled}
use maiter_p.Maiter.Balance.{Balanced}
use maiter_p.Maiter.Frame.{SameFrame, SameFrame-trans}
use maiter_p.Maiter.Round.{share_out, run_round, run_rounds}
use maiter_p.Maiter.Round.Kept.{
  Closed, Closed-same, Valid, Valid-same, AllValid, Goes, Goes-here, Goes-trans, run_positions-Goes,
}
use maiter_p.Maiter.Round.Filled.{AllShares, AllBelow, thread_positions-AllBelow, AllListed}

module _ {ℓ} {K V D : Type ℓ} ⦃key : Key K⦄ ⦃value : Value V⦄ ⦃kernel : IterateKernel K V D⦄ where
  -- How many positions the iterator shares out.
  abbrev pub positions_of : StateTable K V D → TableIterator → ℕ
  positions_of t whole = length t.buckets
  positions_of t (scheduled s) = length s.scheduled_pos

  -- Behind each of its positions is a bucket; that of a scheduled position is in use.
  abbrev pub Sane : StateTable K V D → TableIterator → Type 0
  Sane t it = (pos : ℕ) → pos < positions_of t it → Valid t it pos

  pub share_out-eq :
      (t : StateTable K V D) (it : TableIterator) (n : ℕ) (xs : List Interval)
      → share_out t it n xs ≡ set_intervals (positions_of t it) n xs
  unfolding share_out
  share_out-eq t whole n xs = refl
  share_out-eq t (scheduled s) n xs = refl

  AllValid-below :
      (t t' : StateTable K V D) (it : TableIterator) (ps : List ℕ)
      → Sane t it
      → AllBelow (positions_of t it) ps
      → SameFrame t t'
      → AllValid t' it ps
  AllValid-below t t' it [] sane all frames = tt
  AllValid-below t t' it (p ∷ rest) sane (below, others) frames =
      (Valid-same it p frames (sane p below), AllValid-below t t' it rest sane others frames)

  module _ (laws : Accumulative kernel) (c m : K → V) (l : Vertexlock) where
    pub run_rounds-Goes :
        (t₀ t : StateTable K V D) (it : TableIterator) (ys : List Interval) (ids : List ℕ)
        → Sane t₀ it
        → SameFrame t₀ t
        → AllShares (positions_of t₀ it) ys
        → AllListed ys ids
        → WellFormed t
        → Balanced c t m
        → Closed l t
        → Returns (run_rounds l t it ys ids) (Goes laws c m l t)
    unfolding run_rounds run_round
    run_rounds-Goes t₀ t it ys [] sane frames shares all wf balanced closed =
        ((l, t), refl, Goes-here laws c m l wf balanced)
    run_rounds-Goes t₀ t it ys (id ∷ rest) sane frames shares (there, all) wf balanced closed =
        let (ps, found, below) =
          thread_positions-AllBelow (positions_of t₀ it) id ys shares there in
        let (r, runs, goes) =
          run_positions-Goes laws c m l t it ps wf balanced closed
            (AllValid-below t₀ t it ps sane below frames) in
        let (r', runs', goes') =
          run_rounds-Goes t₀ r.1 it ys rest sane (SameFrame-trans frames goes.frames) shares all
            goes.kept.wf goes.kept.balanced (Closed-same goes.kept.same_rows goes.frames closed) in
        (
          r',
          rw (found, runs) (ap (λ a. run_rounds a r.1 it ys rest) goes.kept.locks ∙ runs'),
          Goes-trans laws c m l goes goes',
        )
