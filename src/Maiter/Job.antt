-- ===== src/Maiter/Job.antt =====
-- `RunMaiterKernel::runMaiter` of src/kernel/kernel.h: the three phases one after the other.
use maiter_p.Base.{ℕ, ◌≡◌, List, [], ◌∷◌, Run, ok, ◌>>=◌, length, get_or, replicate}
use maiter_p.Kernel.{Key, Value, IterateKernel}
use maiter_p.Locks.{Vertexlock, init_mutex, destroy_mutex}
use maiter_p.StateTable.Defs.{StateTable}
use maiter_p.Iterators.Intervals.{Interval}
use maiter_p.Iterators.Pass.{Progress, dump}
use maiter_p.Global.{TableIterator}
use maiter_p.Maiter.Load.{init_table}
use maiter_p.Maiter.Round.{share_out, run_rounds}
use maiter_p.Maiter.Threads.{System, Reaches}
pub mod Fixpoint
pub mod Ends
pub mod Lines

module _ {ℓ} {K V D : Type ℓ} where
  -- The second phase as the workers find it, each with an output buffer of its own.
  abbrev pub loaded : StateTable K V D → ℕ → System K V D
  loaded t num_threads = record { table = t; buffers = replicate num_threads [] }

module _ {ℓ} {K V D : Type ℓ} ⦃key : Key K⦄ ⦃value : Value V⦄ ⦃kernel : IterateKernel K V D⦄ where
  -- The second phase with the workers one after the other in each round, over the iterators that the
  -- schedule thread obtains. `thread_interval` keeps the threads.
  unfoldable pub run_phase :
      Vertexlock
      → StateTable K V D
      → List Interval
      → List ℕ
      → List TableIterator
      → Run (Vertexlock × StateTable K V D)
  unfolding share_out run_rounds
  run_phase l t intervals ids [] = ok (l, t)
  run_phase l t intervals ids (it ∷ its) = do
    shared ← share_out t it (length intervals) intervals
    (l₁, t₁) ← run_rounds l t it shared ids
    run_phase l₁ t₁ shared ids its

module _ {ℓ} {K V D R : Type ℓ} ⦃key : Key K⦄ ⦃value : Value V⦄ (kernel : IterateKernel K V D)
    (progress : Progress V R) where
  -- The whole job, with the workers in any interleaving: the lines written, and the table behind them.
  -- When the second phase is over, the workers wait and have cleared their buffers.
  pub data RunMaiter (num_threads num_nodes : ℕ) (file : List (List ℕ)) (lines : List (K × V))
      (last : StateTable K V D) : Type ℓ where
    phases :
        (first : StateTable K V D) (line : ℕ) (s : System K V D) (sums : R × R)
        → init_table ⦃kernel = kernel⦄ num_threads num_nodes file ≡ ok (first, line)
        → Reaches ⦃kernel = kernel⦄ (loaded first num_threads) s
        → ((w : ℕ) → get_or s.buffers w [] ≡ [])
        → s.table ≡ last
        → dump ⦃progress = progress⦄ last ≡ ok (lines, sums.0, sums.1)
        → RunMaiter num_threads num_nodes file lines last

  -- `runMaiter` with the workers in turn. `run` of the second phase makes a mutex for each line, and
  -- destroys them.
  unfoldable pub run_maiter :
      ℕ
      → ℕ
      → List (List ℕ)
      → List Interval
      → List ℕ
      → List TableIterator
      → Run (List (K × V) × R × R)
  unfolding init_table init_mutex run_phase destroy_mutex
  run_maiter num_threads num_nodes file intervals ids its = do
    (t, line) ← init_table ⦃kernel = kernel⦄ num_threads num_nodes file
    (l, t') ← run_phase ⦃kernel = kernel⦄ (init_mutex line) t intervals ids its
    gone ← destroy_mutex l
    dump ⦃progress = progress⦄ t'
