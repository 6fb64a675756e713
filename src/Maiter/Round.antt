-- ===== src/Maiter/Round.antt =====
-- One round of a worker: the body of `run_loop` in src/kernel/kernel.h, with the accessors of `Iterator`
-- and `ScheduledIterator` of src/kernel/statetable.h that take a position.
use maiter_p.Base.{ℕ, Bool, true, false, List, [], ◌∷◌, Run, ok, ◌>>=◌, length}
use maiter_p.Kernel.{Key, Value, IterateKernel}
use maiter_p.Locks.{Vertexlock}
use maiter_p.StateTable.Defs.{StateTable, Bucket, at}
use maiter_p.Iterators.Schedule.{Schedule}
use maiter_p.Iterators.Intervals.{Interval, set_intervals, thread_positions}
use maiter_p.Global.{TableIterator, whole, scheduled}
use maiter_p.Maiter.Iterate.{run_iter}
pub mod Kept
pub mod Shares
pub mod Filled
pub mod Few

-- The bucket behind a position, into which `key(pos)` and the references `value1(pos)`, `value2(pos)` and
-- `value3(pos)` point.
unfoldable pub scheduled_bucket : Schedule → ℕ → Run ℕ
unfolding at
scheduled_bucket s pos = at s.scheduled_pos pos

unfoldable pub bucket_behind : TableIterator → ℕ → Run ℕ
unfolding scheduled_bucket
bucket_behind whole pos = ok pos
bucket_behind (scheduled s) pos = scheduled_bucket s pos

module _ {ℓ} {K V D : Type ℓ} where
  -- `is_in_use` of both: the bucket at the position itself.
  unfoldable pub is_in_use : StateTable K V D → ℕ → Run Bool
  unfolding at
  is_in_use t pos = do u ← at t.buckets pos; ok u.in_use

  -- The end of the constructors: the positions are shared out among the threads.
  unfoldable pub share_out :
      StateTable K V D → TableIterator → ℕ → List Interval → Run (List Interval)
  unfolding set_intervals
  share_out t whole num_threads intervals = set_intervals (length t.buckets) num_threads intervals
  share_out t (scheduled s) num_threads intervals =
      set_intervals (length s.scheduled_pos) num_threads intervals

module _ {ℓ} {K V D : Type ℓ} ⦃key : Key K⦄ ⦃value : Value V⦄ ⦃kernel : IterateKernel K V D⦄ where
  unfoldable pub run_behind :
      Vertexlock → StateTable K V D → TableIterator → ℕ → Run (Vertexlock × StateTable K V D)
  unfolding bucket_behind
  run_behind l t it pos = do b ← bucket_behind it pos; run_iter l t b

  -- The loop over the positions.
  unfoldable pub run_positions :
      Vertexlock → StateTable K V D → TableIterator → List ℕ → Run (Vertexlock × StateTable K V D)
  unfolding is_in_use run_behind
  run_positions l t it [] = ok (l, t)
  run_positions l t it (pos ∷ rest) = do
    used ← is_in_use t pos
    (l₁, t₁) ← elim used [ true ↦ run_behind l t it pos | false ↦ ok (l, t) ]
    run_positions l₁ t₁ it rest

  -- From `thread_begin` to `thread_end`.
  unfoldable pub run_round :
      Vertexlock
      → StateTable K V D
      → TableIterator
      → List Interval
      → ℕ
      → Run (Vertexlock × StateTable K V D)
  unfolding run_positions
  run_round l t it intervals thread_id = do
    positions ← thread_positions intervals thread_id
    run_positions l t it positions

  -- The workers one after the other.
  unfoldable pub run_rounds :
      Vertexlock
      → StateTable K V D
      → TableIterator
      → List Interval
      → List ℕ
      → Run (Vertexlock × StateTable K V D)
  unfolding run_round
  run_rounds l t it intervals [] = ok (l, t)
  run_rounds l t it intervals (thread_id ∷ rest) = do
    (l₁, t₁) ← run_round l t it intervals thread_id
    run_rounds l₁ t₁ it intervals rest
