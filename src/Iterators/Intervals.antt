-- ===== src/Iterators/Intervals.antt =====
-- The interval of positions of each worker thread: the end of the constructors of `Iterator` and
-- `ScheduledIterator` of src/kernel/statetable.h, `thread_begin` and `thread_end`, and their use in the
-- `run_loop` of src/kernel/kernel.h.
use maiter_p.Base.{
  ℕ, zero, suc, ◌+◌, ◌*◌, ◌/◌, ◌-◌, List, [], ◌∷◌, Run, ok, fault, out_of_range, division_by_zero,
  log_fatal, ◌>>=◌, ◌==◌, if◌then◌else◌,
}
use maiter_p.Base.Int.{ℤ, pos, negsuc}

-- An element of `thread_interval`. The last position is -1 where the interval at the start is empty.
pub record Interval : Type 0 where
  pub thread_id : ℕ
  pub interval_first : ℤ
  pub interval_last : ℤ

-- `n - 1`, in `int64_t`
unfoldable pub pred_int : ℕ → ℤ
pred_int zero = negsuc 0
pred_int (suc n) = pos n

-- The loop over `thread_interval` from index `i`, and the last interval after it.
unfoldable pub fill_intervals : ℕ → ℕ → ℕ → List Interval → Run (List Interval)
unfolding pred_int
fill_intervals count normal i [] = fault out_of_range
fill_intervals count normal i (x ∷ []) =
    ok (record x { interval_first = pos (normal * i); interval_last = pred_int count } ∷ [])
fill_intervals count normal i (x ∷ y ∷ rest) = do
  filled ← fill_intervals count normal (i + 1) (y ∷ rest)
  ok (
      record x { interval_first = pos (normal * i); interval_last = pred_int (normal * (i + 1)) }
      ∷ filled)

-- `count` is the number of positions: of buckets, or of scheduled buckets.
unfoldable pub set_intervals : ℕ → ℕ → List Interval → Run (List Interval)
set_intervals count zero intervals = fault division_by_zero
set_intervals count (suc n) intervals = fill_intervals count (count / suc n) 0 intervals

unfoldable pub thread_begin : List Interval → ℕ → ℤ
thread_begin [] thread_id = negsuc 0
thread_begin (x ∷ rest) thread_id =
    if x.thread_id == thread_id then x.interval_first else thread_begin rest thread_id

unfoldable pub thread_end : List Interval → ℕ → ℤ
thread_end [] thread_id = negsuc 0
thread_end (x ∷ rest) thread_id =
    if x.thread_id == thread_id then x.interval_last else thread_end rest thread_id

-- The test for -1 in `run_loop`: the LOG_FATAL line throws.
unfoldable pub found_or_fatal : ℤ → Run ℕ
found_or_fatal (pos n) = ok n
found_or_fatal (negsuc n) = fault log_fatal

-- The loop `for (pos = begin; pos <= end; pos++)`, with the number of rounds left.
unfoldable pub positions_from : ℕ → ℕ → List ℕ
positions_from zero p = []
positions_from (suc left) p = p ∷ positions_from left (suc p)

-- The positions that a worker visits in one round of `run_loop`.
unfoldable pub thread_positions : List Interval → ℕ → Run (List ℕ)
unfolding thread_begin thread_end found_or_fatal positions_from
thread_positions intervals thread_id = do
  begin ← found_or_fatal (thread_begin intervals thread_id)
  end ← found_or_fatal (thread_end intervals thread_id)
  ok (positions_from (suc end - begin) begin)
