-- ===== src/Samples/Rounds.antt =====
-- A round over a schedule that the test for buckets in use leaves out.
use maiter_p.Base.{ℕ, ◌≡◌, refl, false, List, [], ◌∷◌, ◌++◌, ok, fault, log_fatal, Returns, arith}
use maiter_p.StateTable.Defs.{StateTable, at}
use maiter_p.Global.{scheduled, whole}
use maiter_p.Maiter.Round.{run_positions, is_in_use, run_round, share_out}
use maiter_p.Maiter.Round.Filled.{listed}
use maiter_p.Maiter.Round.Few.{run_round-few}
use maiter_p.Iterators.Intervals.{Interval}
use maiter_p.Samples.Jobs.{worker}
use maiter_p.Samples.{number_key, number_value, number_kernel, cell, table}
use maiter_p.Samples.Runs.{locks}

-- The bucket 0 is free, and the schedule holds the bucket 1 alone.
abbrev shifted : StateTable ℕ ℕ (List ℕ)
shifted = table 2 1 (record (cell 0 0 0 []) { in_use = false } ∷ cell 1 5 0 [] ∷ [])

-- The scheduled bucket is in use, and the worker leaves it out: `is_in_use` looks at the bucket 0.
left_out :
    run_positions locks shifted
      (scheduled (record { scheduled_pos = 1 ∷ []; b_no_change = false }))
      (0 ∷ [])
    ≡ ok (locks, shifted)
unfolding run_positions is_in_use at
left_out = refl

-- Two buckets for three threads.
abbrev three : List Interval
three = worker 7 ∷ worker 8 ∷ []

run_round-few_example :
    Returns
      (share_out shifted whole 3 (three ++ worker 9 ∷ []))
      λ ys. run_round locks shifted whole ys 8 ≡ fault log_fatal
unfolding listed
run_round-few_example = run_round-few locks shifted whole three (worker 9) 8 (omega arith) refl
