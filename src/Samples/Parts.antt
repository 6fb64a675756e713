-- ===== src/Samples/Parts.antt =====
-- The theorems on the intervals, the passes, the check for termination and the first phase, applied.
use maiter_p.Base.{
  some, false, true, ℕ, ◌+◌, ◌-◌, ◌≡◌, refl, List, [], ◌∷◌, ok, Returns, replicate, arith, leb, ltb,
  if◌then◌else◌,
}
use maiter_p.Base.Int.{pos}
use maiter_p.Iterators.Intervals.{Interval, set_intervals}
use maiter_p.Iterators.Partition.{visitors, set_intervals-visitors}
use maiter_p.Iterators.Pass.{Progress, dump}
use maiter_p.Iterators.Termination.{
  new_diff, term_check, first_still, with_signal, no_table, wide, term_check-first_still,
}
use maiter_p.Maiter.Load.{init_table}
use maiter_p.Maiter.Loaded.{Initial, last_row, all_read, line_read, init_table-Initial}
use maiter_p.Global.{GlobalTable}
use maiter_p.StateTable.Put.{blank}
use maiter_p.Iterators.Schedule.{Schedule, push_where, schedule, sampled, sample_size}
use maiter_p.Iterators.Sorted.{StrictWeak}
use mathlib.Core.List.{Perm}
use maiter_p.StateTable.Put.{resize}
use maiter_p.StateTable.Invariant.{used, view}
use maiter_p.Iterators.SameLines.{dump-resize-perm}
use maiter_p.Iterators.Cut.{IsCut, schedule-IsCut}
use maiter_p.StateTable.Defs.{Bucket, at}
use maiter_p.Samples.{number_key, number_value, number_kernel, pair, pair-WellFormed, crowd, cell}

instance abbrev pub number_progress : Progress ℕ ℕ
number_progress = record {
  zero_r = 0;
  lowest = 0;
  plus = λ a b. a + b;
  of_value = λ a. a;
  distance = λ a b. (a - b) + (b - a);
  at_most = leb;
}

abbrev thread : ℕ → Interval
thread n = record { thread_id = n; interval_first = pos 0; interval_last = pos 0 }

abbrev three_threads : List Interval
three_threads = thread 7 ∷ thread 8 ∷ thread 9 ∷ []

set_intervals-visitors_example :
    Returns
      (set_intervals 8 3 three_threads)
      λ ys. (p : ℕ) → visitors ys p ≡ (if ltb p 8 then 1 else 0)
set_intervals-visitors_example = set_intervals-visitors 8 three_threads (omega arith)

term_check-first_still_example :
    term_check 1 (crowd 2 ∷ crowd 2 ∷ []) (new_diff number_progress)
    ≡ ok (with_signal (first_still {R = ℕ} 1 0 (crowd 2 ∷ crowd 2 ∷ [])))
unfolding new_diff
term_check-first_still_example =
    term_check-first_still 1 (crowd 2 ∷ crowd 2 ∷ []) (new_diff number_progress)
      (wide refl (wide refl no_table))

abbrev file : List (List ℕ)
file = (0 ∷ 5 ∷ []) ∷ (5 ∷ []) ∷ []

init_table-Initial_example :
    Returns
      (init_table {K = ℕ} {V = ℕ} {D = List ℕ} 2 3 file)
      λ r. Initial r.0 × (r.0.size ≡ 3) × (r.1 ≡ 2) × ((j : ℕ) → view r.0 j ≡ last_row file j)
init_table-Initial_example =
    init_table-Initial 2 3 file (line_read (0, 5 ∷ []) refl (line_read (5, []) refl all_read))
      (omega arith) (omega arith) (omega arith) (omega arith)

number_order : StrictWeak number_value
number_order = record {
  asym = λ a b h. ground arith;
  cotrans = λ a b c h h'. ground arith;
  ge_is = λ a b. ground arith;
}

abbrev sample : List (Bucket ℕ ℕ (List ℕ))
sample = replicate sample_size (cell 0 1 5 [])

schedule-IsCut_example : Returns (schedule (crowd 1001) false (replicate sample_size 0) 1) λ s.
    (s.b_no_change ≡ false)
    × ((threshold : ℕ) × IsCut (crowd 1001) sample 1 s.scheduled_pos threshold)
unfolding sampled at
schedule-IsCut_example =
    schedule-IsCut number_order (crowd 1001) false (replicate sample_size 0) 1 sample refl
      (omega arith) refl refl (omega arith)

dump-resize-perm_example :
    Returns
      (resize 1 pair 5)
      λ t'. Returns (dump {R = ℕ} pair) λ r. Returns (dump {R = ℕ} t') λ r'. Perm r'.0 r.0
unfolding used blank
dump-resize-perm_example =
    dump-resize-perm number_progress pair-WellFormed 0 5 (λ e. refl) (omega arith) (omega arith)
      (omega arith)

abbrev global : GlobalTable ℕ ℕ (List ℕ)
global = record { statetable = some pair; portion_below_one = true; binit = true }

abbrev all_of_pair : Schedule
all_of_pair = record { scheduled_pos = 0 ∷ 1 ∷ []; b_no_change = false }

pair-schedule : schedule pair false [] 0 ≡ ok all_of_pair
unfolding schedule push_where blank
pair-schedule = refl
