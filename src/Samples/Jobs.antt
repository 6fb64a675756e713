-- ===== src/Samples/Jobs.antt =====
-- A job on two vertices, of which one has a link to the other, and the theorems on it.
use maiter_p.Base.{
  ℕ, zero, suc, ◌≡◌, refl, sym, ap, ◌∙◌, false, some, none, List, [], ◌∷◌, ok, Returns, arith,
  get_or, ok-injective,
}
use mathlib.Core.Path.{subst}
use maiter_p.Base.Int.{pos}
use maiter_p.Locks.{init_mutex}
use maiter_p.StateTable.Defs.{StateTable, at, modify, bucket_for_key, bucket_idx}
use maiter_p.StateTable.Access.{
  accumulate_f1, accumulate_f2, update_f1, bucket_or_fatal, add_to_v1, add_to_v2,
}
use maiter_p.StateTable.Put.{create, blank}
use maiter_p.StateTable.Probe.{probe, walk}
use maiter_p.StateTable.Invariant.{WellFormed, IsProbed, view}
use maiter_p.StateTable.Latest.{latest, latest-view}
use maiter_p.Iterators.Intervals.{Interval}
use maiter_p.Iterators.Pass.{dump, entire_pass, advance, next}
use maiter_p.Iterators.Results.{results}
use maiter_p.Global.{whole}
use maiter_p.Maiter.Iterate.{process_row, spread_vertex}
use maiter_p.Maiter.Balance.{Balanced}
use maiter_p.Maiter.Load.{create_table, read_line, read_lines, read_file, init_table}
use maiter_p.Maiter.Loaded.{AllRead, all_read, line_read}
use maiter_p.Maiter.Threads.{System, take, deliver, Reaches, start, more}
use maiter_p.Maiter.Turn.{no_message, message}
use maiter_p.Maiter.Job.{loaded, RunMaiter, phases, run_maiter}
use maiter_p.Maiter.Job.Fixpoint.{AllLines, IsFixpoint, AtRest, RunMaiter-IsFixpoint}
use maiter_p.Maiter.Job.Ends.{AllSane, run_maiter-Returns}
use maiter_p.Maiter.Round.Kept.{Closed}
use maiter_p.Maiter.Round.Filled.{listed}
use maiter_p.Samples.Parts.{number_progress}
use maiter_p.Samples.{number_key, number_value, number_kernel, cell, number_laws}

-- The vertex 1 has a link to the vertex 0, and a delta of 1.
abbrev file : List (List ℕ)
file = (1 ∷ 0 ∷ []) ∷ (0 ∷ []) ∷ []

file_read : AllRead number_kernel file
file_read = line_read (1, 0 ∷ []) refl (line_read (0, []) refl all_read)

-- The vertex 0 and the vertex 1.
abbrev graph : ℕ → ℕ → ℕ → ℕ → ℕ → ℕ → ℕ → StateTable ℕ ℕ (List ℕ)
graph d₀ v₀ p₀ d₁ v₁ p₁ n = record {
  buckets =
      record (cell 0 d₀ v₀ []) { priority = p₀ }
      ∷ record (cell 1 d₁ v₁ (0 ∷ [])) { priority = p₁ }
      ∷ [];
  entries = 2;
  size = 2;
  total_updates = n;
  terminated = false;
}

abbrev first : StateTable ℕ ℕ (List ℕ)
first = graph 0 0 0 1 0 1 0

abbrev last : StateTable ℕ ℕ (List ℕ)
last = graph 0 1 0 0 1 0 2

loads : init_table 2 2 file ≡ ok (first, 2)
unfolding init_table create_table create read_file read_lines read_line
loads = refl

abbrev state : StateTable ℕ ℕ (List ℕ) → List (ℕ × ℕ) → System ℕ ℕ (List ℕ)
state t out = record { table = t; buffers = out ∷ [] ∷ [] }

run : Reaches (loaded first 2) (state last [])
unfolding spread_vertex process_row at modify accumulate_f1 accumulate_f2 bucket_or_fatal
    bucket_for_key bucket_idx add_to_v1 add_to_v2 update_f1 get_or
run =
    more
      (more
        (more start (
          take {t = graph 0 0 0 0 1 0 1} {out = (0, 1) ∷ []} 0 1 (omega arith) refl (omega arith)
            refl refl))
        (deliver {t = graph 1 0 1 0 1 0 1} {out = []} 0 0 1 refl refl))
      (take {t = last} {out = []} 0 0 (omega arith) refl (omega arith) refl refl)

last-IsProbed : IsProbed last
unfolding probe walk get_or
last-IsProbed zero h used = refl
last-IsProbed (suc zero) h used = refl
last-IsProbed (suc (suc i)) h used = absurd (omega arith)

last-WellFormed : WellFormed last
last-WellFormed = record {
  fits = record { width = refl; nonempty = omega arith; small = omega arith };
  probed = last-IsProbed;
}

last-AtRest : AtRest last
unfolding latest
last-AtRest j d v x present =
    let e : latest j last.buckets none ≡ some (d, v, x) = latest-view last-WellFormed j ∙ present in
    ground (arith, e)

no_mail : (w : ℕ) → get_or (state last []).buffers w [] ≡ []
unfolding get_or
no_mail zero = refl
no_mail (suc zero) = refl
no_mail (suc (suc w)) = refl

dumps : dump {R = ℕ} last ≡ ok ((0, 1) ∷ (1, 1) ∷ [], 0, 2)
unfolding dump entire_pass advance next at
dumps = refl

job : RunMaiter number_kernel number_progress 2 2 file ((0, 1) ∷ (1, 1) ∷ []) last
job = phases first 2 (state last []) (0, 2) loads run no_mail refl dumps

RunMaiter-IsFixpoint_example : AllLines (IsFixpoint (λ (j : ℕ). j) last) ((0, 1) ∷ (1, 1) ∷ [])
RunMaiter-IsFixpoint_example =
    RunMaiter-IsFixpoint number_progress number_laws (λ j. j) (λ j x. refl) (λ j x. refl) file_read
      (omega arith) (omega arith) (omega arith) (omega arith) job last-AtRest

first-Closed : Closed (init_mutex 2) first
unfolding init_mutex get_or view probe walk blank
first-Closed zero = λ used. ((omega arith, refl), λ d v. no_message)
first-Closed (suc zero) =
    λ used. ((omega arith, refl), λ d v. message (omega arith, refl) refl no_message)
first-Closed (suc (suc b)) = λ used. absurd (cc used)

abbrev pub worker : ℕ → Interval
worker id = record { thread_id = id; interval_first = pos 0; interval_last = pos 0 }

ready :
    (t : StateTable ℕ ℕ (List ℕ))
    → init_table 2 2 file ≡ ok (t, 2)
    → Closed (init_mutex 2) t × AllSane t 2 (whole ∷ whole ∷ [])
ready t h =
    subst (λ u. Closed (init_mutex 2) u × AllSane u 2 (whole ∷ whole ∷ []))
      (ap (λ (y : StateTable ℕ ℕ (List ℕ) × ℕ). y.0) (ok-injective (sym loads ∙ h)))
      (first-Closed, (omega arith, λ p below. below, (omega arith, λ p below. below, tt)))

run_maiter-Returns_example :
    Returns
      (run_maiter number_kernel number_progress 2 2 file
        (worker 7 ∷ worker 8 ∷ [])
        (7 ∷ 8 ∷ [])
        (whole ∷ whole ∷ []))
      λ r.
        (t : StateTable ℕ ℕ (List ℕ)) × WellFormed t
        × Balanced (λ j. j) t (λ j. 0)
        × (t.size ≡ 2)
        × (r.0 ≡ results t.buckets)
unfolding listed
run_maiter-Returns_example =
    run_maiter-Returns number_progress number_laws (λ j. j) 2 2 file (worker 7 ∷ worker 8 ∷ [])
      (7 ∷ 8 ∷ []) (whole ∷ whole ∷ []) (λ j x. refl) (λ j x. refl) file_read (omega arith)
      (omega arith) (omega arith) (omega arith) (omega arith) (refl, (refl, tt)) ready
