-- ===== src/Samples/Paths.antt =====
-- The shortest-path program on the lines `1<tab>0,3 ` and `0<tab>`, from the source 1.
use maiter_p.Base.{
  true, ℕ, zero, suc, ◌-◌, ◌≡◌, refl, ◌∙◌, false, none, some, Option, List, [], ◌∷◌, Run, ok, fault,
  bad_cast, arith, get_or,
}
use maiter_p.Kernel.{IterateKernel}
use maiter_p.StateTable.Defs.{StateTable, Bucket, at, modify, bucket_for_key, bucket_idx}
use maiter_p.StateTable.Access.{
  accumulate_f1, accumulate_f2, update_f1, bucket_or_fatal, add_to_v1, add_to_v2,
}
use maiter_p.StateTable.Put.{create}
use maiter_p.StateTable.Probe.{probe, walk}
use maiter_p.StateTable.Invariant.{WellFormed, IsProbed}
use maiter_p.StateTable.Latest.{latest, latest-view}
use maiter_p.Iterators.Pass.{Progress, dump, entire_pass, advance, next}
use maiter_p.Maiter.Iterate.{process_row, spread_vertex}
use maiter_p.Maiter.Load.{create_table, read_line, read_lines, read_file, init_table}
use maiter_p.Maiter.Loaded.{AllRead, all_read, line_read}
use maiter_p.Maiter.Threads.{System, take, deliver, Reaches, start, more}
use maiter_p.Maiter.Job.{loaded, RunMaiter, phases}
use maiter_p.Maiter.Job.Fixpoint.{AllLines, AtRest}
use maiter_p.Examples.Doubles.{min_d}
use maiter_p.Examples.Shortestpath.{Link, Casts, shortestpath}
use maiter_p.Examples.Distances.{IsDistance, shortestpath-IsDistance}
use maiter_p.Samples.{number_key}
use maiter_p.Samples.Programs.{
  distance_value, distance_double, distance_ordered, distance_absorbs, further,
}

abbrev digit_key : List ℕ → Run ℕ
digit_key (c ∷ []) = ok (c - 48)
digit_key _ = fault bad_cast

abbrev digit_value : List ℕ → Run (Option ℕ)
digit_value (c ∷ []) = ok (some (c - 48))
digit_value _ = fault bad_cast

abbrev digit_casts : Casts ℕ (Option ℕ)
digit_casts = record { cast_key = digit_key; cast_value = digit_value }

instance abbrev paths : IterateKernel ℕ (Option ℕ) (List (Link ℕ (Option ℕ)))
paths = shortestpath digit_casts 1

abbrev file : List (List ℕ)
file = (49 ∷ 9 ∷ 48 ∷ 44 ∷ 51 ∷ 32 ∷ []) ∷ (48 ∷ 9 ∷ []) ∷ []

file_read : AllRead paths file
unfolding shortestpath
file_read =
    line_read (1, record { end = 0; weight = some 3 } ∷ []) refl (line_read (0, []) refl all_read)

abbrev Paths : Type 0
Paths = StateTable ℕ (Option ℕ) (List (Link ℕ (Option ℕ)))

abbrev vertex :
    ℕ
    → Option ℕ
    → Option ℕ
    → Option ℕ
    → List (Link ℕ (Option ℕ))
    → Bucket ℕ (Option ℕ) (List (Link ℕ (Option ℕ)))
vertex k d v p x = record { k = k; v1 = d; v2 = v; v3 = x; priority = p; in_use = true }

-- The vertex 0, and the vertex 1 with its link.
abbrev graph : Option ℕ → Option ℕ → Option ℕ → Option ℕ → Option ℕ → Option ℕ → ℕ → Paths
graph d₀ v₀ p₀ d₁ v₁ p₁ n = record {
  buckets =
      vertex 0 d₀ v₀ p₀ [] ∷ vertex 1 d₁ v₁ p₁ (record { end = 0; weight = some 3 } ∷ []) ∷ [];
  entries = 2;
  size = 2;
  total_updates = n;
  terminated = false;
}

abbrev first : Paths
first = graph none none none (some 0) none none 0

-- The distances 3 and 0.
abbrev last : Paths
last = graph none (some 3) (some 0) none (some 0) (some 0) 2

loads : init_table 2 2 file ≡ ok (first, 2)
unfolding init_table create_table create read_file read_lines read_line shortestpath
loads = refl

abbrev state : Paths → List (ℕ × Option ℕ) → System ℕ (Option ℕ) (List (Link ℕ (Option ℕ)))
state t out = record { table = t; buffers = out ∷ [] ∷ [] }

run : Reaches (loaded first 2) (state last [])
unfolding spread_vertex process_row at modify accumulate_f1 accumulate_f2 bucket_or_fatal
    bucket_for_key bucket_idx add_to_v1 add_to_v2 update_f1 get_or shortestpath min_d
run =
    more
      (more
        (more start (
          take {t = graph none none none none (some 0) (some 0) 1} {out = (0, some 3) ∷ []} 0 1
            (omega arith) refl (omega arith) refl refl))
        (deliver {t = graph (some 3) none none none (some 0) (some 0) 1} {out = []} 0 0 (some 3)
          refl refl))
      (take {t = last} {out = []} 0 0 (omega arith) refl (omega arith) refl refl)

last-IsProbed : IsProbed last
unfolding probe walk get_or
last-IsProbed zero h used = refl
last-IsProbed (suc zero) h used = refl
last-IsProbed (suc (suc i)) h used = absurd (omega arith)

last-WellFormed : WellFormed last
last-WellFormed = record {
  fits = record { width = refl; nonempty = omega arith; small = omega arith };
  probed = last-IsProbed;
}

last-AtRest : AtRest last
unfolding latest shortestpath
last-AtRest j d v x present =
    let e : latest j last.buckets none ≡ some (d, v, x) = latest-view last-WellFormed j ∙ present in
    ground (arith, e)

no_mail : (w : ℕ) → get_or (state last []).buffers w [] ≡ []
unfolding get_or
no_mail zero = refl
no_mail (suc zero) = refl
no_mail (suc (suc w)) = refl

instance abbrev paths_progress : Progress (Option ℕ) (Option ℕ)
paths_progress = record {
  zero_r = some 0;
  lowest = some 0;
  plus = further;
  of_value = λ a. a;
  distance = λ a b. a;
  at_most = λ a b. false;
}

dumps : dump {R = Option ℕ} last ≡ ok ((0, some 3) ∷ (1, some 0) ∷ [], some 0, some 3)
unfolding dump entire_pass advance next at
dumps = refl

job : RunMaiter paths paths_progress 2 2 file ((0, some 3) ∷ (1, some 0) ∷ []) last
job = phases first 2 (state last []) (some 0, some 3) loads run no_mail refl dumps

shortestpath-IsDistance_example : AllLines (IsDistance 1 last) ((0, some 3) ∷ (1, some 0) ∷ [])
shortestpath-IsDistance_example =
    shortestpath-IsDistance digit_casts 1 paths_progress distance_ordered distance_absorbs file_read
      (omega arith) (omega arith) (omega arith) (omega arith) job last-AtRest
