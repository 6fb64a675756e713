-- ===== src/Samples/Unset.antt =====
-- The adsorption program as its main function sets it up, and the main functions, at small inputs.
use maiter_p.Base.{
  false, ℕ, zero, suc, ◌-◌, ◌≡◌, refl, ◌∙◌, true, none, some, List, [], ◌∷◌, Run, ok, fault,
  bad_cast, arith, get_or, length,
}
use maiter_p.Kernel.{IterateKernel}
use maiter_p.StateTable.Defs.{StateTable, Bucket, at}
use maiter_p.StateTable.Put.{create}
use maiter_p.StateTable.Probe.{probe, walk}
use maiter_p.StateTable.Invariant.{WellFormed, IsProbed}
use maiter_p.StateTable.Latest.{latest, latest-view}
use maiter_p.Iterators.Pass.{dump, entire_pass, advance, next}
use maiter_p.Maiter.Load.{create_table, read_line, read_lines, read_file, init_table}
use maiter_p.Maiter.Loaded.{AllRead, all_read, line_read, last_row, line_row, first_some}
use maiter_p.Maiter.Job.Lines.{lines_of, counted, RunMaiter-lines_of}
use maiter_p.Maiter.Threads.{start}
use maiter_p.Maiter.Job.{loaded, RunMaiter, phases}
use maiter_p.Maiter.Job.Fixpoint.{AllLines, AtRest}
use maiter_p.Base.Int.{pos}
use maiter_p.Maiter.Settings.{Settings, configure, get_config_option_long}
use maiter_p.Util.Config.{find_option, same, loadconfig, load_lines}
use maiter_p.Examples.Shortestpath.{Link, Casts}
use maiter_p.Examples.Adsorption.{adsorption}
use maiter_p.Examples.Unset.{adsorption-unset}
use maiter_p.Examples.Mains.{katz_beta_option, adsorption_main, maiter_init}
use maiter_p.Samples.{number_key, number_value}
use maiter_p.Samples.Parts.{number_progress}
use maiter_p.Samples.Programs.{number_double, number-Exact}

abbrev digit : List ℕ → Run ℕ
digit (c ∷ []) = ok (c - 48)
digit _ = fault bad_cast

abbrev casts : Casts ℕ ℕ
casts = record { cast_key = digit; cast_value = digit }

instance abbrev program : IterateKernel ℕ ℕ (List (Link ℕ ℕ))
program = adsorption casts 0 0

-- `1<tab>0,3 ` and `0<tab>`.
abbrev file : List (List ℕ)
file = (49 ∷ 9 ∷ 48 ∷ 44 ∷ 51 ∷ 32 ∷ []) ∷ (48 ∷ 9 ∷ []) ∷ []

file_read : AllRead program file
unfolding adsorption
file_read =
    line_read (1, record { end = 0; weight = 3 } ∷ []) refl (line_read (0, []) refl all_read)

abbrev vertex : ℕ → List (Link ℕ ℕ) → Bucket ℕ ℕ (List (Link ℕ ℕ))
vertex k x = record { k = k; v1 = 0; v2 = 0; v3 = x; priority = 0; in_use = true }

abbrev first : StateTable ℕ ℕ (List (Link ℕ ℕ))
first = record {
  buckets = vertex 0 [] ∷ vertex 1 (record { end = 0; weight = 3 } ∷ []) ∷ [];
  entries = 2;
  size = 2;
  total_updates = 0;
  terminated = false;
}

loads : init_table 2 2 file ≡ ok (first, 2)
unfolding init_table create_table create read_file read_lines read_line adsorption
loads = refl

first-IsProbed : IsProbed first
unfolding probe walk get_or
first-IsProbed zero h used = refl
first-IsProbed (suc zero) h used = refl
first-IsProbed (suc (suc i)) h used = absurd (omega arith)

first-WellFormed : WellFormed first
first-WellFormed = record {
  fits = record { width = refl; nonempty = omega arith; small = omega arith };
  probed = first-IsProbed;
}

first-AtRest : AtRest first
unfolding latest adsorption
first-AtRest j d v x present =
    let e : latest j first.buckets none ≡ some (d, v, x) =
      latest-view first-WellFormed j ∙ present in
    ground (arith, e)

no_mail : (w : ℕ) → get_or (loaded first 2).buffers w [] ≡ []
unfolding get_or
no_mail zero = refl
no_mail (suc zero) = refl
no_mail (suc (suc w)) = refl

dumps : dump {R = ℕ} first ≡ ok ((0, 0) ∷ (1, 0) ∷ [], 0, 0)
unfolding dump entire_pass advance next at
dumps = refl

job : RunMaiter program number_progress 2 2 file ((0, 0) ∷ (1, 0) ∷ []) first
job = phases first 2 (loaded first 2) (0, 0) loads start no_mail refl dumps

abbrev memory : Settings ℕ
memory = record {
  num_threads = pos 0;
  num_nodes = pos 0;
  schedule_portion = 0;
  input = [];
  output = [];
  line = 0;
  termcheck_interval = 0;
  termcheck_threshold = 0;
}

-- With an empty configuration.
main_run :
    adsorption_main 0 1 (λ n. n) length memory (some [])
    ≡ ok (configure 0 1 length [] memory, record { adsorption_starts = 0; adsorption_damping = 0 })
unfolding adsorption_main maiter_init loadconfig load_lines
main_run = refl

RunMaiter-lines_of_example :
    lines_of {K = ℕ} {V = ℕ} 1 ((0, 0) ∷ (1, 0) ∷ [])
    ≡ counted (last_row {K = ℕ} {V = ℕ} {D = List (Link ℕ ℕ)} file 1)
unfolding adsorption
RunMaiter-lines_of_example =
    RunMaiter-lines_of (λ k d v x. refl) number_progress file_read (omega arith) (omega arith)
      (omega arith) (omega arith) job 1

-- The first key has a line, and 7 has none.
rows_asked :
    (counted (last_row {K = ℕ} {V = ℕ} {D = List (Link ℕ ℕ)} file 1) ≡ 1)
    × (counted (last_row {K = ℕ} {V = ℕ} {D = List (Link ℕ ℕ)} file 7) ≡ 0)
unfolding counted last_row line_row first_some adsorption
rows_asked = (refl, refl)

adsorption-unset_example :
    AllLines (λ (k v : ℕ). v ≡ 0) ((0, 0) ∷ (1, 0) ∷ [])
    × ((j : ℕ)
        → lines_of {K = ℕ} {V = ℕ} j ((0, 0) ∷ (1, 0) ∷ [])
          ≡ counted (last_row {K = ℕ} {V = ℕ} {D = List (Link ℕ ℕ)} file j))
adsorption-unset_example =
    adsorption-unset casts number-Exact number_progress 1 (λ n. n) length memory (some []) main_run
      file_read (omega arith) (omega arith) (omega arith) (omega arith) job first-AtRest

-- `katz_beta=0.2` is read as an integer, and is 0.
katz_beta_cut :
    get_config_option_long ((katz_beta_option, 48 ∷ 46 ∷ 50 ∷ []) ∷ []) katz_beta_option 7 ≡ 0
unfolding get_config_option_long find_option same
katz_beta_cut = refl
