-- ===== src/Maiter/Settings.antt =====
-- `MaiterKernel` of src/kernel/kernel.h, and the numeric options of src/util/cmdopts.h. `double` is a type
-- with what `atof` reads. What is left uninitialized keeps its value.
use maiter_p.Base.{
  Run, fault, assertion, ℕ, ◌-◌, ◌%◌, ◌^◌, ◌≡◌, ap, ◌∙◌, refl, true, none, some, List, [], ◌∷◌,
  ◌++◌, ok, ◌>>=◌, ltb, if◌then◌else◌,
}
use maiter_p.Base.Int.{ℤ, pos, negsuc}
use maiter_p.Examples.Pagerank.{atoi}
use maiter_p.Util.StringPiece.{is_delim}
use maiter_p.Util.Splitting.{no_delim}
use maiter_p.Util.Config.{
  Conf, find_option, load_lines, loadconfig, get_config_option_string_or, trim, is_comment, same,
  trim_left, trim_right, find_first_not_of, find_last_not_of, last_position, moved, erase_before,
  erase_behind,
}
use maiter_p.Util.Options.{load_line-sets, load_lines-append, is_side}

-- The conversion of a 64-bit number to `uint64_t`, and of one to `int64_t`.
unfoldable pub to_uint64 : ℤ → ℕ
to_uint64 (pos n) = n % 2 ^ 64
to_uint64 (negsuc n) = 2 ^ 64 - 1 - n % 2 ^ 64

unfoldable pub to_int64 : ℕ → ℤ
to_int64 u = if ltb u (2 ^ 63) then pos u else negsuc (2 ^ 64 - 1 - u)

unfoldable pub get_config_option_int : Conf → List ℕ → ℤ → ℤ
unfolding atoi
get_config_option_int conf name default_value = elim (find_option name conf) [
  | none ↦ default_value
  | some value ↦ atoi value
]

-- The overload without a default.
unfoldable pub get_config_option_required : Conf → List ℕ → Run ℤ
unfolding atoi
get_config_option_required conf name = elim (find_option name conf) [
  | none ↦ fault assertion
  | some value ↦ ok (atoi value)
]

unfoldable pub get_config_option_long : Conf → List ℕ → ℕ → ℕ
unfolding atoi to_uint64
get_config_option_long conf name default_value = elim (find_option name conf) [
  | none ↦ default_value
  | some value ↦ to_uint64 (atoi value)
]

-- The names of the options.
abbrev pub threads : List ℕ
threads = 84 ∷ 72 ∷ 82 ∷ 69 ∷ 65 ∷ 68 ∷ 83 ∷ []

abbrev pub nodes : List ℕ
nodes = 78 ∷ 79 ∷ 68 ∷ 69 ∷ 83 ∷ []

abbrev pub portion : List ℕ
portion = 80 ∷ 79 ∷ 82 ∷ 84 ∷ 73 ∷ 79 ∷ 78 ∷ []

abbrev pub input_option : List ℕ
input_option = 73 ∷ 78 ∷ 80 ∷ 85 ∷ 84 ∷ []

abbrev pub result_option : List ℕ
result_option = 82 ∷ 69 ∷ 83 ∷ 85 ∷ 76 ∷ 84 ∷ []

abbrev pub interval_option : List ℕ
interval_option =
    84 ∷ 69 ∷ 82 ∷ 77 ∷ 67 ∷ 72 ∷ 69 ∷ 67 ∷ 75 ∷ 73 ∷ 78 ∷ 84 ∷ 69 ∷ 82 ∷ 86 ∷ 65 ∷ 76 ∷ []

abbrev pub threshold_option : List ℕ
threshold_option = 84 ∷ 69 ∷ 82 ∷ 77 ∷ 84 ∷ 72 ∷ 82 ∷ 69 ∷ 83 ∷ 72 ∷ []

-- `input/pagerank`
abbrev pub default_path : List ℕ
default_path = 105 ∷ 110 ∷ 112 ∷ 117 ∷ 116 ∷ 47 ∷ 112 ∷ 97 ∷ 103 ∷ 101 ∷ 114 ∷ 97 ∷ 110 ∷ 107 ∷ []

-- `result`
abbrev pub default_output : List ℕ
default_output = 114 ∷ 101 ∷ 115 ∷ 117 ∷ 108 ∷ 116 ∷ []

-- The fields of `MaiterKernel` that are numbers and names, and the two globals that it sets.
pub record Settings {ℓ} (Real : Type ℓ) : Type ℓ where
  pub num_threads : ℤ
  pub num_nodes : ℤ
  pub schedule_portion : Real
  pub input : List ℕ
  pub output : List ℕ
  pub line : ℕ
  pub termcheck_interval : Real
  pub termcheck_threshold : Real

module _ {ℓ} {Real : Type ℓ} (zero_r one_r : Real) (atof : List ℕ → Real) where
  unfoldable pub get_config_option_double : Conf → List ℕ → Real → Real
  get_config_option_double conf name default_value = elim (find_option name conf) [
    | none ↦ default_value
    | some value ↦ atof value
  ]

  -- `Reset`
  unfoldable pub reset : Settings Real → Settings Real
  reset s = record s {
    num_nodes = pos 0;
    schedule_portion = one_r;
    output = default_output;
    line = 0;
  }

  -- The constructor that the programs use.
  unfoldable pub configure : Conf → Settings Real → Settings Real
  unfolding reset get_config_option_int get_config_option_long get_config_option_double
  configure conf s = record (reset s) {
    num_threads = get_config_option_int conf threads (pos 0);
    num_nodes = to_int64 (get_config_option_long conf nodes 0);
    schedule_portion = get_config_option_double conf portion zero_r;
    input = get_config_option_string_or conf input_option default_path;
    output = get_config_option_string_or conf result_option default_path;
    termcheck_interval = get_config_option_double conf interval_option one_r;
    termcheck_threshold = get_config_option_double conf threshold_option zero_r;
  }

  -- Of a file whose last line sets THREADS to a value that is not empty and without an equals sign, the
  -- number of threads is what atoi reads of the trimmed value, whatever the lines before.
  pub configure-threads :
      (lines : List (List ℕ)) (value : List ℕ) (s : Settings Real)
      → is_side value ≡ true
      → (loadconfig (some (lines ++ ((threads ++ 61 ∷ value) ++ 10 ∷ []) ∷ [])) >>= λ conf.
          ok ((configure conf s).num_threads))
        ≡ ok (atoi (trim value))
  unfolding configure get_config_option_int loadconfig is_comment is_side no_delim is_delim same
      trim trim_left trim_right find_first_not_of find_last_not_of last_position moved erase_before
      erase_behind
  configure-threads lines value s h =
      ap (λ o. ok (elim o as (λ x. ℤ) [ none ↦ pos 0 | some v ↦ atoi v ]))
        (ap (find_option threads) (load_lines-append [] lines ((threads ++ 61 ∷ value) ++ 10 ∷ []))
          ∙ load_line-sets (load_lines [] lines) threads value threads refl refl h)
