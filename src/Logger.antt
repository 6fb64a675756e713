-- ===== src/Logger.antt =====
-- `file_logger` of src/util/logger.h: the state of the one logger that all threads share, and its
-- formats. Strings are lists of bytes; none holds a zero byte.
use maiter_p.Base.{
  ℕ, zero, suc, ◌+◌, ◌-◌, ◌*◌, ◌/◌, ◌%◌, Bool, true, false, ◌&&◌, Option, none, some, List, [], ◌∷◌,
  ◌++◌, Run, ok, fault, out_of_range, ◌>>=◌, ltb, leb, ◌==◌, if◌then◌else◌, length, take,
}
use maiter_p.StateTable.Defs.{at}
pub mod Output
pub mod Stream
pub mod Lines
pub mod Parts
pub mod Overlap

-- `LOG_DEBUG` to `LOG_FATAL`
abbrev pub level_debug : ℕ
level_debug = 0

abbrev pub level_info : ℕ
level_info = 1

abbrev pub level_warning : ℕ
level_warning = 2

abbrev pub level_error : ℕ
level_error = 3

abbrev pub level_fatal : ℕ
level_fatal = 4

-- `messagess`: the names of the levels, padded to ten bytes.
unfoldable pub messagess : List (List ℕ)
messagess =
    (68 ∷ 69 ∷ 66 ∷ 85 ∷ 71 ∷ 58 ∷ 32 ∷ 32 ∷ 32 ∷ 32 ∷ [])
    ∷ (73 ∷ 78 ∷ 70 ∷ 79 ∷ 58 ∷ 32 ∷ 32 ∷ 32 ∷ 32 ∷ 32 ∷ [])
    ∷ (87 ∷ 65 ∷ 82 ∷ 78 ∷ 73 ∷ 78 ∷ 71 ∷ 58 ∷ 32 ∷ 32 ∷ [])
    ∷ (69 ∷ 82 ∷ 82 ∷ 79 ∷ 82 ∷ 58 ∷ 32 ∷ 32 ∷ 32 ∷ 32 ∷ [])
    ∷ (70 ∷ 65 ∷ 84 ∷ 65 ∷ 76 ∷ 58 ∷ 32 ∷ 32 ∷ 32 ∷ 32 ∷ [])
    ∷ []

-- `streambuff_tls_entry`: one for each thread that has begun a line.
pub record StreambuffTlsEntry : Type 0 where
  pub streambuffer : List ℕ
  pub streamactive : Bool

-- `std::ofstream`, with what was written to its file. `good()` holds of a stream that was never opened;
-- the first write to it fails.
pub record Ofstream : Type 0 where
  pub is_open : Bool
  pub good : Bool
  pub written : List ℕ

-- `file_logger`, with what was written to the terminal. `entries` is the thread-specific pointer behind
-- `streambuffkey`; a negative level is not modelled.
pub record FileLogger : Type 0 where
  pub fout : Ofstream
  pub log_file : List ℕ
  pub streamloglevel : ℕ
  pub log_to_console : Bool
  pub log_level : ℕ
  pub console : List ℕ
  pub entries : ℕ → Option StreambuffTlsEntry

-- The constructor; `streamloglevel` is not set, and read only after `start_stream` has set it.
unfoldable pub file_logger : FileLogger
file_logger = record {
  fout = record { is_open = false; good = true; written = [] };
  log_file = [];
  streamloglevel = 0;
  log_to_console = true;
  log_level = level_debug;
  console = [];
  entries = λ thread. none;
}

unfoldable pub set_log_level : FileLogger → ℕ → FileLogger
set_log_level l new_log_level = record l { log_level = new_log_level }

unfoldable pub get_log_level : FileLogger → ℕ
get_log_level l = l.log_level

unfoldable pub set_log_to_console : FileLogger → Bool → FileLogger
set_log_to_console l consolelog = record l { log_to_console = consolelog }

unfoldable pub get_log_to_console : FileLogger → Bool
get_log_to_console l = l.log_to_console

unfoldable pub get_log_file : FileLogger → List ℕ
get_log_file l = l.log_file

-- `%d` and `<<` of a number that is not negative, with fuel for its digits.
unfoldable pub digits_of : ℕ → ℕ → List ℕ
digits_of zero n = []
digits_of (suc fuel) n =
    let front = digits_of fuel (n / 10) in
    if ltb n 10 then (48 + n) ∷ [] else front ++ (48 + n % 10) ∷ []

unfoldable pub decimal : ℕ → List ℕ
unfolding digits_of
decimal n = digits_of (suc n) n

-- `strrchr(file, '/')`, where it finds something.
unfoldable pub has_slash : List ℕ → Bool
has_slash [] = false
has_slash (c ∷ file) = if c == 47 then true else has_slash file

-- `(strrchr(file, '/') ? : file - 1) + 1`
unfoldable pub file_name : List ℕ → List ℕ
unfolding has_slash
file_name [] = []
file_name (c ∷ file) =
    let shorter = file_name file in
    if has_slash file then shorter else if c == 47 then file else c ∷ file

-- The head of a line: `%s%s(%s:%d): `.
unfoldable pub header : List ℕ → List ℕ → List ℕ → ℕ → List ℕ
unfolding file_name decimal
header message file function line =
    message ++ (file_name file ++ 40 ∷ (function ++ 58 ∷ (decimal line ++ 41 ∷ 58 ∷ 32 ∷ [])))
