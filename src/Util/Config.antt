-- ===== src/Util/Config.antt =====
-- The configuration file: src/util/configfile.h and src/util/cmdopts.h. A line is what `fgets` gives of
-- it: some bytes, with the end of the line if there was one.
use maiter_p.Base.{
  ℕ, suc, Bool, true, false, Option, none, some, List, [], ◌∷◌, Run, ok, fault, assertion, ◌==◌,
  if◌then◌else◌, take, drop, ◌||◌, ◌&&◌,
}
use maiter_p.Util.StringPiece.{is_delim, next_part}

-- `whiteSpaces`
abbrev pub white_spaces : List ℕ
white_spaces = 32 ∷ 12 ∷ 10 ∷ 13 ∷ 9 ∷ 11 ∷ []

-- A position in the rest of a string, in the whole.
unfoldable pub moved : Option ℕ → Option ℕ
moved none = none
moved (some pos) = some (suc pos)

-- `find_first_not_of`; `none` is `npos`.
unfoldable pub find_first_not_of : List ℕ → List ℕ → Option ℕ
find_first_not_of chars [] = none
find_first_not_of chars (c ∷ rest) = elim (is_delim chars c) [
  | false ↦ some 0
  | true ↦ moved (find_first_not_of chars rest)
]

-- The last position, from whether the first byte is one of the characters and what is found behind it.
unfoldable pub last_position : Bool → Option ℕ → Option ℕ
last_position trimmed (some pos) = some (suc pos)
last_position true none = none
last_position false none = some 0

-- `find_last_not_of`
unfoldable pub find_last_not_of : List ℕ → List ℕ → Option ℕ
find_last_not_of chars [] = none
find_last_not_of chars (c ∷ rest) = last_position (is_delim chars c) (find_last_not_of chars rest)

-- `str.erase(pos + 1)`, where `npos + 1` is 0.
unfoldable pub erase_behind : Option ℕ → List ℕ → List ℕ
erase_behind none str = []
erase_behind (some pos) str = take (suc pos) str

-- `str.erase(0, pos)`
unfoldable pub erase_before : Option ℕ → List ℕ → List ℕ
erase_before none str = []
erase_before (some pos) str = drop pos str

unfoldable pub trim_right : List ℕ → List ℕ → List ℕ
trim_right str chars = erase_behind (find_last_not_of chars str) str

unfoldable pub trim_left : List ℕ → List ℕ → List ℕ
trim_left str chars = erase_before (find_first_not_of chars str) str

unfoldable pub trim : List ℕ → List ℕ
trim str = trim_left (trim_right str white_spaces) white_spaces

-- `_FIXLINE`: `fgets` gives at least one byte.
unfoldable pub fix_line : List ℕ → List ℕ
fix_line [] = []
fix_line (c ∷ []) = if c == 10 then [] else c ∷ []
fix_line (c ∷ d ∷ rest) = c ∷ fix_line (d ∷ rest)

-- The delimiters that `strtok` skips first.
unfoldable pub skip_delims : List ℕ → List ℕ → List ℕ
skip_delims delims [] = []
skip_delims delims (c ∷ rest) = elim (is_delim delims c) [
  | true ↦ skip_delims delims rest
  | false ↦ c ∷ rest
]

-- What stands behind a delimiter, if there was one.
unfoldable pub or_end : Option (List ℕ) → List ℕ
or_end none = []
or_end (some later) = later

-- `strtok`: the token, and where the next call goes on; `none` is NULL.
unfoldable pub token_of : List ℕ → List ℕ → Option (List ℕ × List ℕ)
unfolding or_end
token_of delims [] = none
token_of delims (c ∷ rest) =
    let (token, later) = next_part delims (c ∷ rest) in some (token, or_end later)

unfoldable pub strtok : List ℕ → List ℕ → Option (List ℕ × List ℕ)
strtok delims s = token_of delims (skip_delims delims s)

-- `std::map<std::string, std::string>`: the assignments, the newest first.
abbrev pub Conf : Type 0
Conf = List (List ℕ × List ℕ)

unfoldable pub same : List ℕ → List ℕ → Bool
same [] [] = true
same [] (d ∷ b) = false
same (c ∷ a) [] = false
same (c ∷ a) (d ∷ b) = (c == d) && same a b

-- `conf.find`
unfoldable pub find_option : List ℕ → Conf → Option (List ℕ)
find_option name [] = none
find_option name ((key, value) ∷ conf) = if same name key then some value else find_option name conf

-- A comment.
unfoldable pub is_comment : List ℕ → Bool
is_comment [] = false
is_comment (c ∷ rest) = (c == 35) || (c == 37)

unfoldable pub with_value : List ℕ → Option (List ℕ × List ℕ) → Option (List ℕ × List ℕ)
unfolding trim
with_value key none = none
with_value key (some (value, later)) = some (trim key, trim value)

unfoldable pub with_key : Option (List ℕ × List ℕ) → Option (List ℕ × List ℕ)
unfolding strtok
with_key none = none
with_key (some (key, rest)) = with_value key (strtok (61 ∷ []) rest)

-- The key and the value of a line, if it has both.
unfoldable pub read_option : List ℕ → Option (List ℕ × List ℕ)
read_option s = with_key (strtok (61 ∷ []) s)

unfoldable pub set_read : Option (List ℕ × List ℕ) → Conf → Conf
set_read none conf = conf
set_read (some option) conf = option ∷ conf

-- The body of the loop of `loadconfig`.
unfoldable pub load_line : Conf → List ℕ → Conf
load_line conf line =
    let s = fix_line line in if is_comment s then conf else set_read (read_option s) conf

unfoldable pub load_lines : Conf → List (List ℕ) → Conf
load_lines conf [] = conf
load_lines conf (line ∷ lines) = load_lines (load_line conf line) lines

-- `none` is a file that cannot be opened.
unfoldable pub loadconfig : Option (List (List ℕ)) → Run (Conf)
loadconfig none = fault assertion
loadconfig (some lines) = ok (load_lines [] lines)

unfoldable pub get_config_option_string : Conf → List ℕ → Run (List ℕ)
get_config_option_string conf name = elim (find_option name conf) [
  | none ↦ fault assertion
  | some value ↦ ok value
]

-- The same with a default value.
unfoldable pub get_config_option_string_or : Conf → List ℕ → List ℕ → List ℕ
get_config_option_string_or conf name default_value = elim (find_option name conf) [
  | none ↦ default_value
  | some value ↦ value
]

unfoldable pub set_conf : Conf → List ℕ → List ℕ → Conf
set_conf conf key value = (key, value) ∷ conf
