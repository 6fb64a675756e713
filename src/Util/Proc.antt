-- ===== src/Util/Proc.antt =====
-- The queries of src/util/common.cc to the files of /proc. A file is the list of its bytes, and `none`
-- the null pointer of an `fopen` that failed. `fscanf` is written out for the directives that are used.
use maiter_p.Base.{
  ℕ, zero, suc, ◌+◌, ◌-◌, ◌*◌, ◌%◌, ◌^◌, Bool, true, false, ◌&&◌, Option, none, some, List, [], ◌∷◌,
  ◌++◌, map, Run, ok, fault, uninitialized, out_of_fuel, out_of_range, ◌>>=◌, leb, ltb, ◌==◌,
  if◌then◌else◌, length,
}
use maiter_p.Base.Int.{ℤ, pos, negsuc}
use maiter_p.Util.Sharding.{negative}
use maiter_p.Util.StringPiece.{strip_front}
pub mod Formats
pub mod Found
pub mod Absent

-- Of a format: white space, any other byte, and `%d` or `%ld`.
pub data Directive : Type 0 where
  blank number : Directive
  byte : ℕ → Directive

unfoldable pub is_digit : ℕ → Bool
is_digit c = leb b'0' c && leb c b'9'

-- The value of the digits in front, and the rest.
unfoldable pub read_digits : ℕ → List ℕ → ℕ × List ℕ
unfolding is_digit
read_digits n [] = (n, [])
read_digits n (c ∷ xs) = elim (is_digit c) [
  | true ↦ read_digits (n * 10 + (c - b'0')) xs
  | false ↦ (n, c ∷ xs)
]

unfoldable pub signed : Bool → ℕ → ℤ
unfolding negative
signed true n = negative n
signed false n = pos n

unfoldable pub unsigned_at : Bool → List ℕ → Option ℤ × List ℕ
unfolding is_digit read_digits signed
unsigned_at minus [] = (none, [])
unsigned_at minus (c ∷ xs) = elim (is_digit c) [
  | true ↦ let (n, rest) = read_digits 0 (c ∷ xs) in (some (signed minus n), rest)
  | false ↦ (none, c ∷ xs)
]

-- A number, which may have a sign. A sign with no digits behind it is read all the same.
unfoldable pub number_at : List ℕ → Option ℤ × List ℕ
unfolding unsigned_at
number_at [] = (none, [])
number_at (c ∷ xs) = elim (c == b'-') [
  | true ↦ unsigned_at true xs
  | false ↦ elim (c == b'+') [ true ↦ unsigned_at false xs | false ↦ unsigned_at false (c ∷ xs) ]
]

-- `fscanf`: the numbers that it stores, and what it leaves unread. It stops at the first directive that
-- does not match, and has then read all before.
unfoldable pub scan : List Directive → List ℕ → List ℤ × List ℕ
unfolding number_at
scan [] xs = ([], xs)
scan (blank ∷ ds) xs = scan ds (strip_front xs)
scan (byte c ∷ ds) [] = ([], [])
scan (byte c ∷ ds) (x ∷ xs) = elim (x == c) [ true ↦ scan ds xs | false ↦ ([], x ∷ xs) ]
scan (number ∷ ds) xs =
    let (found, unread) = number_at (strip_front xs) in
    let (more, rest) = scan ds unread in
    elim found [ none ↦ ([], unread) | some v ↦ (v ∷ more, rest) ]

-- A `long` stored in a `uint64_t`. A numeral beyond `long` is undefined behaviour of `fscanf`.
unfoldable pub word64 : ℤ → Run ℕ
word64 (pos n) = if ltb n (2 ^ 63) then ok n else fault out_of_range
word64 (negsuc n) = if ltb n (2 ^ 63) then ok (2 ^ 64 - 1 - n) else fault out_of_range

-- The numbers of `%d` are within `int`.
unfoldable pub within_int : List ℤ → Bool
within_int [] = true
within_int (pos n ∷ vs) = ltb n (2 ^ 31) && within_int vs
within_int (negsuc n ∷ vs) = ltb n (2 ^ 31) && within_int vs

unfoldable pub one_value : List ℤ → Option ℤ
one_value (v ∷ []) = some v
one_value vs = none

-- The loop of the memory queries: until `fscanf` stores a number, one byte is skipped, and at the end
-- of the file `m` is still -1.
unfoldable pub read_memory : List Directive → ℕ → List ℕ → Run ℕ
unfolding scan word64 one_value
read_memory format zero xs = fault out_of_fuel
read_memory format (suc fuel) xs = elim (one_value (scan format xs).0) [
  | some v ↦ word64 v
  | none ↦ elim (scan format xs).1 [
    | [] ↦ ok (2 ^ 64 - 1)
    | c ∷ rest ↦ read_memory format fuel rest
  ]
]

unfoldable pub get_memory : List Directive → Option (List ℕ) → Run ℕ
unfolding read_memory
get_memory format none = fault uninitialized
get_memory format (some file) = do
  m ← read_memory format (suc (length file)) file
  ok (m * 1024 % 2 ^ 64)

-- `"MemTotal: %ld kB"`
abbrev pub kilobytes : List Directive
kilobytes = blank ∷ byte b'k' ∷ byte b'B' ∷ []

abbrev pub mem_total : List ℕ
mem_total = b'M' ∷ b'e' ∷ b'm' ∷ b'T' ∷ b'o' ∷ b't' ∷ b'a' ∷ b'l' ∷ b':' ∷ []

-- `"VmRSS: %ld kB"`
abbrev pub vm_rss : List ℕ
vm_rss = b'V' ∷ b'm' ∷ b'R' ∷ b'S' ∷ b'S' ∷ b':' ∷ []

abbrev pub memory_format : List ℕ → List Directive
memory_format label = map byte label ++ (blank ∷ number ∷ kilobytes)

unfoldable pub get_memory_total : Option (List ℕ) → Run ℕ
unfolding get_memory
get_memory_total file = get_memory (memory_format mem_total) file

unfoldable pub get_memory_rss : Option (List ℕ) → Run ℕ
unfolding get_memory
get_memory_rss file = get_memory (memory_format vm_rss) file

-- `"cpu MHz : %d.%d"`
abbrev pub cpu : List ℕ
cpu = b'c' ∷ b'p' ∷ b'u' ∷ []

abbrev pub mhz_rest : List Directive
mhz_rest =
    blank
    ∷ byte b'M'
    ∷ byte b'H'
    ∷ byte b'z'
    ∷ blank
    ∷ byte b':'
    ∷ blank
    ∷ number
    ∷ byte b'.'
    ∷ number
    ∷ []

abbrev pub mhz_format : List Directive
mhz_format = map byte cpu ++ mhz_rest

unfoldable pub two_values : List ℤ → Option (ℤ × ℤ)
two_values (a ∷ b ∷ []) = some (a, b)
two_values vs = none

-- The loop of `get_processor_frequency`, which does not look for the end of the file.
unfoldable pub read_frequency : ℕ → List ℕ → Run (ℤ × ℤ)
unfolding scan two_values within_int
read_frequency zero xs = fault out_of_fuel
read_frequency (suc fuel) xs = elim (within_int (scan mhz_format xs).0) [
  | false ↦ fault out_of_range
  | true ↦ elim (two_values (scan mhz_format xs).0) [
    | some v ↦ ok v
    | none ↦ elim (scan mhz_format xs).1 [
      | [] ↦ read_frequency fuel []
      | c ∷ rest ↦ read_frequency fuel rest
    ]
  ]
]

-- `freq` is `a * 1e6 + b * 1e-4` in `double`.
unfoldable pub get_processor_frequency {ℓ} :
    {R : Type ℓ} → (ℤ → ℤ → R) → ℕ → Option (List ℕ) → Run R
unfolding read_frequency
get_processor_frequency freq fuel none = fault uninitialized
get_processor_frequency freq fuel (some file) = do (a, b) ← read_frequency fuel file; ok (freq a b)
