-- ===== src/Util/Proc/Found.antt =====
-- What the queries of src/util/common.cc answer from a file with the label that they look for.
use maiter_p.Base.{
  ℕ, ◌+◌, ◌-◌, ◌*◌, ◌^◌, ◌<◌, ◌≡◌, Bool, true, false, ◌&&◌, Option, none, some, List, [], ◌∷◌, ◌++◌,
  if◌then◌else◌,
}
use maiter_p.Util.Stripping.{all_space}
use maiter_p.Util.Proc.{is_digit}
use maiter_p.Util.Proc.Formats.{absent, one_line}

-- A numeral and its value, and where it ends.
unfoldable pub all_digits : List ℕ → Bool
all_digits [] = true
all_digits (c ∷ w) = is_digit c && all_digits w

unfoldable pub numeral_value : ℕ → List ℕ → ℕ
numeral_value n [] = n
numeral_value n (c ∷ w) = numeral_value (n * 10 + (c - b'0')) w

unfoldable pub no_digit : List ℕ → Bool
no_digit [] = true
no_digit (c ∷ tail) = if is_digit c then false else true

-- A line of the file, behind the lines before it, if there are any, which do not hold the label.
abbrev pub preceded : Option (List ℕ) → List ℕ → List ℕ
preceded none line = line
preceded (some lines) line = lines ++ 10 ∷ line

abbrev pub absent_before : List ℕ → Option (List ℕ) → Bool
absent_before label none = true
absent_before label (some lines) = absent label lines

module _ (c : ℕ) (label : List ℕ) (inside : one_line (c ∷ label) ≡ true) (spaces : List ℕ)
    (blanks : all_space spaces ≡ true) (d : ℕ) (w tail : List ℕ) (all : all_digits (d ∷ w) ≡ true)
    (end : no_digit tail ≡ true) (small : numeral_value 0 (d ∷ w) < 2 ^ 63) where
  -- The label, white space and the numeral.
  abbrev target : List ℕ
  target = (c ∷ label) ++ (spaces ++ (d ∷ (w ++ tail)))

  answer : ℕ
  answer = numeral_value 0 (d ∷ w)
