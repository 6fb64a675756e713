-- ===== src/Util/StringPiece.antt =====
-- `StringPiece` of src/util/stringpiece.h and src/util/stringpiece.cc: a piece is the list of its bytes.
use maiter_p.Base.{
  zero, suc, ℕ, Bool, true, false, ◌||◌, Option, none, some, List, [], ◌∷◌, ◌++◌, Run, ok, fault,
  out_of_fuel, ◌>>=◌, ◌==◌, leb, ◌&&◌, if◌then◌else◌,
}

-- `isspace`
unfoldable pub is_space : ℕ → Bool
is_space c = (c == 32) || (leb 9 c && leb c 13)

-- The first loop of `strip`.
unfoldable pub strip_front : List ℕ → List ℕ
unfolding is_space
strip_front [] = []
strip_front (c ∷ rest) = elim (is_space c) [ true ↦ strip_front rest | false ↦ c ∷ rest ]

unfoldable pub keep_unless_space : ℕ → List ℕ → List ℕ
unfolding is_space
keep_unless_space c [] = if is_space c then [] else c ∷ []
keep_unless_space c (d ∷ rest) = c ∷ d ∷ rest

-- The second loop: a byte stays if one after it stays or it is no space.
unfoldable pub strip_back : List ℕ → List ℕ
unfolding keep_unless_space
strip_back [] = []
strip_back (c ∷ rest) = keep_unless_space c (strip_back rest)

unfoldable pub strip : List ℕ → List ℕ
unfolding strip_front strip_back
strip sp = strip_back (strip_front sp)

-- Whether the byte is one of the delimiters.
unfoldable pub is_delim : List ℕ → ℕ → Bool
is_delim [] c = false
is_delim (d ∷ delim) c = (c == d) || is_delim delim c

-- The inner loop of `split`: the part up to the next delimiter, and what follows the delimiter, if there
-- is one.
unfoldable pub next_part : List ℕ → List ℕ → List ℕ × Option (List ℕ)
unfolding is_delim
next_part delim [] = ([], none)
next_part delim (c ∷ rest) =
    let (part, later) = next_part delim rest in
    if is_delim delim c then ([], some rest) else (c ∷ part, later)

-- The outer loop of `split`.
unfoldable pub split : ℕ → List ℕ → List ℕ → Run (List (List ℕ))
unfolding next_part
split zero sp delim = fault out_of_fuel
split (suc fuel) [] delim = ok []
split (suc fuel) (c ∷ rest) delim =
    let (part, later) = next_part delim (c ∷ rest) in
    do parts ← elim later [ none ↦ ok [] | some sp ↦ split fuel sp delim ]; ok (part ∷ parts)

-- `JoinString`
unfoldable pub join_string : List (List ℕ) → List ℕ → List ℕ
join_string [] delim = []
join_string (w ∷ []) delim = w
join_string (w ∷ v ∷ rest) delim = w ++ (delim ++ join_string (v ∷ rest) delim)
