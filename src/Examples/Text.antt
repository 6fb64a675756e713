-- ===== src/Examples/Text.antt =====
-- The parts of `std::string` that the `read_data` of src/examples use. A string is the list of its bytes.
use maiter_p.Base.{
  ℕ, zero, suc, ◌<◌, ◌≡◌, refl, ap, Bool, true, false, Option, none, some, List, [], ◌∷◌, ◌++◌, Run,
  ok, fault, out_of_fuel, out_of_range, ◌>>=◌, ◌==◌, if◌then◌else◌, length, arith,
}

abbrev pub tab : ℕ
tab = 9

abbrev pub space : ℕ
space = 32

abbrev pub comma : ℕ
comma = 44

unfoldable further : Option ℕ → Option ℕ
further none = none
further (some p) = some (suc p)

-- `find` and `find_first_of` for one byte; `npos` is `none`.
unfoldable pub find_byte : ℕ → List ℕ → Option ℕ
unfolding further
find_byte c [] = none
find_byte c (x ∷ xs) = if x == c then some 0 else further (find_byte c xs)

-- `substr(0, n)`
unfoldable pub take : ℕ → List ℕ → List ℕ
take zero xs = []
take (suc n) [] = []
take (suc n) (x ∷ xs) = x ∷ take n xs

-- `substr(n)`
unfoldable pub drop : ℕ → List ℕ → List ℕ
drop zero xs = xs
drop (suc n) [] = []
drop (suc n) (x ∷ xs) = drop n xs

-- `substr(0, pos)` and `substr(pos + 1)` for the result of a `find`. Where nothing was found `pos` is -1,
-- and both are the whole string.
unfoldable pub before : Option ℕ → List ℕ → List ℕ
unfolding take
before none xs = xs
before (some p) xs = take p xs

unfoldable pub after : Option ℕ → List ℕ → List ℕ
unfolding drop
after none xs = xs
after (some p) xs = drop (suc p) xs

-- `substr(n)` with its exception where `n` is past the end.
unfoldable pub substr : ℕ → List ℕ → Run (List ℕ)
substr zero xs = ok xs
substr (suc n) [] = fault out_of_range
substr (suc n) (x ∷ xs) = substr n xs

-- The loop of `read_data`: each space ends a link. `read_link` is given what stands before it, and all
-- that is left of the line.
unfoldable pub read_links {ℓ} : {L : Type ℓ} → (List ℕ → List ℕ → Run L) → ℕ → List ℕ → Run (List L)
unfolding find_byte take drop
read_links read_link zero links = fault out_of_fuel
read_links read_link (suc fuel) links = elim (find_byte space links) [
  | none ↦ ok []
  | some p ↦ do
    to ← read_link (take p links) links
    rest ← read_links read_link fuel (drop (suc p) links)
    ok (to ∷ rest)
]

-- A line as `read_data` reads it: every link is followed by a space, and `last` comes after.
unfoldable pub spaced : List (List ℕ) → List ℕ → List ℕ
spaced [] last = last
spaced (w ∷ ws) last = w ++ space ∷ spaced ws last

-- No byte of the word is `c`.
unfoldable pub lacks : ℕ → List ℕ → Bool
lacks c [] = true
lacks c (x ∷ xs) = if x == c then false else lacks c xs

pub find_byte-append :
    (c : ℕ) (w rest : List ℕ) → lacks c w ≡ true → find_byte c (w ++ c ∷ rest) ≡ some (length w)
unfolding find_byte lacks
find_byte-append c [] rest h = ground arith
find_byte-append c (x ∷ w) rest h = ground (arith, find_byte-append c w rest)

find_byte-lacks : (c : ℕ) (w : List ℕ) → lacks c w ≡ true → find_byte c w ≡ none
unfolding find_byte lacks
find_byte-lacks c [] h = refl
find_byte-lacks c (x ∷ w) h = ground (arith, find_byte-lacks c w)

pub take-append : (w rest : List ℕ) → take (length w) (w ++ rest) ≡ w
unfolding take
take-append [] rest = refl
take-append (x ∷ w) rest = ap (λ ys. x ∷ ys) (take-append w rest)

pub drop-append :
    (w : List ℕ) (c : ℕ) (rest : List ℕ) → drop (suc (length w)) (w ++ c ∷ rest) ≡ rest
unfolding drop
drop-append [] c rest = refl
drop-append (x ∷ w) c rest = drop-append w c rest

-- `read_link` on each word in turn.
unfoldable pub read_each {ℓ} :
    {L : Type ℓ} → (List ℕ → List ℕ → Run L) → List (List ℕ) → List ℕ → Run (List L)
unfolding spaced
read_each read_link [] last = ok []
read_each read_link (w ∷ ws) last = do
  to ← read_link w (spaced (w ∷ ws) last)
  rest ← read_each read_link ws last
  ok (to ∷ rest)

-- The words lack the separator.
unfoldable pub all_lack : List (List ℕ) → Bool
unfolding lacks
all_lack [] = true
all_lack (w ∷ ws) = if lacks space w then all_lack ws else false

both : (a b : Bool) → (if a then b else false) ≡ true → (a ≡ true) × (b ≡ true)
both a b h = ground arith

-- The loop of read_data, with fuel above the number of words, takes a line of words without spaces,
-- each followed by a space, apart into the words, and drops what follows the last space.
pub read_links-spaced {ℓ} :
    {L : Type ℓ} (read_link : List ℕ → List ℕ → Run L) (ws : List (List ℕ)) (last : List ℕ)
    (fuel : ℕ)
    → all_lack ws ≡ true
    → lacks space last ≡ true
    → length ws < fuel
    → read_links read_link fuel (spaced ws last) ≡ read_each read_link ws last
unfolding read_links read_each all_lack spaced
read_links-spaced read_link ws last zero h l enough = absurd (omega arith)
read_links-spaced read_link [] last (suc fuel) h l enough =
    rw (read_links, find_byte-lacks space last l)
read_links-spaced read_link (w ∷ ws) last (suc fuel) h l enough =
    let (here, rest) = both (lacks space w) (all_lack ws) h in
    rw (
      read_links,
      find_byte-append space w (spaced ws last) here,
      take-append w (space ∷ spaced ws last),
      drop-append w space (spaced ws last),
      read_links-spaced read_link ws last fuel rest l (omega arith),
    )
