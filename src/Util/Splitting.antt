-- ===== src/Util/Splitting.antt =====
-- What `strip` and `split` of src/util/stringpiece.cc do.
use maiter_p.Base.{
  zero, suc, ℕ, ◌<◌, ◌≡◌, refl, ap, ◌∙◌, Bool, true, false, none, some, List, [], ◌∷◌, ◌++◌, ok,
  ◌>>=◌, if◌then◌else◌, length, arith, Bool-cases, inl, inr, And-true, sym, ◌&&◌,
}
use maiter_p.Util.StringPiece.{is_delim, next_part, split, join_string}

-- No byte is a delimiter.
unfoldable pub no_delim : List ℕ → List ℕ → Bool
no_delim delim [] = true
no_delim delim (c ∷ rest) = if is_delim delim c then false else no_delim delim rest

pub next_part-last : (delim w : List ℕ) → no_delim delim w ≡ true → next_part delim w ≡ (w, none)
unfolding next_part no_delim
next_part-last delim [] h = refl
next_part-last delim (c ∷ w) h = elim (Bool-cases (is_delim delim c)) [
  | inl d ↦ absurd cc
  | inr d ↦ rw d (
      ap (λ r. (c ∷ r.0, r.1))
        (next_part-last delim w (ap (λ b. if b then false else no_delim delim w) (sym d) ∙ h)))
]

pub next_part-more :
    (delim w : List ℕ) (d : ℕ) (rest : List ℕ)
    → no_delim delim w ≡ true
    → is_delim delim d ≡ true
    → next_part delim (w ++ d ∷ rest) ≡ (w, some rest)
unfolding next_part no_delim
next_part-more delim [] d rest h is = rw is
next_part-more delim (c ∷ w) d rest h is = elim (Bool-cases (is_delim delim c)) [
  | inl e ↦ absurd cc
  | inr e ↦ rw e (
      ap (λ r. (c ∷ r.0, r.1))
        (next_part-more delim w d rest (ap (λ b. if b then false else no_delim delim w) (sym e) ∙ h)
          is))
]

-- No word holds a delimiter, and the last one is not empty.
unfoldable pub splits_back : List ℕ → List (List ℕ) → Bool
unfolding no_delim
splits_back delim [] = true
splits_back delim ([] ∷ []) = false
splits_back delim ((c ∷ w) ∷ []) = no_delim delim (c ∷ w)
splits_back delim (w ∷ v ∷ rest) = no_delim delim w && splits_back delim (v ∷ rest)

split-part :
    (fuel : ℕ) (delim : List ℕ) (c : ℕ) (rest part later : List ℕ) (parts : List (List ℕ))
    → next_part delim (c ∷ rest) ≡ (part, some later)
    → split fuel later delim ≡ ok parts
    → split (suc fuel) (c ∷ rest) delim ≡ ok (part ∷ parts)
unfolding split
split-part fuel delim c rest part later parts found h =
    rw found (ap (λ run. run >>= λ others. ok (part ∷ others)) h)

split-last :
    (fuel : ℕ) (delim : List ℕ) (c : ℕ) (w : List ℕ)
    → no_delim delim (c ∷ w) ≡ true
    → split (suc fuel) (c ∷ w) delim ≡ ok ((c ∷ w) ∷ [])
unfolding split
split-last fuel delim c w h = rw (next_part-last delim (c ∷ w) h)

split-word :
    (fuel d : ℕ) (delim w rest : List ℕ) (parts : List (List ℕ))
    → no_delim delim w ≡ true
    → is_delim delim d ≡ true
    → split fuel rest delim ≡ ok parts
    → split (suc fuel) (w ++ d ∷ rest) delim ≡ ok (w ∷ parts)
split-word fuel d delim [] rest parts h is onward =
    split-part fuel delim d rest [] rest parts (next_part-more delim [] d rest h is) onward
split-word fuel d delim (c ∷ w) rest parts h is onward =
    split-part fuel delim c (w ++ d ∷ rest) (c ∷ w) rest parts
      (next_part-more delim (c ∷ w) d rest h is) onward

-- Words without delimiters, of which the last is not empty, joined with a delimiter between them, are
-- what split takes the result apart into, with fuel above their number.
pub split-join_string :
    (fuel d : ℕ) (delim : List ℕ) (ws : List (List ℕ))
    → is_delim delim d ≡ true
    → splits_back delim ws ≡ true
    → length ws < fuel
    → split fuel (join_string ws (d ∷ [])) delim ≡ ok ws
unfolding splits_back join_string split
split-join_string zero d delim ws is h lt = absurd (omega arith)
split-join_string (suc fuel) d delim [] is h lt = refl
split-join_string (suc fuel) d delim ([] ∷ []) is h lt = absurd (cc h)
split-join_string (suc fuel) d delim ((c ∷ w) ∷ []) is h lt = split-last fuel delim c w h
split-join_string (suc fuel) d delim (w ∷ v ∷ rest) is h lt =
    let (clear, more) = And-true (no_delim delim w) (splits_back delim (v ∷ rest)) h in
    split-word fuel d delim w (join_string (v ∷ rest) (d ∷ [])) (v ∷ rest) clear is
      (split-join_string fuel d delim (v ∷ rest) is more (omega arith))
