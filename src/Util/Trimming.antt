-- ===== src/Util/Trimming.antt =====
-- `trim` of src/util/configfile.h does what `strip` of src/util/stringpiece.cc does.
use maiter_p.Base.{
  ℕ, ◌≡◌, refl, sym, ap, ◌∙◌, true, false, Option, none, some, List, [], ◌∷◌, arith, Bool-cases,
  inl, inr,
}
use maiter_p.Util.StringPiece.{
  is_space, is_delim, strip_front, strip_back, keep_unless_space, strip,
}
use maiter_p.Util.Stripping.{strip_front-space, strip_front-clear}
use maiter_p.Util.Config.{
  white_spaces, find_first_not_of, find_last_not_of, trim_left, trim_right, trim, moved,
  last_position, erase_before, erase_behind,
}

is_delim-white_spaces : (c : ℕ) → is_delim white_spaces c ≡ is_space c
unfolding is_delim is_space
is_delim-white_spaces c = ground arith

before-moved :
    (o : Option ℕ) (c : ℕ) (r : List ℕ) → erase_before (moved o) (c ∷ r) ≡ erase_before o r
unfolding erase_before moved
before-moved none c r = refl
before-moved (some pos) c r = refl

first-space :
    (c : ℕ) (r : List ℕ)
    → is_space c ≡ true
    → find_first_not_of white_spaces (c ∷ r) ≡ moved (find_first_not_of white_spaces r)
unfolding find_first_not_of moved
first-space c r h = rw (is_delim-white_spaces c ∙ h, find_first_not_of) refl

first-clear :
    (c : ℕ) (r : List ℕ) → is_space c ≡ false → find_first_not_of white_spaces (c ∷ r) ≡ some 0
unfolding find_first_not_of
first-clear c r h = rw (is_delim-white_spaces c ∙ h, find_first_not_of) refl

trim_left-strip_front : (s : List ℕ) → trim_left s white_spaces ≡ strip_front s
unfolding trim_left erase_before find_first_not_of strip_front
trim_left-strip_front [] = refl
trim_left-strip_front (c ∷ r) = elim (Bool-cases (is_space c)) [
  | inl h ↦
      ap (λ o. erase_before o (c ∷ r)) (first-space c r h)
      ∙ before-moved (find_first_not_of white_spaces r) c r
      ∙ trim_left-strip_front r
      ∙ sym (strip_front-space c r h)
  | inr h ↦ ap (λ o. erase_before o (c ∷ r)) (first-clear c r h) ∙ sym (strip_front-clear c r h)
]

behind-none :
    (c : ℕ) (r : List ℕ)
    → erase_behind (last_position (is_space c) none) (c ∷ r) ≡ keep_unless_space c []
unfolding erase_behind last_position keep_unless_space
behind-none c r = elim (Bool-cases (is_space c)) [ inl h ↦ rw h refl | inr h ↦ rw h refl ]

behind-last :
    (o : Option ℕ) (c d : ℕ) (r : List ℕ)
    → erase_behind (last_position (is_space c) o) (c ∷ d ∷ r)
      ≡ keep_unless_space c (erase_behind o (d ∷ r))
unfolding erase_behind last_position keep_unless_space
behind-last none c d r = behind-none c (d ∷ r)
behind-last (some pos) c d r = refl

trim_right-strip_back : (s : List ℕ) → trim_right s white_spaces ≡ strip_back s
unfolding trim_right find_last_not_of strip_back erase_behind
trim_right-strip_back [] = refl
trim_right-strip_back (c ∷ []) =
    ap (λ b. erase_behind (last_position b none) (c ∷ [])) (is_delim-white_spaces c)
    ∙ behind-none c []
trim_right-strip_back (c ∷ d ∷ r) =
    ap (λ b. erase_behind (last_position b (find_last_not_of white_spaces (d ∷ r))) (c ∷ d ∷ r))
      (is_delim-white_spaces c)
    ∙ behind-last (find_last_not_of white_spaces (d ∷ r)) c d r
    ∙ ap (keep_unless_space c) (trim_right-strip_back (d ∷ r))

front-keep_space :
    (c : ℕ) (s : List ℕ) → is_space c ≡ true → strip_front (keep_unless_space c s) ≡ strip_front s
unfolding keep_unless_space
front-keep_space c [] h = rw h refl
front-keep_space c (d ∷ s) h = strip_front-space c (d ∷ s) h

front-keep_clear :
    (c : ℕ) (s : List ℕ)
    → is_space c ≡ false
    → strip_front (keep_unless_space c s) ≡ keep_unless_space c s
unfolding keep_unless_space
front-keep_clear c [] h = rw h (strip_front-clear c [] h)
front-keep_clear c (d ∷ s) h = strip_front-clear c (d ∷ s) h

strip_front-strip_back : (s : List ℕ) → strip_front (strip_back s) ≡ strip_back (strip_front s)
unfolding strip_back strip_front
strip_front-strip_back [] = refl
strip_front-strip_back (c ∷ r) = elim (Bool-cases (is_space c)) [
  | inl h ↦
      front-keep_space c (strip_back r) h
      ∙ strip_front-strip_back r
      ∙ ap strip_back (sym (strip_front-space c r h))
  | inr h ↦ front-keep_clear c (strip_back r) h ∙ ap strip_back (sym (strip_front-clear c r h))
]

-- trim of the configuration file and strip of a string piece leave the same of every string.
pub trim-strip : (str : List ℕ) → trim str ≡ strip str
unfolding trim strip
trim-strip str =
    ap (λ s. trim_left s white_spaces) (trim_right-strip_back str)
    ∙ trim_left-strip_front (strip_back str)
    ∙ strip_front-strip_back str
