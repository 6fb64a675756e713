-- ===== src/Util/Stripping.antt =====
-- What `strip` of src/util/stringpiece.cc leaves of a piece.
use maiter_p.Base.{
  ◌≡◌, refl, ap, ◌∙◌, ℕ, Bool, true, false, List, [], ◌∷◌, ◌++◌, if◌then◌else◌, ◌&&◌, And-true,
  arith,
}
use maiter_p.Util.StringPiece.{is_space, strip_front, strip_back, keep_unless_space, strip}

unfoldable pub all_space : List ℕ → Bool
all_space [] = true
all_space (c ∷ rest) = is_space c && all_space rest

-- The first byte, if there is one, is no space.
unfoldable pub starts_clear : List ℕ → Bool
starts_clear [] = true
starts_clear (c ∷ rest) = if is_space c then false else true

-- The last byte, if there is one, is no space.
unfoldable pub ends_clear : List ℕ → Bool
ends_clear [] = true
ends_clear (c ∷ []) = if is_space c then false else true
ends_clear (c ∷ d ∷ rest) = ends_clear (d ∷ rest)

clear-is_space : (c : ℕ) → (if is_space c then false else true) ≡ true → is_space c ≡ false
clear-is_space c h = ground arith

pub strip_front-space :
    (c : ℕ) (rest : List ℕ) → is_space c ≡ true → strip_front (c ∷ rest) ≡ strip_front rest
unfolding strip_front
strip_front-space c rest h = rw (h, strip_front) refl

pub strip_front-clear :
    (c : ℕ) (rest : List ℕ) → is_space c ≡ false → strip_front (c ∷ rest) ≡ c ∷ rest
unfolding strip_front
strip_front-clear c rest h = rw (h, strip_front) refl

pub strip_front-spaces : (a s : List ℕ) → all_space a ≡ true → strip_front (a ++ s) ≡ strip_front s
unfolding strip_front all_space
strip_front-spaces [] s h = refl
strip_front-spaces (c ∷ a) s h =
    let (space, rest) = And-true (is_space c) (all_space a) h in
    rw (space, strip_front) (strip_front-spaces a s rest)

strip_front-all : (a : List ℕ) → all_space a ≡ true → strip_front a ≡ []
unfolding strip_front all_space
strip_front-all [] h = refl
strip_front-all (c ∷ a) h =
    let (space, rest) = And-true (is_space c) (all_space a) h in
    rw (space, strip_front) (strip_front-all a rest)

strip_back-spaces : (b : List ℕ) → all_space b ≡ true → strip_back b ≡ []
unfolding strip_back keep_unless_space all_space
strip_back-spaces [] h = refl
strip_back-spaces (c ∷ b) h =
    let (space, rest) = And-true (is_space c) (all_space b) h in
    rw (strip_back-spaces b rest) (rw space)

strip_back-clear :
    (w b : List ℕ) → ends_clear w ≡ true → all_space b ≡ true → strip_back (w ++ b) ≡ w
unfolding strip_back keep_unless_space ends_clear
strip_back-clear [] b h space = strip_back-spaces b space
strip_back-clear (c ∷ []) b h space = rw (strip_back-spaces b space) (rw (clear-is_space c h))
strip_back-clear (c ∷ d ∷ w) b h space =
    ap (keep_unless_space c) (strip_back-clear (d ∷ w) b h space)

-- Of a piece between spaces that neither starts nor ends with a space, strip leaves that piece.
pub strip-between :
    (a w b : List ℕ)
    → all_space a ≡ true
    → starts_clear w ≡ true
    → ends_clear w ≡ true
    → all_space b ≡ true
    → strip (a ++ (w ++ b)) ≡ w
unfolding strip strip_front starts_clear strip_back
strip-between a [] b before start end after =
    ap strip_back (strip_front-spaces a b before ∙ strip_front-all b after)
strip-between a (c ∷ w) b before start end after =
    ap strip_back (strip_front-spaces a (c ∷ w ++ b) before)
    ∙ rw (clear-is_space c start, strip_front) (strip_back-clear (c ∷ w) b end after)
