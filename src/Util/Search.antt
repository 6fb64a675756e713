-- ===== src/Util/Search.antt =====
-- `strnstr` of src/util/stringpiece.h. Strings have no zero bytes; the result is the offset of what was
-- found.
use maiter_p.Base.{
  ℕ, zero, suc, ◌+◌, ◌-◌, ◌<◌, ◌≡◌, Bool, true, false, ◌&&◌, Option, none, some, List, [], ◌∷◌,
  ◌==◌, if◌then◌else◌, length, drop, arith,
}

-- `strncmp(haystack, needle, strlen(needle)) == 0`
unfoldable pub starts_with : List ℕ → List ℕ → Bool
starts_with haystack [] = true
starts_with [] (d ∷ needle) = false
starts_with (c ∷ haystack) (d ∷ needle) = (c == d) && starts_with haystack needle

-- The loop over `i`, for the passes that are left.
unfoldable pub strnstr_loop : ℕ → ℕ → List ℕ → List ℕ → Option ℕ
unfolding starts_with
strnstr_loop zero i haystack needle = none
strnstr_loop (suc passes) i haystack needle =
    let later = strnstr_loop passes (suc i) (drop 1 haystack) needle in
    if starts_with haystack needle then some i else later

-- `len` is an argument of its own.
unfoldable pub strnstr : List ℕ → List ℕ → ℕ → Option ℕ
unfolding strnstr_loop
strnstr haystack needle len = strnstr_loop (len - length needle) 0 haystack needle

found-lt :
    (passes i : ℕ) (haystack needle : List ℕ) (j : ℕ)
    → strnstr_loop passes i haystack needle ≡ some j
    → j < i + passes
unfolding strnstr_loop
found-lt zero i haystack needle j found = absurd (cc found)
found-lt (suc passes) i haystack needle j found =
    ground (arith, found-lt passes (suc i) (drop 1 haystack) needle j)

-- What strnstr finds ends before the last byte of the range: it never finds the needle at the end.
pub strnstr-lt :
    (haystack needle : List ℕ) (len j : ℕ)
    → strnstr haystack needle len ≡ some j
    → j + length needle < len
unfolding strnstr
strnstr-lt haystack needle len j found =
    omega (arith, found-lt (len - length needle) 0 haystack needle j found)
