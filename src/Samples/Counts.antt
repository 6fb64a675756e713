-- ===== src/Samples/Counts.antt =====
-- Sums under names, and the registry of helpers.
use maiter_p.Base.{ℕ, ◌+◌, ◌≡◌, refl, none, some, [], ◌∷◌, Run, ok, fault, uninitialized}
use maiter_p.Util.Stats.{Sums, merge}
use maiter_p.Util.Registry.{Registry, put, get, run_all}
use maiter_p.Util.Search.{strnstr}

instance abbrev number_sums : Sums ℕ
number_sums = record { zero_r = 0; plus = λ a b. a + b; two_places = λ n. n ∷ [] }

-- A name that both have, and a name that one has.
merged :
    merge ⦃sums = number_sums⦄ ((1 ∷ [], 5) ∷ []) ((2 ∷ [], 7) ∷ (1 ∷ [], 3) ∷ [])
    ≡ (1 ∷ [], 8) ∷ (2 ∷ [], 7) ∷ []
unfolding merge
merged = refl

-- Helpers that count up; the second name was asked for and never registered.
abbrev count_up : ℕ → ℕ → Run ℕ
count_up n s = ok (s + n)

abbrev registered : Registry ℕ
registered = (1 ∷ [], some 5) ∷ []

registered_twice : run_all count_up (put registered (0 ∷ []) (some 2)) 1 ≡ ok 8
unfolding run_all put
registered_twice = refl

asked_for : run_all count_up (get registered (2 ∷ [])).0 1 ≡ fault uninitialized
unfolding run_all get
asked_for = refl

-- `bc` in `abcd` is found, and `cd` is not.
inside : strnstr (97 ∷ 98 ∷ 99 ∷ 100 ∷ []) (98 ∷ 99 ∷ []) 4 ≡ some 1
unfolding strnstr
inside = refl

at_the_end : strnstr (97 ∷ 98 ∷ 99 ∷ 100 ∷ []) (99 ∷ 100 ∷ []) 4 ≡ none
unfolding strnstr
at_the_end = refl
