-- ===== src/Util/Timer/Counted.antt =====
-- How often the macros of src/util/timer.h run their operation.
use maiter_p.Base.{
  ℕ, zero, suc, ◌+◌, ◌-◌, ◌*◌, ◌%◌, ◌^◌, ◌<◌, ◌≤◌, ◌≡◌, refl, true, false, Returns, ltb, ◌==◌,
  if◌then◌else◌, arith, List, [], ◌∷◌, Bool-cases, inl, inr, lt→ltb, ap, ◌∙◌,
}
use native.Mathlib.Nat.{suc-mod, mod-eq_of_lt, mod_self, mod-lt, zero-mod}
use maiter_p.StateTable.Defs.{to_int}
use maiter_p.Util.Timer.{every_n, every_n_passes, Periodic, periodic, periodic_runs}

-- What is missing from `c` to the next multiple of `k`.
gap : ℕ → ℕ → ℕ
gap k c = if c % k == 0 then 0 else k - c % k

-- The remainder of the next number.
suc-mod_cases : (k c : ℕ) → 0 < k → suc c % k ≡ (if suc (c % k) == k then 0 else suc (c % k))
suc-mod_cases k c pos =
    let below = mod-lt c pos in
    let e = suc-mod c k in
    elim (Bool-cases (suc (c % k) == k)) [
      | inl h ↦
          let same : suc (c % k) ≡ k = ground arith in rw h (e ∙ ap (λ x. x % k) same ∙ mod_self k)
      | inr h ↦ rw h (e ∙ mod-eq_of_lt (ground arith))
    ]

gap-run : (k c : ℕ) → 0 < k → (c % k == 0) ≡ true → gap k (suc c) + 1 ≡ k
unfolding gap
gap-run k c pos h = let e = suc-mod_cases k c pos in ground (arith, e)

gap-skip : (k c : ℕ) → 0 < k → (c % k == 0) ≡ false → gap k (suc c) + 1 ≡ gap k c
unfolding gap
gap-skip k c pos h =
    let e = suc-mod_cases k c pos in let below = mod-lt c pos in ground (arith, e, below)

gap-run_self : (k c : ℕ) → (c % k == 0) ≡ true → gap k c ≡ 0
unfolding gap
gap-run_self k c h = rw h

gap-lt : (k c : ℕ) → 0 < k → gap k c < k
unfolding gap
gap-lt k c pos = let below = mod-lt c pos in ground (arith, below)

-- After `passes` passes from `count`, `runs` more runs cover all numbers up to the next multiple.
passes-Counted :
    (passes k count : ℕ)
    → 0 < k
    → count + passes < 2 ^ 31
    → Returns
        (every_n_passes passes k count)
        λ r. (r.1 ≡ count + passes) × (count + gap k count + r.0 * k ≡ r.1 + gap k r.1)
unfolding every_n_passes every_n to_int
passes-Counted zero k count pos small = ((0, count), refl, (omega arith, omega arith))
passes-Counted (suc passes) k count pos small =
    let ((runs, c), rest, (last, covered)) =
      passes-Counted passes k (suc count) pos (omega arith) in
    let within : ltb (suc count) (2 ^ 31) ≡ true = lt→ltb _ _ (omega arith) in
    let some_interval : (k == 0) ≡ false = ground arith in
    elim (Bool-cases (count % k == 0)) [
      | inl h ↦
          let g = gap-run k count pos h in
          let z = gap-run_self k count h in
          (
            (suc runs, c),
            rw (every_n_passes, within, some_interval, h, rest),
            (omega (arith, last), omega (arith, g, z, covered)),
          )
      | inr h ↦
          let g = gap-skip k count pos h in
          (
            (runs, c),
            rw (every_n_passes, within, some_interval, h, rest),
            (omega (arith, last), omega (arith, g, covered)),
          )
    ]

gap-zero : (k : ℕ) → gap k 0 ≡ 0
unfolding gap
gap-zero k = let e = zero-mod k in ground (arith, e)

pub every_n-runs :
    (interval passes : ℕ)
    → 0 < interval
    → passes < 2 ^ 31
    → Returns
        (every_n_passes passes interval 0)
        λ r. (r.1 ≡ passes) × (passes ≤ r.0 * interval) × (r.0 * interval < passes + interval)
every_n-runs interval passes pos small =
    let (r, run, (last, covered)) = passes-Counted passes interval 0 pos (omega arith) in
    let z = gap-zero interval in
    let below = gap-lt interval r.1 pos in
    (
      r,
      run,
      (
        omega (arith, last),
        omega (arith, last, covered, z),
        omega (arith, last, covered, z, below),
      ),
    )

-- Each number of a list is more than `cycles` above the one before.
abbrev Apart : ℕ → ℕ → List ℕ → Type 0
Apart cycles last [] = Unit {0}
Apart cycles last (cycle ∷ runs) = (last + cycles < cycle) × Apart cycles cycle runs

-- The runs of PERIODIC are apart, the first from `last`.
periodic_runs-Apart :
    (cycles : ℕ) (p : Periodic) (readings : List ℕ)
    → Apart cycles p.last (periodic_runs cycles p readings)
unfolding periodic_runs periodic
periodic_runs-Apart cycles p [] = tt
periodic_runs-Apart cycles p (cycle ∷ later) = elim (Bool-cases (ltb (p.last + cycles) cycle)) [
  | inl h ↦
      rw (h, periodic_runs, periodic)
        ((ground arith), periodic_runs-Apart cycles (record { last = cycle; count = 0 }) later)
  | inr h ↦
      rw (h, periodic_runs, periodic)
        (periodic_runs-Apart cycles (record p { count = p.count + 1 }) later)
]
