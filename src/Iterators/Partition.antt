-- ===== src/Iterators/Partition.antt =====
-- The intervals of the worker threads (src/kernel/statetable.h) share the positions out.
use native.Mathlib.Nat.{div-eq_of_lt, div-mul-le_self}
use maiter_p.Base.{
  ℕ, zero, suc, ◌+◌, ◌*◌, ◌/◌, ◌<◌, ◌≤◌, ◌≡◌, refl, ap, ◌∙◌, Bool, true, false, List, [], ◌∷◌, ok,
  fault, log_fatal, ◌>>=◌, if◌then◌else◌, arith, length, leb, ltb, Returns, ==_self,
}
use maiter_p.Base.Int.{pos, negsuc}
use maiter_p.Iterators.Intervals.{
  Interval, pred_int, fill_intervals, set_intervals, thread_begin, thread_end, found_or_fatal,
  thread_positions,
}

-- The interval contains the position.
unfoldable pub covers : Interval → ℕ → Bool
covers x p = elim x.interval_first [
  | pos a ↦ elim x.interval_last [ pos b ↦ if leb a p then leb p b else false | negsuc b ↦ false ]
  | negsuc a ↦ false
]

-- The number of threads whose interval contains the position.
unfoldable pub visitors : List Interval → ℕ → ℕ
visitors [] p = 0
visitors (x ∷ rest) p = if covers x p then suc (visitors rest p) else visitors rest p

abbrev indicator : Bool → ℕ
indicator b = if b then 1 else 0

covers-slice :
    (x : Interval) (a b p : ℕ)
    → covers (record x { interval_first = pos a; interval_last = pred_int b }) p
      ≡ (if leb a p then ltb p b else false)
unfolding covers pred_int
covers-slice x a zero p = ground arith
covers-slice x a (suc b) p = ground arith

lone : (a b : Bool) → indicator (if a then b else false) ≡ (if a then (if b then 1 else 0) else 0)
lone true b = refl
lone false b = refl

-- A slice and the rest after it.
joined :
    (a b c p : ℕ)
    → a ≤ b
    → b ≤ c
    → (if (if leb a p then ltb p b else false)
        then suc (if leb b p then (if ltb p c then 1 else 0) else 0)
        else (if leb b p then (if ltb p c then 1 else 0) else 0))
      ≡ (if leb a p then (if ltb p c then 1 else 0) else 0)
joined a b c p h h' = ground arith

rest_filled :
    (count normal i : ℕ) (x y : Interval) (rest ys : List Interval)
    → fill_intervals count normal (i + 1) (y ∷ rest) ≡ ok ys
    → fill_intervals count normal i (x ∷ y ∷ rest)
      ≡ ok (
          record x {
            interval_first = pos (normal * i);
            interval_last = pred_int (normal * (i + 1));
          }
          ∷ ys)
unfolding fill_intervals
rest_filled count normal i x y rest ys run = rw run

fill-visitors :
    (count normal i : ℕ) (xs : List Interval)
    → 0 < length xs
    → normal * (i + length xs) ≤ count
    → Returns (fill_intervals count normal i xs) λ ys.
      (p : ℕ) → visitors ys p ≡ (if leb (normal * i) p then (if ltb p count then 1 else 0) else 0)
unfolding fill_intervals visitors
fill-visitors count normal i [] h fit = absurd (omega arith)
fill-visitors count normal i (x ∷ []) h fit = (
  record x { interval_first = pos (normal * i); interval_last = pred_int count } ∷ [],
  refl,
  λ p. ap indicator (covers-slice x (normal * i) count p) ∙ lone (leb (normal * i) p) (ltb p count),
)
fill-visitors count normal i (x ∷ y ∷ rest) h fit =
    let grows : normal * i ≤ normal * (i + 1) = grind arith in
    let fits : normal * (i + 1) ≤ count = grind arith in
    let (ys, run, all) =
      fill-visitors count normal (i + 1) (y ∷ rest) (omega arith) (grind arith) in
    (
      record x { interval_first = pos (normal * i); interval_last = pred_int (normal * (i + 1)) }
          ∷ ys,
      rest_filled count normal i x y rest ys run,
      λ p.
          rw (all p, covers-slice x (normal * i) (normal * (i + 1)) p)
            (joined (normal * i) (normal * (i + 1)) count p grows fits),
    )

from_zero : (a p n : ℕ) → a ≡ 0 → (if leb a p then n else 0) ≡ n
from_zero a p n h = ground arith

-- Among as many threads as the division says, at least one, every position is in the interval of
-- exactly one thread, and no other number is in any.
pub set_intervals-visitors :
    (count : ℕ) (intervals : List Interval)
    → 0 < length intervals
    → Returns
        (set_intervals count (length intervals) intervals)
        λ ys. (p : ℕ) → visitors ys p ≡ (if ltb p count then 1 else 0)
unfolding set_intervals
set_intervals-visitors count [] h = elim h [ ]
set_intervals-visitors count (x ∷ rest) h =
    let normal = count / length (x ∷ rest) in
    let (ys, run, all) =
      fill-visitors count normal 0 (x ∷ rest) h
        (grind (arith, div-mul-le_self count (length (x ∷ rest)))) in
    (ys, run, λ p. all p ∙ from_zero (normal * 0) p _ (omega arith))

-- With fewer positions than threads, of which there are at least two, the round of the first thread
-- ends in the exception.
pub thread_positions-few :
    (count : ℕ) (x y : Interval) (rest : List Interval)
    → count < length (x ∷ y ∷ rest)
    → set_intervals count (length (x ∷ y ∷ rest)) (x ∷ y ∷ rest)
        >>= (λ ys. thread_positions ys x.thread_id)
      ≡ fault log_fatal
unfolding set_intervals thread_positions thread_begin thread_end found_or_fatal pred_int
thread_positions-few count x y rest h =
    let none_each : count / length (x ∷ y ∷ rest) ≡ 0 = div-eq_of_lt h in
    let (ys, run, all) = fill-visitors count 0 1 (y ∷ rest) (omega arith) (omega arith) in
    rw (none_each, rest_filled count 0 0 x y rest ys run, ==_self x.thread_id)
