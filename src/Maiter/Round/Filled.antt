-- ===== src/Maiter/Round/Filled.antt =====
-- The intervals that the constructors of src/kernel/statetable.h give to the threads, and the positions in
-- them.
use maiter_p.Base.{
  ℕ, zero, suc, ◌+◌, ◌-◌, ◌*◌, ◌/◌, ◌≤◌, ◌<◌, ◌≡◌, refl, ap, ◌∙◌, Bool, true, false, ◌||◌, ◌==◌,
  List, [], ◌∷◌, Returns, length, arith, Bool-cases, inl, inr,
}
use native.Mathlib.Nat.{div-mul-le_self}
use maiter_p.Base.Int.{pos}
use maiter_p.Iterators.Intervals.{
  Interval, pred_int, fill_intervals, set_intervals, thread_begin, thread_end, found_or_fatal,
  positions_from, thread_positions,
}

-- The interval is not empty, and its positions are below `count`.
pub record IsShare (count : ℕ) (x : Interval) : Type 0 where
  first : ℕ
  last : ℕ
  first_is : x.interval_first ≡ pos first
  last_is : x.interval_last ≡ pos last
  ordered : first ≤ last
  below : last < count

abbrev pub AllShares : ℕ → List Interval → Type 0
AllShares count [] = Unit
AllShares count (x ∷ rest) = IsShare count x × AllShares count rest

-- The thread has an interval.
unfoldable pub listed : List Interval → ℕ → Bool
listed [] id = false
listed (x ∷ rest) id = (x.thread_id == id) || listed rest id

pred_int-pos : (n : ℕ) → 0 < n → pred_int n ≡ pos (n - 1)
unfolding pred_int
pred_int-pos zero h = absurd (omega arith)
pred_int-pos (suc n) h = ap pos (omega arith)

fill-AllShares :
    (count normal i : ℕ) (xs : List Interval)
    → 0 < length xs
    → 0 < normal
    → normal * (i + length xs) ≤ count
    → Returns (fill_intervals count normal i xs) λ ys.
      AllShares count ys × ((id : ℕ) → listed ys id ≡ listed xs id) × (length ys ≡ length xs)
unfolding fill_intervals listed pred_int
fill-AllShares count normal i [] h positive fit = absurd (omega arith)
fill-AllShares (suc count) normal i (x ∷ []) h positive fit = (
  _,
  refl,
  (
    (
      record {
        first = normal * i;
        last = count;
        first_is = refl;
        last_is = refl;
        ordered = grind arith;
        below = omega arith;
      },
      tt,
    ),
    λ id. refl,
    refl,
  ),
)
fill-AllShares zero normal i (x ∷ []) h positive fit = absurd (grind arith)
fill-AllShares count normal i (x ∷ y ∷ rest) h positive fit =
    let (ys, run, (all, same, wide)) =
      fill-AllShares count normal (i + 1) (y ∷ rest) (omega arith) positive (grind arith) in
    (
      record x { interval_first = pos (normal * i); interval_last = pred_int (normal * (i + 1)) }
          ∷ ys,
      rw run,
      (
        (
          record {
            first = normal * i;
            last = normal * (i + 1) - 1;
            first_is = refl;
            last_is = pred_int-pos (normal * (i + 1)) (grind arith);
            ordered = grind arith;
            below = grind arith;
          },
          all,
        ),
        λ id. ap (λ b. (x.thread_id == id) || b) (same id),
        ap suc wide,
      ),
    )

pub set-AllShares :
    (count : ℕ) (xs : List Interval)
    → 0 < length xs
    → length xs ≤ count
    → Returns (set_intervals count (length xs) xs) λ ys.
      AllShares count ys × ((id : ℕ) → listed ys id ≡ listed xs id) × (length ys ≡ length xs)
unfolding set_intervals
set-AllShares count [] h enough = absurd (omega arith)
set-AllShares count (x ∷ rest) h enough =
    fill-AllShares count (count / length (x ∷ rest)) 0 (x ∷ rest) h (grind arith)
      (grind (arith, div-mul-le_self count (length (x ∷ rest))))

abbrev pub AllBelow : ℕ → List ℕ → Type 0
AllBelow count [] = Unit
AllBelow count (p ∷ rest) = (p < count) × AllBelow count rest

positions_from-AllBelow :
    (count left p : ℕ) → p + left ≤ count → AllBelow count (positions_from left p)
unfolding positions_from
positions_from-AllBelow count zero p h = tt
positions_from-AllBelow count (suc left) p h =
    (omega arith, positions_from-AllBelow count left (suc p) (omega arith))

share_of :
    (count id : ℕ) (ys : List Interval)
    → AllShares count ys
    → listed ys id ≡ true
    → (a b : ℕ) × (thread_begin ys id ≡ pos a) × (thread_end ys id ≡ pos b) × (a ≤ b) × (b < count)
unfolding thread_begin thread_end listed
share_of count id [] all there = absurd (cc there)
share_of count id (x ∷ rest) (share, others) there = elim (Bool-cases (x.thread_id == id)) [
  | inl here ↦ (
    share.first,
    share.last,
    rw here share.first_is,
    rw here share.last_is,
    share.ordered,
    share.below,
  )
  | inr past ↦
      let (a, b, begins, ends, ordered, below) =
        share_of count id rest others (ground (arith, there, past)) in
      (a, b, rw past begins, rw past ends, ordered, below)
]

pub thread_positions-AllBelow :
    (count id : ℕ) (ys : List Interval)
    → AllShares count ys
    → listed ys id ≡ true
    → Returns (thread_positions ys id) (AllBelow count)
unfolding thread_positions found_or_fatal
thread_positions-AllBelow count id ys all there =
    let (a, b, begins, ends, ordered, below) = share_of count id ys all there in
    (
      positions_from (suc b - a) a,
      rw (begins, ends),
      positions_from-AllBelow count (suc b - a) a (omega arith),
    )

-- Whom the round is for.
abbrev pub AllListed : List Interval → List ℕ → Type 0
AllListed ys [] = Unit
AllListed ys (id ∷ rest) = (listed ys id ≡ true) × AllListed ys rest

pub AllListed-same :
    (ys xs : List Interval) (ids : List ℕ)
    → ((id : ℕ) → listed ys id ≡ listed xs id)
    → AllListed xs ids
    → AllListed ys ids
AllListed-same ys xs [] same all = tt
AllListed-same ys xs (id ∷ rest) same (there, all) =
    (same id ∙ there, AllListed-same ys xs rest same all)
