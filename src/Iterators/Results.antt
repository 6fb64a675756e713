-- ===== src/Iterators/Results.antt =====
-- What the check for termination and the dump (src/kernel/table.h, src/kernel/kernel.h) make of a table.
use maiter_p.Base.{
  ◌≡◌, refl, sym, ◌∙◌, List, [], ◌∷◌, ◌++◌, ok, if◌then◌else◌, length, Bool-cases, inl, inr,
  Returns,
}
use mathlib.Core.List.{append_assoc, append-nil}
use maiter_p.Kernel.{Key, Value, IterateKernel}
use maiter_p.StateTable.Defs.{StateTable, Bucket}
use maiter_p.Iterators.Pass.{
  Progress, estimate_prog, add_progress, serialize_to_snapshot, dump, dump_row,
}
use maiter_p.Iterators.Visits.{visited, entire_pass-visited}

module _ {ℓ} {K V D : Type ℓ} where
  -- The key and the value of each bucket in use.
  unfoldable pub results : List (Bucket K V D) → List (K × V)
  results [] = []
  results (u ∷ us) = if u.in_use then (u.k, u.v2) ∷ results us else results us

module _ {ℓ} {K V R : Type ℓ} ⦃value : Value V⦄ ⦃progress : Progress V R⦄ where
  -- The values that are not the default, added up from the left.
  unfoldable pub sum_values : V → R → List (K × V) → R
  sum_values default r [] = r
  sum_values default r ((k, v) ∷ rest) =
      sum_values default (if value.veq v default then r else progress.plus r (progress.of_value v))
        rest

module _ {ℓ} {K V D R : Type ℓ} ⦃value : Value V⦄ ⦃kernel : IterateKernel K V D⦄
    ⦃progress : Progress V R⦄ where
  visited-sum :
      (us : List (Bucket K V D)) (r : R)
      → visited add_progress us r ≡ sum_values kernel.default_v r (results us)
  unfolding visited results sum_values add_progress
  visited-sum [] r = refl
  visited-sum (u ∷ us) r = elim (Bool-cases u.in_use) [
    | inl h ↦ rw h (visited-sum us _)
    | inr h ↦ rw h (visited-sum us r)
  ]

module _ {ℓ} {K V D R : Type ℓ} ⦃key : Key K⦄ ⦃value : Value V⦄ ⦃kernel : IterateKernel K V D⦄
    ⦃progress : Progress V R⦄ (t : StateTable K V D) (width : length t.buckets ≡ t.size) where
  -- On a table as wide as its size, a snapshot ends, with the counter of updates and the sum of the
  -- values other than the default over the buckets in use.
  pub serialize_to_snapshot-sum :
      serialize_to_snapshot t
      ≡ ok (t.total_updates, sum_values kernel.default_v progress.zero_r (results t.buckets))
  unfolding serialize_to_snapshot estimate_prog
  serialize_to_snapshot-sum = rw (
    entire_pass-visited t width add_progress progress.zero_r,
    visited-sum t.buckets progress.zero_r,
  )

module _ {ℓ} {K V D R : Type ℓ} ⦃progress : Progress V R⦄ where
  visited-lines :
      (us : List (Bucket K V D)) (lines : List (K × V)) (f1 f2 : R)
      → (visited dump_row us (lines, f1, f2)).0 ≡ lines ++ results us
  unfolding visited results dump_row
  visited-lines [] lines f1 f2 = sym (append-nil lines)
  visited-lines (u ∷ us) lines f1 f2 = elim (Bool-cases u.in_use) [
    | inl h ↦ rw h (visited-lines us _ _ _ ∙ append_assoc lines _ _)
    | inr h ↦ rw h (visited-lines us lines f1 f2)
  ]

  module _ ⦃key : Key K⦄ ⦃value : Value V⦄ ⦃kernel : IterateKernel K V D⦄ (t : StateTable K V D)
      (width : length t.buckets ≡ t.size) where
    -- On a table as wide as its size, the dump ends and writes the key and value of each bucket in use
    -- once, in order.
    pub dump-results : Returns (dump {R = R} t) λ r. r.0 ≡ results t.buckets
    unfolding dump
    dump-results = (
      visited dump_row t.buckets ([], progress.zero_r, progress.zero_r),
      entire_pass-visited t width dump_row _,
      visited-lines t.buckets [] _ _,
    )
