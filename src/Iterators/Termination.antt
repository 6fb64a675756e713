-- ===== src/Iterators/Termination.antt =====
-- The check for termination: `TermCheckers::Diff` of src/kernel/table.h, and `termcheck` and `TermCheck`
-- of src/kernel/globaltable.h.
use maiter_p.Base.{
  ◌≡◌, refl, Bool, true, false, Option, none, some, List, [], ◌∷◌, Run, ok, ◌>>=◌, length,
  if◌then◌else◌, Bool-cases, inl, inr,
}
use maiter_p.Kernel.{Key, Value, IterateKernel}
use maiter_p.StateTable.Defs.{StateTable, terminate}
use maiter_p.Iterators.Pass.{Progress, serialize_to_snapshot}
use maiter_p.Iterators.Results.{results, sum_values, serialize_to_snapshot-sum}

pub record Diff {ℓ} (R : Type ℓ) : Type ℓ where
  pub last : R
  pub curr : R

module _ {ℓ} {V R : Type ℓ} (progress : Progress V R) where
  unfoldable pub new_diff : Diff R
  new_diff = record { last = progress.lowest; curr = progress.zero_r }

  -- `Diff::terminate`
  unfoldable pub diff_terminate : R → Diff R → R → Diff R × Bool
  diff_terminate threshold checker total_current =
      if progress.at_most (progress.distance total_current checker.last) threshold
      then (record checker { curr = total_current }, true)
      else (record { last = total_current; curr = total_current }, false)

module _ {ℓ} {K V D : Type ℓ} where
  abbrev pub with_signal : Option (StateTable K V D) → Option (StateTable K V D)
  with_signal none = none
  with_signal (some t) = some (terminate t)

  pub data AllWide : List (StateTable K V D) → Type ℓ where
    no_table : AllWide []
    wide :
        {t : StateTable K V D} {later : List (StateTable K V D)}
        → length t.buckets ≡ t.size
        → AllWide later
        → AllWide (t ∷ later)

module _ {ℓ} {K V D R : Type ℓ} ⦃value : Value V⦄ ⦃kernel : IterateKernel K V D⦄
    ⦃progress : Progress V R⦄ where
  unfoldable pub termcheck : R → StateTable K V D → Diff R → Run (Diff R × Bool)
  termcheck threshold t checker = do
    (updates, total_current) ← serialize_to_snapshot t
    ok (diff_terminate progress threshold checker total_current)

  -- The loop of `TermCheck`, given the table as it is at each check. It ends when a check succeeds, and
  -- sets the signal in that table; `none` means that it is still running.
  unfoldable pub term_check : R → List (StateTable K V D) → Diff R → Run (Option (StateTable K V D))
  term_check threshold [] checker = ok none
  term_check threshold (t ∷ later) checker = do
    (checker', bterm) ← termcheck threshold t checker
    elim bterm [ true ↦ ok (some (terminate t)) | false ↦ term_check threshold later checker' ]

  -- The progress of a table: the sum of its values other than the default.
  abbrev pub progress_of : StateTable K V D → R
  progress_of t = sum_values kernel.default_v progress.zero_r (results t.buckets)

  -- The first table whose progress is within the threshold of that of the table before it.
  unfoldable pub first_still : R → R → List (StateTable K V D) → Option (StateTable K V D)
  first_still threshold last [] = none
  first_still threshold last (t ∷ later) =
      if progress.at_most (progress.distance (progress_of t) last) threshold
      then some t
      else first_still threshold (progress_of t) later

module _ {ℓ} {K V D R : Type ℓ} ⦃key : Key K⦄ ⦃value : Value V⦄ ⦃kernel : IterateKernel K V D⦄
    ⦃progress : Progress V R⦄ where
  -- For tables as wide as their sizes, the check for termination stops at the first whose progress is
  -- within the threshold of the one before, and sets only the signal there.
  pub term_check-first_still :
      (threshold : R) (ts : List (StateTable K V D)) (checker : Diff R)
      → AllWide ts
      → term_check threshold ts checker ≡ ok (with_signal (first_still threshold checker.last ts))
  unfolding term_check first_still termcheck diff_terminate
  term_check-first_still threshold [] checker no_table = refl
  term_check-first_still threshold (t ∷ later) checker (wide width all) =
      elim (Bool-cases
        (progress.at_most (progress.distance (progress_of t) checker.last) threshold)) [
          | inl h ↦ rw (serialize_to_snapshot-sum t width, h)
          | inr h ↦
              rw (serialize_to_snapshot-sum t width, h)
                (term_check-first_still threshold later _ all)
        ]
