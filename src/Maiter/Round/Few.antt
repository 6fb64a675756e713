-- ===== src/Maiter/Round/Few.antt =====
-- A round of the workers (src/kernel/kernel.h, `run_loop`) with fewer positions than threads.
use maiter_p.Base.{
  ℕ, suc, ◌+◌, ◌*◌, ◌<◌, ◌≡◌, refl, ap, ◌∙◌, true, ◌==◌, List, [], ◌∷◌, ◌++◌, fault, log_fatal,
  Returns, length, arith, Bool-cases, inl, inr,
}
use native.Mathlib.Nat.{div-eq_of_lt}
use maiter_p.Base.Int.{pos, negsuc}
use maiter_p.Kernel.{Key, Value, IterateKernel}
use maiter_p.Locks.{Vertexlock}
use maiter_p.StateTable.Defs.{StateTable}
use maiter_p.Iterators.Intervals.{
  Interval, pred_int, fill_intervals, set_intervals, thread_begin, thread_end, found_or_fatal,
  thread_positions,
}
use maiter_p.Global.{TableIterator}
use maiter_p.Maiter.Round.{share_out, run_round}
use maiter_p.Maiter.Round.Filled.{listed}
use maiter_p.Maiter.Round.Shares.{positions_of, share_out-eq}

-- A thread whose interval ends at -1.
record EndsBefore (id : ℕ) (ys : List Interval) : Type 0 where
  begins : thread_begin ys id ≡ pos 0
  ends : thread_end ys id ≡ negsuc 0

-- With shares of no position all intervals but the last end at -1.
fill-EndsBefore :
    (count i : ℕ) (xs : List Interval) (z : Interval)
    → Returns
        (fill_intervals count 0 i (xs ++ z ∷ []))
        λ ys. (id : ℕ) → listed xs id ≡ true → EndsBefore id ys
unfolding fill_intervals pred_int listed thread_begin thread_end
fill-EndsBefore count i [] z = (_, refl, λ id there. absurd (cc there))
fill-EndsBefore count i (x ∷ []) z =
    (_, refl, λ id there. record { begins = ground (arith, there); ends = ground (arith, there) })
fill-EndsBefore count i (x ∷ y ∷ xs) z =
    let (ys, filled, others) = fill-EndsBefore count (i + 1) (y ∷ xs) z in
    let first : Interval = record x {
      interval_first = pos (0 * i);
      interval_last = pred_int (0 * (i + 1));
    } in
    let none : 0 * (i + 1) ≡ 0 = omega arith in
    (
      first ∷ ys,
      rw (fill_intervals, filled),
      λ id there. elim (Bool-cases (x.thread_id == id)) [
        | inl e ↦ record { begins = rw e (ap pos (omega arith)); ends = rw e (ap pred_int none) }
        | inr e ↦
            let other = others id (ground (arith, there, e)) in
            record { begins = rw e other.begins; ends = rw e other.ends }
      ],
    )

module _ {ℓ} {K V D : Type ℓ} ⦃key : Key K⦄ ⦃value : Value V⦄ ⦃kernel : IterateKernel K V D⦄ where
  -- With fewer positions than threads, over either iterator: the positions are shared out, and the
  -- round of every thread whose interval is not the last one throws the exception of a LOG_FATAL line.
  pub run_round-few :
      (l : Vertexlock) (t : StateTable K V D) (it : TableIterator) (xs : List Interval)
      (z : Interval) (id : ℕ)
      → positions_of t it < suc (length xs)
      → listed xs id ≡ true
      → Returns
          (share_out t it (suc (length xs)) (xs ++ z ∷ []))
          λ ys. run_round l t it ys id ≡ fault log_fatal
  unfolding run_round thread_positions found_or_fatal set_intervals
  run_round-few l t it xs z id few there =
      let (ys, filled, ends) = fill-EndsBefore (positions_of t it) 0 xs z in
      let share = ends id there in
      (
        ys,
        share_out-eq t it (suc (length xs)) (xs ++ z ∷ [])
            ∙ ap (λ n. fill_intervals (positions_of t it) n 0 (xs ++ z ∷ [])) (div-eq_of_lt few)
            ∙ filled,
        rw (run_round, thread_positions, share.begins, share.ends),
      )
