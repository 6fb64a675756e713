-- ===== src/Iterators/Cut.antt =====
-- The cut of `ScheduledIterator` (src/kernel/statetable.h): the threshold at `cut_index` in the sorted
-- sample, and what is scheduled by it.
use maiter_p.Base.{
  ℕ, zero, suc, ◌<◌, ◌≤◌, ◌≡◌, sym, ap, ◌∙◌, Bool, true, false, not, ◌&&◌, ◌||◌, List, [], ◌∷◌, ok,
  ◌>>=◌, >>=-eq-ok, ok-injective, Returns, ltb, ◌==◌, if◌then◌else◌, arith, length, get_or,
  Bool-cases, inl, inr,
}
use maiter_p.Kernel.{Key, Value, IterateKernel}
use maiter_p.StateTable.Defs.{StateTable, Bucket, at}
use maiter_p.StateTable.Put.{blank}
use maiter_p.StateTable.Probe.{slot, at-get_or}
use maiter_p.Iterators.Schedule.{
  sample_size, sampled, sort_priority, is_default, all_default, eligible, schedule,
}
use maiter_p.Iterators.Scheduled.{occurrences, schedule-eligible}
use maiter_p.Iterators.Sorted.{
  StrictWeak, count_where, above, not_below, sort_priority-count, sort_priority-length,
  sort_priority-IsDescending, count-above-le, count-not_below,
}

module _ {ℓ} {K V D : Type ℓ} where
  sampled-length :
      (t : StateTable K V D) (n : ℕ) (drawn : List ℕ) (us : List (Bucket K V D))
      → sampled t n drawn ≡ ok us
      → length us ≡ n
  unfolding sampled
  sampled-length t zero drawn us h = ap length (sym (ok-injective h))
  sampled-length t (suc n) [] us h = absurd (cc h)
  sampled-length t (suc n) (p ∷ drawn) us h =
      let (u, found, rest) =
        >>=-eq-ok (at t.buckets p)
          (λ u. elim u.in_use [
            | true ↦ sampled t n drawn >>= λ us. ok (u ∷ us)
            | false ↦ sampled t (suc n) drawn
          ])
          h in
      elim (Bool-cases u.in_use) [
        | inl used ↦
            let (vs, more, whole) =
              >>=-eq-ok (sampled t n drawn) (λ vs. ok (u ∷ vs)) (rw used at rest) in
            sym (ap length (ok-injective whole)) ∙ ap suc (sampled-length t n drawn vs more)
        | inr free ↦ sampled-length t (suc n) drawn us (rw free at rest)
      ]

module _ {ℓ} {K V D : Type ℓ} ⦃key : Key K⦄ ⦃value : Value V⦄ ⦃kernel : IterateKernel K V D⦄ where
  -- A bucket in use with a delta to spread.
  abbrev pub has_delta : StateTable K V D → ℕ → Bool
  has_delta t p = ltb p t.size && ((slot t p).in_use && not (is_default (slot t p)))

  -- `chosen` holds each position with a delta to spread and a priority above the threshold, and only such
  -- with a priority that is not below it, none twice; and of the sample at most `cut_index` stand above
  -- the threshold, and more than that not below it.
  pub record IsCut (t : StateTable K V D) (us : List (Bucket K V D)) (cut_index : ℕ)
      (chosen : List ℕ) (threshold : V) : Type ℓ where
    pub all_above :
        (p : ℕ)
        → (if has_delta t p && above threshold (slot t p) then 1 else 0) ≤ occurrences p chosen
    pub only_high :
        (p : ℕ)
        → occurrences p chosen ≤ (if has_delta t p && not_below threshold (slot t p) then 1 else 0)
    pub few_above : count_where (above threshold) us ≤ cut_index
    pub enough : cut_index < count_where (not_below threshold) us

  module _ (order : StrictWeak value) where
    -- What the test says of a bucket, whether or not it includes the threshold.
    eligible_bounds :
        (inclusive below : Bool) (threshold : V) (u : Bucket K V D) (n : ℕ)
        → n ≡ (if below then (if eligible inclusive threshold u then 1 else 0) else 0)
        → ((if (below && (u.in_use && not (is_default u))) && above threshold u then 1 else 0) ≤ n)
          × (n ≤ (
              if (below && (u.in_use && not (is_default u))) && not_below threshold u
              then 1
              else 0))
    unfolding eligible
    eligible_bounds inclusive below threshold u n h =
        let weak = order.asym threshold u.priority in
        let ge = order.ge_is u.priority threshold in
        (ground (arith, weak, ge, h), ground (arith, weak, ge, h))

    -- Where a position is scheduled once exactly if its bucket passes the test.
    IsCut-sorted :
        (t : StateTable K V D) (us : List (Bucket K V D)) (cut_index : ℕ) (cut : Bucket K V D)
        (inclusive : Bool) (chosen : List ℕ)
        → at (sort_priority us) cut_index ≡ ok cut
        → ((p : ℕ)
            → occurrences p chosen ≡ (
                if ltb p t.size
                then (if eligible inclusive cut.priority (slot t p) then 1 else 0)
                else 0))
        → IsCut t us cut_index chosen cut.priority
    IsCut-sorted t us cut_index cut inclusive chosen at_cut tells =
        let bounds = λ (p : ℕ).
          eligible_bounds inclusive (ltb p t.size) cut.priority (slot t p) (occurrences p chosen)
            (tells p) in
        let sorted = sort_priority-IsDescending order us in
        record {
          all_above = λ p. (bounds p).0;
          only_high = λ p. (bounds p).1;
          few_above =
              rw (← sort_priority-count (above cut.priority) us)
                (count-above-le order (sort_priority us) cut_index cut sorted at_cut);
          enough =
              rw (← sort_priority-count (not_below cut.priority) us)
                (count-not_below order (sort_priority us) cut_index cut sorted at_cut);
        }

    -- For priorities under a strict weak order, on a table as wide as its size with more entries than
    -- the sample, where the sample is drawn and not filtered out and the cut index is below its size:
    -- the schedule is made without asking for a repeat, and for some threshold each position with a
    -- delta to spread (in use, and not at the default) and a priority above the threshold is scheduled
    -- once; only positions with a delta to spread and a priority not below it are, once at most; and at
    -- most cut index buckets of the sample are above the threshold, and more than that not below it.
    pub schedule-IsCut :
        (t : StateTable K V D) (bfilter : Bool) (drawn : List ℕ) (cut_index : ℕ)
        (us : List (Bucket K V D))
        → length t.buckets ≡ t.size
        → sample_size < t.entries
        → sampled t sample_size drawn ≡ ok us
        → (bfilter && all_default us) ≡ false
        → cut_index < sample_size
        → Returns (schedule t bfilter drawn cut_index) λ s.
          (s.b_no_change ≡ false)
          × ((threshold : V) × IsCut t us cut_index s.scheduled_pos threshold)
    schedule-IsCut t bfilter drawn cut_index us width many sample change index =
        let size : length (sort_priority us) ≡ sample_size =
          sort_priority-length us ∙ sampled-length t sample_size drawn us sample in
        let cut = get_or (sort_priority us) cut_index blank in
        let first = get_or (sort_priority us) 0 blank in
        let at_cut = at-get_or (sort_priority us) cut_index blank (omega (arith, size)) in
        let at_first = at-get_or (sort_priority us) 0 blank (omega (arith, size)) in
        let (s, run, (no_change, tells)) =
          schedule-eligible t width bfilter drawn cut_index us cut first many sample change at_cut
            at_first in
        let inclusive = (cut_index == 0) || value.veq first.priority cut.priority in
        (
          s,
          run,
          (
            no_change,
            (cut.priority, IsCut-sorted t us cut_index cut inclusive s.scheduled_pos at_cut tells),
          ),
        )
