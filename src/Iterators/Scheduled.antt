-- ===== src/Iterators/Scheduled.antt =====
-- Which buckets `ScheduledIterator` (src/kernel/statetable.h) schedules.
use maiter_p.Base.{
  ℕ, zero, suc, ◌+◌, ◌<◌, ◌≤◌, ◌≡◌, refl, ap, ◌∙◌, Bool, true, false, ◌&&◌, ◌||◌, List, [], ◌∷◌, ok,
  Returns, ltb, leb, ◌==◌, if◌then◌else◌, arith, length, get_or,
}
use maiter_p.Kernel.{Key, Value, IterateKernel}
use maiter_p.StateTable.Defs.{StateTable, Bucket, at}
use maiter_p.StateTable.Put.{blank}
use maiter_p.StateTable.Probe.{slot}
use maiter_p.Iterators.Schedule.{
  sample_size, push_where, sampled, sort_priority, eligible, schedule, schedule_sampled,
  used_default, all_default,
}

-- How often a position is scheduled.
unfoldable pub occurrences : ℕ → List ℕ → ℕ
occurrences p [] = 0
occurrences p (q ∷ rest) = if q == p then suc (occurrences p rest) else occurrences p rest

module _ {ℓ} {K V D : Type ℓ} (test : Bucket K V D → Bool) (o : Bucket K V D) where
  push_where-before :
      (us : List (Bucket K V D)) (i p : ℕ) → p < i → occurrences p (push_where test i us) ≡ 0
  unfolding occurrences push_where
  push_where-before [] i p h = refl
  push_where-before (u ∷ us) i p h =
      let rest = push_where-before us (suc i) p (omega arith) in ground (arith, rest)

  -- The bucket `p` places on is pushed once if it passes the test.
  push_where-occurrences :
      (us : List (Bucket K V D)) (i p : ℕ)
      → occurrences (i + p) (push_where test i us)
        ≡ (if ltb p (length us) then (if test (get_or us p o) then 1 else 0) else 0)
  unfolding occurrences push_where get_or
  push_where-occurrences [] i p = ground arith
  push_where-occurrences (u ∷ us) i zero =
      let rest = push_where-before us (suc i) (i + 0) (omega arith) in ground (arith, rest)
  push_where-occurrences (u ∷ us) i (suc p) =
      let rest : occurrences (i + suc p) (push_where test (suc i) us)
          ≡ (if ltb p (length us) then (if test (get_or us p o) then 1 else 0) else 0) =
        ap (λ n. occurrences n (push_where test (suc i) us)) (omega arith)
        ∙ push_where-occurrences us (suc i) p in
      ground (arith, rest)

module _ {ℓ} {K V D : Type ℓ} ⦃key : Key K⦄ ⦃value : Value V⦄ ⦃kernel : IterateKernel K V D⦄
    (t : StateTable K V D) (width : length t.buckets ≡ t.size) (bfilter : Bool) (drawn : List ℕ)
    (cut_index : ℕ) where
  pushed :
      (test : Bucket K V D → Bool) (p : ℕ)
      → occurrences p (push_where test 0 t.buckets)
        ≡ (if ltb p t.size then (if test (slot t p) then 1 else 0) else 0)
  pushed test p =
      ap (λ n. occurrences n (push_where test 0 t.buckets)) (omega arith)
      ∙ push_where-occurrences test blank t.buckets 0 p
      ∙ ap (λ n. if ltb p n then (if test (slot t p) then 1 else 0) else 0) width

  -- On a table as wide as its size with no more entries than the sample, the schedule is every bucket
  -- in use, once.
  pub schedule-all :
      t.entries ≤ sample_size
      → Returns (schedule t bfilter drawn cut_index) λ s.
        (p : ℕ)
        → occurrences p s.scheduled_pos
          ≡ (if ltb p t.size then (if (slot t p).in_use then 1 else 0) else 0)
  unfolding schedule
  schedule-all few =
      let small : leb t.entries sample_size ≡ true = ground arith in
      (
        record {
          scheduled_pos = push_where (λ u. u.in_use) 0 t.buckets;
          b_no_change = bfilter && used_default t.buckets;
        },
        rw (schedule, small),
        pushed (λ u. u.in_use),
      )

  cut_run :
      (us : List (Bucket K V D)) (cut first : Bucket K V D)
      → (bfilter && all_default us) ≡ false
      → at (sort_priority us) cut_index ≡ ok cut
      → at (sort_priority us) 0 ≡ ok first
      → schedule_sampled t bfilter us cut_index
        ≡ ok (record {
          scheduled_pos =
              push_where
                (eligible ((cut_index == 0) || value.veq first.priority cut.priority) cut.priority)
                0
                t.buckets;
          b_no_change = false;
        })
  unfolding schedule_sampled
  cut_run us cut first change at_cut at_first = rw (schedule_sampled, change, at_cut, at_first)

  -- On a table as wide as its size with more entries than the sample, where the sample is drawn and not
  -- filtered out and has a bucket at the cut, every position is scheduled once if its bucket is in use,
  -- has a delta other than the default and a priority above that of the cut (or at it, where the cut is
  -- the first or ties with it), and not at all otherwise.
  pub schedule-eligible :
      (us : List (Bucket K V D)) (cut first : Bucket K V D)
      → sample_size < t.entries
      → sampled t sample_size drawn ≡ ok us
      → (bfilter && all_default us) ≡ false
      → at (sort_priority us) cut_index ≡ ok cut
      → at (sort_priority us) 0 ≡ ok first
      → Returns (schedule t bfilter drawn cut_index) λ s.
        (s.b_no_change ≡ false)
        × ((p : ℕ)
            → occurrences p s.scheduled_pos ≡ (
                if ltb p t.size
                then (if eligible
                      ((cut_index == 0) || value.veq first.priority cut.priority)
                      cut.priority
                      (slot t p)
                    then 1
                    else 0)
                else 0))
  unfolding schedule
  schedule-eligible us cut first many sample change at_cut at_first =
      let large : leb t.entries sample_size ≡ false = ground arith in
      let test =
        eligible ((cut_index == 0) || value.veq first.priority cut.priority) cut.priority in
      (
        record { scheduled_pos = push_where test 0 t.buckets; b_no_change = false },
        rw (schedule, large, sample) (cut_run us cut first change at_cut at_first),
        (refl, pushed test),
      )
