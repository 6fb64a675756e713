-- ===== src/Maiter/Handshake/Progress.antt =====
-- Where the threads of src/kernel/kernel.h can go on, and where none can.
use maiter_p.Base.{ℕ, ◌≤◌, ◌<◌, ◌≡◌, refl, Bool, false, true, arith, ◌⊎◌, inl, inr, Option-cases}
use maiter_p.Maiter.Handshake.{
  Scheduler, obtaining, polling, broadcasting, locking, sleeping, deleting, closing, ended, Worker,
  starting, waiting, woken, running, arrived, passed, exited, Handshake, Step, obtain, obtain_null,
  pass, broadcast, sleep, delete, finish, count, read, leave, arrive, open_barrier, signal,
  wake_early, schedule_early, started, Reach,
}
use maiter_p.Maiter.Handshake.Families.{tally-all, all_or_one}
use maiter_p.Maiter.Handshake.Phases.{
  is_waiting, calm, Phase, BetweenRounds, InRound, between_rounds, at_broadcast, in_round,
}
use maiter_p.Maiter.Handshake.Invariant.{Reach-Sound}

-- Every worker waits for the schedule thread, which waits for them or has ended.
pub record Stranded (n : ℕ) (s : Handshake) : Type 0 where
  pub all_wait : (i : ℕ) → i < n → s.worker i ≡ waiting
  pub deaf : (s.scheduler ≡ sleeping) ⊎ (s.scheduler ≡ ended)

abbrev pub CanStep : ℕ → Handshake → Type 0
CanStep n s = (t : Handshake) × Step n false s t

abbrev is_arrived : Worker → Bool
is_arrived arrived = true
is_arrived w = false

-- Not held by a condition variable or the barrier, and not at its end.
abbrev is_free : Worker → Bool
is_free waiting = false
is_free arrived = false
is_free exited = false
is_free w = true

module _ (n : ℕ) (s : Handshake) where
  worker-CanStep : (i : ℕ) → i < n → (w : Worker) → s.worker i ≡ w → is_free w ≡ true → CanStep n s
  worker-CanStep i lt starting at free = (_, count i lt at)
  worker-CanStep i lt waiting at free = absurd (cc free)
  worker-CanStep i lt woken at free = elim (Option-cases s.it2) [
    | inl null ↦ (_, leave i lt at null)
    | inr (r, there) ↦ (_, read i r lt at there)
  ]
  worker-CanStep i lt (running r) at free = (_, arrive i r lt at)
  worker-CanStep i lt arrived at free = absurd (cc free)
  worker-CanStep i lt passed at free = (_, signal i lt at)
  worker-CanStep i lt exited at free = absurd (cc free)

  -- With all workers waiting, the schedule thread goes on, unless it waits or has ended.
  scheduler-CanStep :
      ((i : ℕ) → i < n → s.worker i ≡ waiting)
      → n ≤ s.count_wait
      → (c : Scheduler) → s.scheduler ≡ c
      → calm c ≡ true
      → CanStep n s ⊎ Stranded n s
  scheduler-CanStep all full obtaining at h = inl (_, obtain at)
  scheduler-CanStep all full polling at h = inl (_, pass at full)
  scheduler-CanStep all full broadcasting at h = absurd (cc h)
  scheduler-CanStep all full locking at h = inl (_, sleep at)
  scheduler-CanStep all full sleeping at h = inr (record { all_wait = all; deaf = inl at })
  scheduler-CanStep all full deleting at h = inl (_, delete at)
  scheduler-CanStep all full closing at h = inl (_, finish at full)
  scheduler-CanStep all full ended at h = inr (record { all_wait = all; deaf = inr at })

  between-CanStep : BetweenRounds n s → CanStep n s ⊎ Stranded n s
  between-CanStep b = elim (all_or_one is_waiting n s.worker) [
    | inl all ↦
        scheduler-CanStep (λ i lt. ground (arith, all i lt))
          (omega (arith, b.counted, tally-all is_waiting n s.worker all)) s.scheduler refl
          b.calm_there
    | inr (i, lt, not_waiting) ↦
        inl (worker-CanStep i lt (s.worker i) refl (ground (arith, b.outside i lt)))
  ]

  round-CanStep : InRound n s → CanStep n s
  round-CanStep b = elim (all_or_one is_arrived n s.worker) [
    | inl all ↦ (_, open_barrier (λ i lt. ground (arith, all i lt)))
    | inr (i, lt, not_arrived) ↦
        worker-CanStep i lt (s.worker i) refl (ground (arith, b.inside i lt))
  ]

  Phase-CanStep : Phase n s → CanStep n s ⊎ Stranded n s
  Phase-CanStep (between_rounds b) = between-CanStep b
  Phase-CanStep (at_broadcast b) = inl (_, broadcast b.broadcasts)
  Phase-CanStep (in_round b) = inl (round-CanStep b)

-- Under the same conditions, in every state that the threads reach one of them can go on, unless all
-- workers wait for a broadcast of the schedule thread, which waits for one of theirs or has ended.
pub Reach-CanStep :
    {n : ℕ} {s : Handshake} → 0 < n → Reach n false started s → CanStep n s ⊎ Stranded n s
Reach-CanStep {n} {s} some_worker reach = Phase-CanStep n s (Reach-Sound some_worker reach).phase

-- In a stranded state no thread can take a step.
pub Stranded-stuck : {n : ℕ} {s t : Handshake} → 0 < n → Stranded n s → ¬ Step n false s t
Stranded-stuck some_worker h (obtain at) = ground (arith, h.deaf)
Stranded-stuck some_worker h (obtain_null at) = ground (arith, h.deaf)
Stranded-stuck some_worker h (pass at full) = ground (arith, h.deaf)
Stranded-stuck some_worker h (broadcast at) = ground (arith, h.deaf)
Stranded-stuck some_worker h (sleep at) = ground (arith, h.deaf)
Stranded-stuck some_worker h (delete at) = ground (arith, h.deaf)
Stranded-stuck some_worker h (finish at full) = ground (arith, h.deaf)
Stranded-stuck some_worker h (signal i lt at) = ground (arith, h.all_wait i lt)
Stranded-stuck some_worker h (wake_early i false_true lt at) = cc false_true
Stranded-stuck some_worker h (schedule_early false_true at) = cc false_true
Stranded-stuck some_worker h (count i lt at) = ground (arith, h.all_wait i lt)
Stranded-stuck some_worker h (read i r lt at it) = ground (arith, h.all_wait i lt)
Stranded-stuck some_worker h (leave i lt at it) = ground (arith, h.all_wait i lt)
Stranded-stuck some_worker h (arrive i r lt at) = ground (arith, h.all_wait i lt)
Stranded-stuck some_worker h (open_barrier all) =
    ground (arith, h.all_wait 0 some_worker, all 0 some_worker)
