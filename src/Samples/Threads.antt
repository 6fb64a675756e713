-- ===== src/Samples/Threads.antt =====
-- Runs of a schedule thread and one worker, and the theorems on them.
use maiter_p.Base.{suc, ◌+◌, ◌*◌, ◌<◌, ◌≡◌, ◌≢◌, ◌⊎◌, refl, Bool, false, true, some, arith}
use maiter_p.Maiter.Handshake.{
  Handshake, Step, obtain, pass, broadcast, sleep, delete, count, read, arrive, open_barrier,
  signal, wake_early, started, Reach, here, next, sleeping, exited, running,
}
use maiter_p.Maiter.Handshake.Safety.{running-current, deleting-done, worker_stays}
use maiter_p.Maiter.Handshake.Progress.{CanStep, Stranded, Reach-CanStep}
use maiter_p.Maiter.Handshake.LostWakeup.{wakeup_lost}
use maiter_p.Maiter.Handshake.Bounds.{Quiet, stay, go_on, Quiet-lt}

-- The worker is in its first round.
abbrev busy : (early : Bool) → (s : Handshake) × Reach 1 early started s
busy early = (
  _,
  next
      (next
        (next (next (next here (obtain refl)) (count 0 (omega arith) refl))
          (pass refl (omega arith)))
        (broadcast refl))
      (read 0 0 (omega arith) refl refl),
)

-- The round is over, and the schedule thread was (told false).
abbrev told : (early : Bool) → (s : Handshake) × Reach 1 early started s
told early = (
  _,
  next
      (next (next (next (busy early).1 (sleep refl)) (arrive 0 0 (omega arith) refl))
        (open_barrier (λ i lt. ground arith)))
      (signal 0 (omega arith) refl),
)

running-current_example :
    ((busy false).0.it2 ≡ some 0) × ((busy false).0.deleted ≡ 0) × ((busy false).0.rounds 0 ≡ 0)
running-current_example = running-current 0 0 (omega arith) (busy false).1 (omega arith) refl

deleting-done_example : (told false).0.rounds 0 ≡ suc (told false).0.deleted
deleting-done_example = deleting-done 0 (omega arith) (told false).1 (omega arith) refl

worker_stays_example : (told false).0.worker 0 ≢ exited
worker_stays_example = worker_stays 0 (omega arith) (told false).1 (omega arith)

Reach-CanStep_example : CanStep 1 (told false).0 ⊎ Stranded 1 (told false).0
Reach-CanStep_example = Reach-CanStep (omega arith) (told false).1

wakeup_lost_example :
    (s : Handshake) × Reach 3 false started s
    × (s.scheduler ≡ sleeping)
    × ((t : Handshake) → ¬ Step 3 false s t)
wakeup_lost_example = wakeup_lost 3 (omega arith)

-- The schedule thread goes to sleep, before the round is over.
abbrev quiet : (t : Handshake) × Quiet 1 1 (busy false).0 t
quiet = (_, go_on stay (sleep refl) refl)

Quiet-lt_example : 1 < 8 * (1 * 5 + 1)
Quiet-lt_example = Quiet-lt (omega arith) quiet.1

-- Where `pthread_cond_wait` returns early, a worker works with an iterator that is gone.
stale_iterator :
    (s : Handshake) × Reach 1 true started s × (s.worker 0 ≡ running 0) × (s.deleted ≡ 1)
stale_iterator = (
  _,
  next
      (next (next (next (told true).1 (delete refl)) (count 0 (omega arith) refl))
        (wake_early 0 refl (omega arith) refl))
      (read 0 0 (omega arith) refl refl),
  refl,
  refl,
)
