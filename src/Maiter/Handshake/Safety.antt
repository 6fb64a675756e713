-- ===== src/Maiter/Handshake/Safety.antt =====
-- What the waiting of the threads of src/kernel/kernel.h is for.
use maiter_p.Base.{ℕ, suc, ◌<◌, ◌≡◌, ◌≢◌, false, some, arith}
use maiter_p.Maiter.Handshake.{deleting, running, exited, Handshake, started, Reach}
use maiter_p.Maiter.Handshake.Phases.{Phase, between_rounds, at_broadcast, in_round}
use maiter_p.Maiter.Handshake.Invariant.{Reach-Sound}

-- With at least one worker, and as long as pthread_cond_wait returns only after a broadcast: in every
-- state that the threads reach, a worker in its loop over positions works with the iterator that the
-- schedule thread points to, which is not deleted, and has been through each iterator before it once.
pub running-current :
    {n : ℕ} {s : Handshake} (i r : ℕ)
    → 0 < n
    → Reach n false started s
    → i < n
    → s.worker i ≡ running r
    → (s.it2 ≡ some r) × (s.deleted ≡ r) × (s.rounds i ≡ r)
running-current {n} {s} i r some_worker reach lt runs = go (Reach-Sound some_worker reach).phase
  where
    go : Phase n s → (s.it2 ≡ some r) × (s.deleted ≡ r) × (s.rounds i ≡ r)
    go (between_rounds b) = absurd (ground (arith, b.outside i lt, runs))
    go (at_broadcast b) = absurd (ground (arith, b.all_wait i lt, runs))
    go (in_round b) =
        ground
          (arith, b.inside i lt, b.waited_for, (Reach-Sound some_worker reach).linked.pointed, runs)

-- Under the same conditions, when the schedule thread deletes an iterator, every worker has been
-- through it, and through each before it, once.
pub deleting-done :
    {n : ℕ} {s : Handshake} (i : ℕ)
    → 0 < n
    → Reach n false started s
    → i < n
    → s.scheduler ≡ deleting
    → s.rounds i ≡ suc s.deleted
deleting-done {n} {s} i some_worker reach lt at = go (Reach-Sound some_worker reach).phase
  where
    go : Phase n s → s.rounds i ≡ suc s.deleted
    go (between_rounds b) = ground (arith, b.outside i lt, at)
    go (at_broadcast b) = absurd (ground (arith, b.broadcasts, at))
    go (in_round b) = absurd (ground (arith, b.waited_for, at))

-- With at least one worker, and as long as pthread_cond_wait returns only after a broadcast, no worker
-- ever gets to its end.
pub worker_stays :
    {n : ℕ} {s : Handshake} (i : ℕ) → 0 < n → Reach n false started s → i < n → s.worker i ≢ exited
worker_stays {n} {s} i some_worker reach lt gone = go (Reach-Sound some_worker reach).phase
  where
    go : Phase n s → ⊥
    go (between_rounds b) = ground (arith, b.outside i lt, gone)
    go (at_broadcast b) = ground (arith, b.all_wait i lt, gone)
    go (in_round b) = ground (arith, b.inside i lt, gone)
