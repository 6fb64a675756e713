-- ===== src/Maiter/Handshake/Bounds.antt =====
-- How long the threads of src/kernel/kernel.h can go on between two calls of `get_typed_iterator`.
use maiter_p.Base.{ℕ, suc, ◌+◌, ◌*◌, ◌≤◌, ◌<◌, ◌≡◌, false, arith}
use maiter_p.Maiter.Handshake.{
  Scheduler, obtaining, polling, broadcasting, locking, sleeping, deleting, closing, ended, Worker,
  starting, waiting, woken, running, arrived, passed, exited, Handshake, wake_worker, Step, obtain,
  obtain_null, pass, broadcast, sleep, delete, finish, count, read, leave, arrive, open_barrier,
  signal, wake_early, schedule_early,
}
use maiter_p.Maiter.Handshake.Families.{total, total-change, total-le, total-heavier, total-lighter}

-- How far a worker is from its wait for the next round.
abbrev steps_left : Worker → ℕ
steps_left woken = 5
steps_left (running r) = 4
steps_left arrived = 3
steps_left passed = 2
steps_left starting = 1
steps_left waiting = 0
steps_left exited = 0

abbrev stage : Scheduler → ℕ
stage polling = 7
stage broadcasting = 6
stage locking = 5
stage sleeping = 4
stage deleting = 3
stage obtaining = 2
stage closing = 1
stage ended = 0

unfoldable measure : ℕ → Handshake → ℕ
measure n s = stage s.scheduler * (n * 5 + 1) + total steps_left n s.worker

-- A run of so many steps in which no iterator is obtained.
pub data Quiet (n : ℕ) : ℕ → Handshake → Handshake → Type 0 where
  stay : {s : Handshake} → Quiet n 0 s s
  go_on :
      {k : ℕ} {r s t : Handshake}
      → Quiet n k r s
      → Step n false s t
      → t.obtained ≡ s.obtained
      → Quiet n (suc k) r t

module _ (n : ℕ) (some_worker : 0 < n) {s : Handshake} where
  Step-measure :
      {t : Handshake} → Step n false s t → t.obtained ≡ s.obtained → measure n t < measure n s
  unfolding measure
  Step-measure (obtain at) same = absurd (omega (arith, same))
  Step-measure (obtain_null at) same = ground arith
  Step-measure (pass at full) same = ground arith
  Step-measure (broadcast at) same = ground (
    arith,
    total-heavier steps_left 5 s.worker (λ j. wake_worker (s.worker j)) (λ i. ground arith) n,
  )
  Step-measure (sleep at) same = ground arith
  Step-measure (delete at) same = ground arith
  Step-measure (finish at full) same = ground arith
  Step-measure (count i lt at) same =
      ground (arith, total-change steps_left n s.worker i waiting lt)
  Step-measure (read i r lt at it) same =
      ground (arith, total-change steps_left n s.worker i (running r) lt)
  Step-measure (leave i lt at it) same =
      ground (arith, total-change steps_left n s.worker i exited lt)
  Step-measure (arrive i r lt at) same =
      ground (arith, total-change steps_left n s.worker i arrived lt)
  Step-measure (open_barrier all) same =
      ground (
        arith,
        total-lighter steps_left s.worker (λ j. passed) n (λ i lt. ground (arith, all i lt)),
      )
  Step-measure (signal i lt at) same =
      ground (arith, total-change steps_left n s.worker i starting lt)
  Step-measure (wake_early i false_true lt at) same = absurd (cc false_true)
  Step-measure (schedule_early false_true at) same = absurd (cc false_true)

measure-lt : (n : ℕ) (s : Handshake) → measure n s < 8 * (n * 5 + 1)
unfolding measure
measure-lt n s = ground (arith, total-le steps_left 5 (λ w. ground arith) n s.worker)

Quiet-measure : {n k : ℕ} {s t : Handshake} → 0 < n → Quiet n k s t → measure n t + k ≤ measure n s
Quiet-measure some_worker stay = omega arith
Quiet-measure {n} some_worker (go_on quiet step same) =
    omega (arith, Quiet-measure some_worker quiet, Step-measure n some_worker step same)

-- With n workers, at least one, and as long as pthread_cond_wait returns only after a broadcast, the
-- threads take fewer than 8 (5 n + 1) steps without obtaining an iterator.
pub Quiet-lt : {n k : ℕ} {s t : Handshake} → 0 < n → Quiet n k s t → k < 8 * (n * 5 + 1)
Quiet-lt {n} {s = s} some_worker quiet =
    omega (arith, Quiet-measure some_worker quiet, measure-lt n s)
