-- ===== src/Maiter/Handshake.antt =====
-- How the schedule thread and the workers of src/kernel/kernel.h wait for each other: `obtain_iterator`
-- and `run_loop`, started by `runexcutethread`. A step is what a thread does between two points at which
-- others can come in: a region under `threadm` or `schedulem`, or one statement outside. A test that
-- fails and sleeps changes nothing, and is no step.
use maiter_p.Base.{
  ℕ, zero, suc, ◌+◌, ◌≤◌, ◌<◌, ◌≡◌, Bool, true, false, Option, none, some, ◌==◌, if◌then◌else◌,
}
pub mod Families
pub mod Invariant
pub mod Phases
pub mod Safety
pub mod Progress
pub mod Bounds
pub mod LostWakeup

-- Where the schedule thread is in `obtain_iterator`: before `get_typed_iterator`; in the loop that waits
-- for `count_wait`; before the broadcast; before `pthread_cond_wait`, and in it; before `delete`; in the
-- loop after the last round; at `pthread_exit`.
pub data Scheduler : Type 0 where
  obtaining polling broadcasting locking sleeping deleting closing ended : Scheduler

-- Where a worker is in `run_loop`: before `count_wait++`; in `pthread_cond_wait`, and woken from it; in the
-- loop over its positions, with an iterator; in the barrier, and behind it; at `pthread_exit`.
pub data Worker : Type 0 where
  starting waiting woken : Worker
  running : ℕ → Worker
  arrived passed exited : Worker

-- `Thread_Arg`, and where the threads are. The iterators are numbered as they are obtained, and
-- `deleted` of them are gone. `rounds` counts how often each worker has been through its positions.
pub record Handshake : Type 0 where
  pub count_wait : ℕ
  pub it2 : Option ℕ
  pub obtained : ℕ
  pub deleted : ℕ
  pub scheduler : Scheduler
  pub worker : ℕ → Worker
  pub rounds : ℕ → ℕ

abbrev pub change {ℓ} : {A : Type ℓ} → (ℕ → A) → ℕ → A → ℕ → A
change f i a j = if j == i then a else f j

-- `pthread_cond_broadcast(&threadc)`
abbrev pub wake_worker : Worker → Worker
wake_worker waiting = woken
wake_worker w = w

-- `pthread_cond_broadcast(&schedulec)`: nobody hears it but a thread that waits.
abbrev pub wake_scheduler : Scheduler → Scheduler
wake_scheduler sleeping = deleting
wake_scheduler s = s

-- `num_threads` workers. Where `spurious` is true, `pthread_cond_wait` may return with no broadcast.
pub data Step (num_threads : ℕ) (spurious : Bool) (s : Handshake) : Handshake → Type 0 where
  obtain :
      s.scheduler ≡ obtaining
      → Step num_threads spurious s
          (record s { scheduler = polling; it2 = some s.obtained; obtained = suc s.obtained })
  obtain_null :
      s.scheduler ≡ obtaining
      → Step num_threads spurious s (record s { scheduler = closing; it2 = none })
  pass :
      s.scheduler ≡ polling
      → num_threads ≤ s.count_wait
      → Step num_threads spurious s (record s { scheduler = broadcasting; count_wait = 0 })
  broadcast :
      s.scheduler ≡ broadcasting
      → Step num_threads spurious s
          (record s { scheduler = locking; worker = λ j. wake_worker (s.worker j) })
  sleep : s.scheduler ≡ locking → Step num_threads spurious s (record s { scheduler = sleeping })
  delete :
      s.scheduler ≡ deleting
      → Step num_threads spurious s (record s { scheduler = obtaining; deleted = suc s.deleted })
  finish :
      s.scheduler ≡ closing
      → num_threads ≤ s.count_wait
      → Step num_threads spurious s (record s { scheduler = ended })
  count :
      (i : ℕ)
      → i < num_threads
      → s.worker i ≡ starting
      → Step num_threads spurious s
          (record s { count_wait = s.count_wait + 1; worker = change s.worker i waiting })
  read :
      (i r : ℕ)
      → i < num_threads
      → s.worker i ≡ woken
      → s.it2 ≡ some r
      → Step num_threads spurious s (record s { worker = change s.worker i (running r) })
  leave :
      (i : ℕ)
      → i < num_threads
      → s.worker i ≡ woken
      → s.it2 ≡ none
      → Step num_threads spurious s (record s { worker = change s.worker i exited })
  arrive :
      (i r : ℕ)
      → i < num_threads
      → s.worker i ≡ running r
      → Step num_threads spurious s (record s {
        worker = change s.worker i arrived;
        rounds = change s.rounds i (suc (s.rounds i));
      })
  open_barrier :
      ((i : ℕ) → i < num_threads → s.worker i ≡ arrived)
      → Step num_threads spurious s (record s { worker = λ j. passed })
  signal :
      (i : ℕ)
      → i < num_threads
      → s.worker i ≡ passed
      → Step num_threads spurious s
          (record s { scheduler = wake_scheduler s.scheduler; worker = change s.worker i starting })
  wake_early :
      (i : ℕ)
      → spurious ≡ true
      → i < num_threads
      → s.worker i ≡ waiting
      → Step num_threads spurious s (record s { worker = change s.worker i woken })
  schedule_early :
      spurious ≡ true
      → s.scheduler ≡ sleeping
      → Step num_threads spurious s (record s { scheduler = deleting })

-- What `runexcutethread` starts.
abbrev pub started : Handshake
started = record {
  count_wait = 0;
  it2 = none;
  obtained = 0;
  deleted = 0;
  scheduler = obtaining;
  worker = λ i. starting;
  rounds = λ i. 0;
}

pub data Reach (num_threads : ℕ) (spurious : Bool) (r : Handshake) : Handshake → Type 0 where
  here : Reach num_threads spurious r r
  next :
      {s t : Handshake}
      → Reach num_threads spurious r s
      → Step num_threads spurious s t
      → Reach num_threads spurious r t
