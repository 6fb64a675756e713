-- ===== src/Maiter/Handshake/LostWakeup.antt =====
-- A run of the threads of src/kernel/kernel.h, for each number of workers, in which the workers are
-- through with the first round before the schedule thread waits for them.
use maiter_p.Base.{
  ℕ, zero, suc, ◌≤◌, ◌<◌, ◌≡◌, refl, ap, ◌∙◌, false, some, arith, ltb, if◌then◌else◌, inl,
}
use maiter_p.Maiter.Handshake.{
  Scheduler, polling, locking, sleeping, Worker, starting, waiting, woken, running, arrived, passed,
  Handshake, change, Step, obtain, pass, broadcast, sleep, count, read, arrive, open_barrier,
  signal, started, Reach, here, next,
}
use maiter_p.Maiter.Handshake.Progress.{Stranded, Stranded-stuck}

-- The first `k` of `n` workers have gone from `old` to `new`.
record Stage (n k : ℕ) (old new : Worker) (c : Scheduler) (counted : ℕ) (s : Handshake)
    : Type 0 where
  scheduler_is : s.scheduler ≡ c
  counted_is : s.count_wait ≡ counted
  points : s.it2 ≡ some 0
  moved : (i : ℕ) → i < n → s.worker i ≡ (if ltb i k then new else old)

module _ {n k : ℕ} {old new : Worker} {c : Scheduler} {counted : ℕ} {s : Handshake} where
  -- The worker `k` goes on.
  Stage-change :
      {t : Handshake} (counted' : ℕ)
      → Stage n k old new c counted s
      → t.scheduler ≡ c
      → t.count_wait ≡ counted'
      → t.it2 ≡ s.it2
      → t.worker ≡ change s.worker k new
      → Stage n (suc k) old new c counted' t
  Stage-change counted' p at m it e = record {
    scheduler_is = at;
    counted_is = m;
    points = it ∙ p.points;
    moved = λ i below. ap (λ f. f i) e ∙ ground (arith, p.moved i below);
  }

-- All have gone on, and none to what comes next.
Stage-restart :
    {n : ℕ} {old mid : Worker} {c : Scheduler} {counted : ℕ} {s : Handshake} (new : Worker)
    → Stage n n old mid c counted s
    → Stage n 0 mid new c counted s
Stage-restart new p = record {
  scheduler_is = p.scheduler_is;
  counted_is = p.counted_is;
  points = p.points;
  moved = λ i lt. ground (arith, p.moved i lt);
}

-- A state that the threads reach, with a property.
abbrev Reaches : ℕ → (Handshake → Type 0) → Type 0
Reaches n P = (s : Handshake) × Reach n false started s × P s

-- Each worker in turn takes a step.
sweep :
    (n : ℕ) (P : ℕ → Handshake → Type 0)
    → ((k : ℕ) (s : Handshake) → k < n → P k s → (t : Handshake) × Step n false s t × P (suc k) t)
    → Reaches n (P 0)
    → (k : ℕ) → k ≤ n
    → Reaches n (P k)
sweep n P move first zero h = first
sweep n P move first (suc k) h =
    let (s, reach, p) = sweep n P move first k (omega arith) in
    let (t, step, q) = move k s (omega arith) p in (t, next reach step, q)

module _ (n : ℕ) (some_worker : 0 < n) where
  first-Stage : Reaches n (Stage n 0 starting waiting polling 0)
  first-Stage = (
    _,
    next here (obtain refl),
    record { scheduler_is = refl; counted_is = refl; points = refl; moved = λ i lt. ground arith },
  )

  counted_in :
      (c : Scheduler) (k : ℕ) (s : Handshake)
      → k < n
      → Stage n k starting waiting c k s
      → (t : Handshake) × Step n false s t × Stage n (suc k) starting waiting c (suc k) t
  counted_in c k s lt p = (
    _,
    count k lt (ground (arith, p.moved k lt)),
    Stage-change (suc k) p p.scheduler_is (ground (arith, p.counted_is)) refl refl,
  )

  read_in :
      (k : ℕ) (s : Handshake)
      → k < n
      → Stage n k woken (running 0) locking 0 s
      → (t : Handshake) × Step n false s t × Stage n (suc k) woken (running 0) locking 0 t
  read_in k s lt p = (
    _,
    read k 0 lt (ground (arith, p.moved k lt)) p.points,
    Stage-change 0 p p.scheduler_is p.counted_is refl refl,
  )

  arrived_in :
      (k : ℕ) (s : Handshake)
      → k < n
      → Stage n k (running 0) arrived locking 0 s
      → (t : Handshake) × Step n false s t × Stage n (suc k) (running 0) arrived locking 0 t
  arrived_in k s lt p = (
    _,
    arrive k 0 lt (ground (arith, p.moved k lt)),
    Stage-change 0 p p.scheduler_is p.counted_is refl refl,
  )

  -- No one hears the broadcast.
  signalled_in :
      (k : ℕ) (s : Handshake)
      → k < n
      → Stage n k passed starting locking 0 s
      → (t : Handshake) × Step n false s t × Stage n (suc k) passed starting locking 0 t
  signalled_in k s lt p = (
    _,
    signal k lt (ground (arith, p.moved k lt)),
    Stage-change 0 p (ground (arith, p.scheduler_is)) p.counted_is refl refl,
  )

  broadcast-Stage : Reaches n (Stage n 0 woken (running 0) locking 0)
  broadcast-Stage =
      let (s, reach, p) =
        sweep n (λ k. Stage n k starting waiting polling k) (counted_in polling) first-Stage n
          (omega arith) in
      (
        _,
        next (next reach (pass p.scheduler_is (omega (arith, p.counted_is)))) (broadcast refl),
        record {
          scheduler_is = refl;
          counted_is = refl;
          points = p.points;
          moved = λ i lt. ground (arith, p.moved i lt);
        },
      )

  arrival-Stage : Reaches n (Stage n 0 (running 0) arrived locking 0)
  arrival-Stage =
      let (s, reach, p) =
        sweep n (λ k. Stage n k woken (running 0) locking 0) read_in broadcast-Stage n
          (omega arith) in
      (s, reach, Stage-restart arrived p)

  barrier-Stage : Reaches n (Stage n 0 passed starting locking 0)
  barrier-Stage =
      let (s, reach, p) =
        sweep n (λ k. Stage n k (running 0) arrived locking 0) arrived_in arrival-Stage n
          (omega arith) in
      (
        _,
        next reach (open_barrier (λ i lt. ground (arith, p.moved i lt))),
        record {
          scheduler_is = p.scheduler_is;
          counted_is = p.counted_is;
          points = p.points;
          moved = λ i lt. ground arith;
        },
      )

  return-Stage : Reaches n (Stage n 0 starting waiting locking 0)
  return-Stage =
      let (s, reach, p) =
        sweep n (λ k. Stage n k passed starting locking 0) signalled_in barrier-Stage n
          (omega arith) in
      (s, reach, Stage-restart waiting p)

  lost-Stranded : Reaches n (λ s. Stranded n s × (s.scheduler ≡ sleeping))
  lost-Stranded =
      let (s, reach, p) =
        sweep n (λ k. Stage n k starting waiting locking k) (counted_in locking) return-Stage n
          (omega arith) in
      (
        _,
        next reach (sleep p.scheduler_is),
        (record { all_wait = λ i lt. ground (arith, p.moved i lt); deaf = inl refl }, refl),
      )

-- For any number of workers, at least one, the threads reach a state in which the schedule thread
-- sleeps and no thread can take a step: the workers broadcast the end of the first round before it
-- waits for that.
pub wakeup_lost :
    (n : ℕ)
    → 0 < n
    → (s : Handshake) × Reach n false started s
      × (s.scheduler ≡ sleeping)
      × ((t : Handshake) → ¬ Step n false s t)
wakeup_lost n some_worker =
    let (s, reach, (stranded, at)) = lost-Stranded n some_worker in
    (s, reach, at, λ t. Stranded-stuck some_worker stranded)
