-- ===== src/Util/Timer.antt =====
-- src/util/timer.h: a timer, and two macros that run an operation now and then. Times are in nanoseconds;
-- what the clock and the cycle counter read is an argument.
use maiter_p.Base.{
  ℕ, zero, suc, ◌+◌, ◌-◌, ◌*◌, ◌%◌, ◌/◌, ◌^◌, Bool, true, false, Run, ok, fault, out_of_range,
  division_by_zero, ◌>>=◌, ltb, ◌==◌, if◌then◌else◌, List, [], ◌∷◌,
}
use maiter_p.StateTable.Defs.{to_int}
pub mod Counted

-- The two halves of the counter.
unfoldable pub rdtsc : ℕ → ℕ → ℕ
rdtsc hi lo = hi * 2 ^ 32 + lo

-- `Now`, of `tv_sec` and `tv_nsec`.
unfoldable pub now : ℕ → ℕ → ℕ
now tv_sec tv_nsec = tv_sec * 10 ^ 9 + tv_nsec

pub record Timer : Type 0 where
  pub start_time : ℕ
  pub start_cycle : ℕ

-- `Reset`, and the constructor.
unfoldable pub reset : ℕ → ℕ → Timer
reset time cycle = record { start_time = time; start_cycle = cycle }

-- A monotonic clock does not go back; the cycle counter is a `uint64_t`.
unfoldable pub elapsed : Timer → ℕ → ℕ
elapsed t time = time - t.start_time

unfoldable pub cycles_elapsed : Timer → ℕ → ℕ
cycles_elapsed t cycle = (cycle + 2 ^ 64 - t.start_cycle) % 2 ^ 64

-- `EVERY_N`: whether the operation is run, and `COUNT` afterwards, an `int`.
unfoldable pub every_n : ℕ → ℕ → Run (Bool × ℕ)
unfolding to_int
every_n interval count = do
  c ← to_int (suc count)
  if interval == 0 then fault division_by_zero else ok (count % interval == 0, c)

-- How often the operation is run in so many passes, and `COUNT` afterwards.
unfoldable pub every_n_passes : ℕ → ℕ → ℕ → Run (ℕ × ℕ)
unfolding every_n
every_n_passes zero interval count = ok (0, count)
every_n_passes (suc passes) interval count = do
  (ran, c) ← every_n interval count
  (more, c') ← every_n_passes passes interval c
  ok ((if ran then suc more else more), c')

-- `PERIODIC`: `last` and `COUNT`.
pub record Periodic : Type 0 where
  pub last : ℕ
  pub count : ℕ

unfoldable pub periodic : ℕ → Periodic → ℕ → Bool × Periodic
periodic cycles p cycle =
    if ltb (p.last + cycles) cycle
    then (true, record { last = cycle; count = 0 })
    else (false, record p { count = p.count + 1 })

-- The readings at which the operation is run.
unfoldable pub periodic_runs : ℕ → Periodic → List ℕ → List ℕ
unfolding periodic
periodic_runs cycles p [] = []
periodic_runs cycles p (cycle ∷ later) =
    let (ran, p') = periodic cycles p cycle in
    let runs = periodic_runs cycles p' later in if ran then cycle ∷ runs else runs

-- `rate` and `cycle_rate`, by the quotient of two numbers as a `double`.
module _ {ℓ} {R : Type ℓ} (quotient : ℕ → ℕ → R) where
  unfoldable pub rate : Timer → ℕ → ℕ → R
  unfolding elapsed
  rate t count time = quotient count (elapsed t time)

  unfoldable pub cycle_rate : Timer → ℕ → ℕ → R
  unfolding cycles_elapsed
  cycle_rate t count cycle = quotient (cycles_elapsed t cycle) count

-- `Sleep` of src/util/common.cc: the seconds and nanoseconds that `nanosleep` is asked for.
unfoldable pub sleep_request : ℕ → Run (ℕ × ℕ)
unfolding to_int
sleep_request t = do tv_sec ← to_int (t / 10 ^ 9); ok (tv_sec, t % 10 ^ 9)
