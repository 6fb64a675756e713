-- ===== src/Maiter/Lifetime/Leaks.antt =====
-- What a job leaves allocated (src/kernel/kernel.h).
use maiter_p.Base.{
  ℕ, zero, suc, ◌≡◌, refl, false, List, [], ◌∷◌, ok, fault, ◌>>=◌, ◌==◌, Returns, ==_self,
}
use maiter_p.Maiter.Lifetime.{
  Object, Memory, only, same_object, give_back, new_output, new_streambuff, new_descriptor,
  new_key_marshal, new_v1_marshal, new_v2_marshal, new_v3_marshal, new_factory, new_iterator, to,
  null, delete, destroy, number, new_globaltable, new_marshal, new_statetable, new_kernel1,
  new_kernel2, new_kernel3, new_vertexlock, new_mutex, new_thread_arg, new_sharder, new_iterkernel,
  new_termchecker, new_maiter, new_run,
}
use maiter_p.Maiter.Lifetime.Main.{
  start_workers, iterator_rounds, passes, main_memory, second_phase, run_objects, end_run,
  end_maiter, end_globaltable, end_base_globaltable, end_kernel2, end_vertexlock, main_objects,
}

-- The rounds leave what was allocated before, and no iterator.
iterator_rounds_lem :
    (rounds i : ℕ) (s : Memory) → iterator_rounds rounds i s ≡ ok (record s { it2 = null })
unfolding iterator_rounds delete give_back same_object number
iterator_rounds_lem zero i s = refl
iterator_rounds_lem (suc rounds) i s =
    let made : Object = record { site = new_iterator; index = i } in
    rw (iterator_rounds, delete, give_back, same_object, ==_self i)
      (iterator_rounds_lem rounds (suc i) (record s { it2 = to made }))

passes_lem : (more i : ℕ) (s : Memory) → passes more i s ≡ ok s
unfolding passes delete give_back same_object number
passes_lem zero i s = refl
passes_lem (suc more) i s =
    rw (passes, delete, give_back, same_object, ==_self i) (passes_lem more (suc i) s)

-- An object that is neither an output buffer nor the entry of a thread is looked for behind those.
give_back-workers :
    (n : ℕ) (o : Object)
    → (number o.site == 20) ≡ false
    → (number o.site == 23) ≡ false
    → (live : List Object)
    → give_back (start_workers n live) o ≡ (give_back live o >>= λ rest. ok (start_workers n rest))
unfolding start_workers give_back same_object number
give_back-workers zero o other apart live =
    elim (give_back live o) as (λ r. r ≡ (r >>= λ rest. ok rest)) [ ok a ↦ refl | fault e ↦ refl ]
give_back-workers (suc n) o other apart live =
    rw
      (
        give_back,
        same_object,
        apart,
        give_back,
        same_object,
        other,
        give_back-workers n o other apart live,
      )
      (elim (give_back live o)
        as (λ r.
          (((r >>= λ rest. ok (start_workers n rest)) >>= λ rest.
          ok (record { site = new_output; index = n } ∷ rest))
            >>= λ rest. ok (record { site = new_streambuff; index = suc n } ∷ rest))
          ≡ (r >>= λ rest. ok (start_workers (suc n) rest))) [ ok a ↦ refl | fault e ↦ refl ])

-- What is left: the descriptor, its marshals and factory, the entry of the main thread, and the buffer
-- and the entry of each worker.
abbrev pub leaked : ℕ → List Object
leaked n = start_workers n (
    only new_factory
    ∷ only new_v3_marshal
    ∷ only new_v2_marshal
    ∷ only new_v1_marshal
    ∷ only new_key_marshal
    ∷ only new_descriptor
    ∷ only new_streambuff
    ∷ [])

-- The memory after the last `delete`.
ended : ℕ → Memory
ended n = record main_objects {
  live = leaked n;
  globaltable = to (only new_globaltable);
  m = to (only new_marshal);
  statetable = to (only new_statetable);
  maiterkernel1 = to (only new_kernel1);
  maiterkernel2 = to (only new_kernel2);
  maiterkernel3 = to (only new_kernel3);
  it2 = null;
  vertexlock = to (only new_vertexlock);
  mutex = to (only new_mutex);
}

-- The memory after `runMaiter`.
ran : ℕ → Memory
unfolding ended
ran n = record (ended n) {
  live = start_workers n (
      only new_mutex
      ∷ only new_vertexlock
      ∷ only new_statetable
      ∷ only new_factory
      ∷ only new_v3_marshal
      ∷ only new_v2_marshal
      ∷ only new_v1_marshal
      ∷ only new_key_marshal
      ∷ only new_descriptor
      ∷ only new_kernel3
      ∷ only new_kernel2
      ∷ only new_kernel1
      ∷ only new_streambuff
      ∷ only new_marshal
      ∷ only new_globaltable
      ∷ only new_run
      ∷ only new_maiter
      ∷ only new_termchecker
      ∷ only new_iterkernel
      ∷ only new_sharder
      ∷ []);
}

run_objects-ran : (n rounds checks : ℕ) → run_objects n rounds checks main_objects ≡ ok (ran n)
unfolding run_objects second_phase delete ran ended give_back
run_objects-ran n rounds checks = rw (
  run_objects,
  second_phase,
  iterator_rounds_lem,
  delete,
  give_back,
  same_object,
  ==_self (suc n),
  passes_lem,
  delete,
  give_back-workers n (only new_thread_arg) refl refl,
  passes_lem,
)

end_run-ended : (n : ℕ) → destroy end_run (ran n) (to (only new_run)) ≡ ok (ended n)
unfolding destroy delete end_run end_maiter end_globaltable end_base_globaltable end_kernel2
    end_vertexlock ran ended give_back
end_run-ended n = rw (
  give_back-workers n (only new_sharder) refl refl,
  give_back-workers n (only new_iterkernel) refl refl,
  give_back-workers n (only new_termchecker) refl refl,
  give_back-workers n (only new_marshal) refl refl,
  give_back-workers n (only new_statetable) refl refl,
  give_back-workers n (only new_globaltable) refl refl,
  give_back-workers n (only new_maiter) refl refl,
  give_back-workers n (only new_kernel1) refl refl,
  give_back-workers n (only new_mutex) refl refl,
  give_back-workers n (only new_vertexlock) refl refl,
  give_back-workers n (only new_kernel2) refl refl,
  give_back-workers n (only new_kernel3) refl refl,
  give_back-workers n (only new_run) refl refl,
)

-- From the first new of a main function to its last delete, for any number of workers, rounds and
-- checks for termination: the job deletes only pointers that are set, to objects that are allocated,
-- and what stays allocated is the descriptor of the table, its four marshals, its factory, the log
-- entry of the main thread, and an output buffer and a log entry for each worker.
pub main_memory-leaked :
    (num_threads rounds checks : ℕ)
    → Returns (main_memory num_threads rounds checks) λ s. s.live ≡ leaked num_threads
unfolding main_memory ended
main_memory-leaked n rounds checks =
    (ended n, rw (main_memory, run_objects-ran n rounds checks) (end_run-ended n), refl)
