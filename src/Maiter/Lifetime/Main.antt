-- ===== src/Maiter/Lifetime/Main.antt =====
-- A job from the `new` expressions of its main function (src/examples) through the three phases of
-- src/kernel/kernel.h to the destructors.
use maiter_p.Base.{ℕ, zero, suc, List, [], ◌∷◌, Run, ok, ◌>>=◌}
use maiter_p.Maiter.Lifetime.{
  Object, Memory, unset, null, to, only, allocate, delete, destroy, new_sharder, new_iterkernel,
  new_termchecker, new_maiter, new_run, new_globaltable, new_marshal, new_descriptor,
  new_key_marshal, new_v1_marshal, new_v2_marshal, new_v3_marshal, new_factory, new_statetable,
  new_kernel1, new_kernel2, new_kernel3, new_vertexlock, new_mutex, new_thread_arg, new_output,
  new_iterator, new_entirepass, new_streambuff,
}

-- `new MaiterKernel(new Sharding::Mod, ...)` and `new RunMaiterKernel(kernel)` of the main functions.
abbrev pub main_objects : Memory
main_objects = record {
  live =
      only new_run
      ∷ only new_maiter
      ∷ only new_termchecker
      ∷ only new_iterkernel
      ∷ only new_sharder
      ∷ [];
  sharder = to (only new_sharder);
  iterkernel = to (only new_iterkernel);
  termchecker = to (only new_termchecker);
  globaltable = unset;
  m = unset;
  statetable = unset;
  maiterkernel = to (only new_maiter);
  maiterkernel1 = unset;
  maiterkernel2 = unset;
  maiterkernel3 = unset;
  it2 = unset;
  vertexlock = unset;
  mutex = unset;
}

-- `registerMaiter`, with the constructor of `TypedGlobalTable`. It writes the first lines of the main
-- thread, and `start_stream` makes the entry of that thread, the first.
unfoldable pub register_objects : Memory → Memory
register_objects s =
    record (allocate new_streambuff 0 (allocate new_marshal 0 (allocate new_globaltable 0 s))) {
      globaltable = to (only new_globaltable);
      m = to (only new_marshal);
    }

-- The kernels of the three phases, with `set_maiter`.
unfoldable pub make_kernels : Memory → Memory
make_kernels s =
    record (allocate new_kernel3 0 (allocate new_kernel2 0 (allocate new_kernel1 0 s))) {
      maiterkernel1 = to (only new_kernel1);
      maiterkernel2 = to (only new_kernel2);
      maiterkernel3 = to (only new_kernel3);
      it2 = null;
    }

-- `InitStateTable`, by `CreateTable`. The state table keeps a copy of the descriptor.
unfoldable pub init_objects : Memory → Memory
init_objects s =
    let described = allocate new_v3_marshal 0 (
      allocate new_v2_marshal 0
        (allocate new_v1_marshal 0 (allocate new_key_marshal 0 (allocate new_descriptor 0 s)))) in
    record (allocate new_statetable 0 (allocate new_factory 0 described)) {
      statetable = to (only new_statetable);
    }

-- The start of `run_loop` in each worker: its output buffer, and the entry of the thread for its line.
unfoldable pub start_workers : ℕ → List Object → List Object
start_workers zero live = live
start_workers (suc n) live =
    record { site = new_streambuff; index = suc n }
    ∷ record { site = new_output; index = n }
    ∷ start_workers n live

-- The rounds of `obtain_iterator`, from iterator `i`.
unfoldable pub iterator_rounds : ℕ → ℕ → Memory → Run Memory
unfolding delete
iterator_rounds zero i s = ok (record s { it2 = null })
iterator_rounds (suc rounds) i s = do
  let it2 = to (record { site = new_iterator; index = i })
  s₁ ← delete (record (allocate new_iterator i s) { it2 = it2 }) it2
  iterator_rounds rounds (suc i) s₁

-- `serializeToSnapshot` in each round of `TermCheck`, and `dump`: a pass from number `i`.
unfoldable pub passes : ℕ → ℕ → Memory → Run Memory
unfolding delete
passes zero i s = ok s
passes (suc more) i s = do
  s₁ ← delete (allocate new_entirepass i s) (to (record { site = new_entirepass; index = i }))
  passes more (suc i) s₁

-- `run` of the second phase, with `runexcutethread`: the schedule thread obtains `rounds` iterators,
-- and exits, which gives back its entry; the main thread checks `checks` times.
unfoldable pub second_phase : ℕ → ℕ → ℕ → Memory → Run Memory
unfolding start_workers iterator_rounds passes delete
second_phase num_threads rounds checks s = do
  let locks = record (allocate new_mutex 0 (allocate new_vertexlock 0 s)) {
    vertexlock = to (only new_vertexlock);
    mutex = to (only new_mutex);
  }
  let s₁ = allocate new_thread_arg 0 locks
  let s₂ = record s₁ { live = start_workers num_threads s₁.live }
  let entry : Object = record { site = new_streambuff; index = suc num_threads }
  s₃ ← iterator_rounds rounds 0 (allocate new_streambuff (suc num_threads) s₂)
  s₄ ← delete s₃ (to entry)
  s₅ ← passes checks 0 s₄
  delete s₅ (to (only new_thread_arg))

-- `runMaiter`
unfoldable pub run_objects : ℕ → ℕ → ℕ → Memory → Run Memory
unfolding register_objects make_kernels init_objects second_phase passes
run_objects num_threads rounds checks s = do
  s₁ ← second_phase num_threads rounds checks (init_objects (make_kernels (register_objects s)))
  passes 1 checks s₁

-- `~GlobalTable`
unfoldable pub end_base_globaltable : Memory → Run Memory
unfolding delete
end_base_globaltable s = delete s s.statetable

-- `~TypedGlobalTable`, and then that of its base.
unfoldable pub end_globaltable : Memory → Run Memory
unfolding delete end_base_globaltable
end_globaltable s = do s₁ ← delete s s.m; end_base_globaltable s₁

-- `~MaiterKernel`; `~Vertexlock` and `~MaiterKernel2`; `~RunMaiterKernel`.
unfoldable pub end_maiter : Memory → Run Memory
unfolding delete destroy end_globaltable
end_maiter s = do
  s₁ ← delete s s.sharder
  s₂ ← delete s₁ s₁.iterkernel
  s₃ ← delete s₂ s₂.termchecker
  destroy end_globaltable s₃ s₃.globaltable

unfoldable pub end_vertexlock : Memory → Run Memory
unfolding delete
end_vertexlock s = delete s s.mutex

unfoldable pub end_kernel2 : Memory → Run Memory
unfolding delete destroy end_vertexlock
end_kernel2 s = do s₁ ← delete s s.it2; destroy end_vertexlock s₁ s₁.vertexlock

unfoldable pub end_run : Memory → Run Memory
unfolding delete destroy end_maiter end_kernel2
end_run s = do
  s₁ ← destroy end_maiter s s.maiterkernel
  s₂ ← delete s₁ s₁.maiterkernel1
  s₃ ← destroy end_kernel2 s₂ s₂.maiterkernel2
  delete s₃ s₃.maiterkernel3

-- A main function from its first `new` to `delete runkernel`.
unfoldable pub main_memory : ℕ → ℕ → ℕ → Run Memory
unfolding run_objects destroy end_run
main_memory num_threads rounds checks = do
  s ← run_objects num_threads rounds checks main_objects
  destroy end_run s (to (only new_run))
