-- ===== src/Locks.antt =====
-- src/kernel/vertexlock-manager.h: one mutex for each vertex, found by the vertex's number.
use maiter_p.Base.{
  ℕ, zero, suc, ◌<◌, ◌≡◌, refl, ap, Bool, true, false, List, [], ◌∷◌, Run, ok, fault, blocked,
  assertion, ◌>>=◌, arith, if◌then◌else◌, length, get_or, set, replicate, length-set, get_or-set,
  ==_self,
}
use maiter_p.StateTable.Defs.{at}
use maiter_p.StateTable.Probe.{at-get_or}

-- Which mutexes are held.
pub record Vertexlock : Type 0 where
  pub mutex : List Bool

-- The constructor and `Initmutex`.
unfoldable pub init_mutex : ℕ → Vertexlock
init_mutex num_nodes = record { mutex = replicate num_nodes false }

-- A thread waits at a held mutex: the step is `blocked` until it is free.
unfoldable pub lock : Vertexlock → ℕ → Run Vertexlock
unfolding at
lock l node = do
  held ← at l.mutex node
  if held then fault blocked else ok (record { mutex = set l.mutex node true })

unfoldable pub unlock : Vertexlock → ℕ → Run Vertexlock
unfolding at
unlock l node = do held ← at l.mutex node; ok (record { mutex = set l.mutex node false })

unfoldable pub try_lock : Vertexlock → ℕ → Run (Bool × Vertexlock)
unfolding at
try_lock l node = do
  held ← at l.mutex node
  ok (if held then (false, l) else (true, record { mutex = set l.mutex node true }))

-- `Destroymutex`: a mutex that is held cannot be destroyed.
unfoldable pub destroy_mutexes : List Bool → Run (List Bool)
destroy_mutexes [] = ok []
destroy_mutexes (held ∷ mutex) = if held then fault assertion else destroy_mutexes mutex

unfoldable pub destroy_mutex : Vertexlock → Run Vertexlock
unfolding destroy_mutexes
destroy_mutex l = do mutex ← destroy_mutexes l.mutex; ok (record { mutex = mutex })

destroy_mutexes-free : (n : ℕ) → destroy_mutexes (replicate n false) ≡ ok []
unfolding destroy_mutexes
destroy_mutexes-free zero = refl
destroy_mutexes-free (suc n) = destroy_mutexes-free n

-- As they were made, they can be destroyed.
pub destroy_mutex-init : (n : ℕ) → destroy_mutex (init_mutex n) ≡ ok (record { mutex = [] })
unfolding destroy_mutex init_mutex
destroy_mutex-init n = rw (destroy_mutexes-free n)

-- A mutex is free; out of range there is none.
abbrev pub IsFree : Vertexlock → ℕ → Type 0
IsFree l node = (node < length l.mutex) × (get_or l.mutex node true ≡ false)

set-set_same {ℓ} :
    {A : Type ℓ} (xs : List A) (i : ℕ) (a b d : A)
    → get_or xs i d ≡ b
    → i < length xs
    → set (set xs i a) i b ≡ xs
unfolding get_or
set-set_same [] i a b d e h = refl
set-set_same (x ∷ xs) zero a b d e h = ground arith
set-set_same (x ∷ xs) (suc i) a b d e h = ground (arith, set-set_same xs i a b d)

abbrev pub locked : Vertexlock → ℕ → Vertexlock
locked l node = record { mutex = set l.mutex node true }

module _ (l : Vertexlock) (node : ℕ) (free : IsFree l node) where
  pub lock-free : lock l node ≡ ok (locked l node)
  unfolding lock
  lock-free = rw (at-get_or l.mutex node true free.0, free.1)

  pub unlock-locked : unlock (locked l node) node ≡ ok l
  unfolding unlock
  unlock-locked = rw (at-get_or (set l.mutex node true) node true (rw length-set free.0)) (
      ap (λ m. ok (record { mutex = m })) (set-set_same l.mutex node true false true free.1 free.0))

  -- On a mutex that is free, after lock a second lock waits, try_lock fails and changes nothing, and
  -- unlock gives the locks back.
  pub lock-exclusive :
      (lock l node >>= (λ m. lock m node) ≡ fault blocked)
      × (lock l node >>= (λ m. try_lock m node) ≡ ok (false, locked l node))
      × (lock l node >>= (λ m. unlock m node) ≡ ok l)
  unfolding lock unlock try_lock
  lock-exclusive =
      let e = at-get_or l.mutex node true free.0 in
      let held = at-get_or (set l.mutex node true) node true (rw length-set free.0) in
      let there : get_or (set l.mutex node true) node true ≡ true =
        rw (get_or-set l.mutex node node true true free.0, ==_self node) in
      (rw (e, free.1, held, there), rw (e, free.1, held, there), rw (e, free.1) unlock-locked)
