-- ===== src/Maiter/Lifetime.antt =====
-- The objects that a job makes by `new` and gives back by `delete`: the main function of a program of
-- src/examples, with the constructors and destructors of src/kernel/kernel.h, src/kernel/globaltable.h,
-- src/kernel/table-registry.h and src/kernel/vertexlock-manager.h, and the entry that src/util/logger.h
-- makes for each thread that writes a line. (Its destructor gives that back when a thread exits, which
-- the main thread and the workers do not do.)
use maiter_p.Base.{
  ℕ, zero, suc, Bool, true, false, ◌&&◌, List, [], ◌∷◌, Run, ok, fault, uninitialized, bad_free,
  ◌>>=◌, ◌==◌, if◌then◌else◌,
}
pub mod Main
pub mod Leaks

-- The `new` expressions.
pub data Site : Type 0 where
  new_sharder new_iterkernel new_termchecker new_maiter new_run : Site
  new_globaltable new_marshal : Site
  new_descriptor new_key_marshal new_v1_marshal new_v2_marshal new_v3_marshal : Site
  new_factory new_statetable : Site
  new_kernel1 new_kernel2 new_kernel3 : Site
  new_vertexlock new_mutex new_thread_arg new_output new_iterator new_entirepass : Site
  new_streambuff : Site

unfoldable pub number : Site → ℕ
number new_sharder = 0
number new_iterkernel = 1
number new_termchecker = 2
number new_maiter = 3
number new_run = 4
number new_globaltable = 5
number new_marshal = 6
number new_descriptor = 7
number new_key_marshal = 8
number new_v1_marshal = 9
number new_v2_marshal = 10
number new_v3_marshal = 11
number new_factory = 12
number new_statetable = 13
number new_kernel1 = 14
number new_kernel2 = 15
number new_kernel3 = 16
number new_vertexlock = 17
number new_mutex = 18
number new_thread_arg = 19
number new_output = 20
number new_iterator = 21
number new_entirepass = 22
number new_streambuff = 23

-- An object is known by where it was made, and how often before.
pub record Object : Type 0 where
  pub site : Site
  pub index : ℕ

abbrev pub only : Site → Object
only s = record { site = s; index = 0 }

unfoldable pub same_object : Object → Object → Bool
unfolding number
same_object a b = (number a.site == number b.site) && (a.index == b.index)

pub data Pointer : Type 0 where
  unset null : Pointer
  to : Object → Pointer

-- The objects that are allocated, and the pointer members of the kernels, the global table and the
-- vertex locks, of which a job has one each.
pub record Memory : Type 0 where
  pub live : List Object
  pub sharder : Pointer
  pub iterkernel : Pointer
  pub termchecker : Pointer
  pub globaltable : Pointer
  pub m : Pointer
  pub statetable : Pointer
  pub maiterkernel : Pointer
  pub maiterkernel1 : Pointer
  pub maiterkernel2 : Pointer
  pub maiterkernel3 : Pointer
  pub it2 : Pointer
  pub vertexlock : Pointer
  pub mutex : Pointer

unfoldable pub give_back : List Object → Object → Run (List Object)
unfolding same_object
give_back [] o = fault bad_free
give_back (p ∷ live) o = elim (same_object o p) [
  | true ↦ ok live
  | false ↦ give_back live o >>= λ rest. ok (p ∷ rest)
]

-- `delete` of a pointer to an object with no destructor of its own.
unfoldable pub delete : Memory → Pointer → Run Memory
unfolding give_back
delete s unset = fault uninitialized
delete s null = ok s
delete s (to o) = do live ← give_back s.live o; ok (record s { live = live })

abbrev pub allocate : Site → ℕ → Memory → Memory
allocate site i s = record s { live = record { site = site; index = i } ∷ s.live }

-- `delete` of a pointer to an object whose destructor is `body`.
unfoldable pub destroy : (Memory → Run Memory) → Memory → Pointer → Run Memory
destroy body s unset = fault uninitialized
destroy body s null = ok s
destroy body s (to o) = do s₁ ← body s; delete s₁ (to o)
