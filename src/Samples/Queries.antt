-- ===== src/Samples/Queries.antt =====
-- The theorems on memory, the spin lock and the queries to /proc, applied.
use maiter_p.Base.{
  ℕ, ◌≡◌, refl, some, List, [], ◌∷◌, ◌++◌, ok, fault, out_of_fuel, uninitialized, Returns, ◌-◌, ◌^◌,
}
use maiter_p.Base.Int.{pos}
use maiter_p.Maiter.Lifetime.{destroy, delete, give_back, same_object, number, to, only, new_run}
use maiter_p.Maiter.Lifetime.Main.{
  main_memory, main_objects, end_run, end_maiter, end_globaltable, end_base_globaltable,
}
use maiter_p.Maiter.Lifetime.Leaks.{leaked, main_memory-leaked}
use maiter_p.Util.SpinLock.{
  SpinLock, Reach, here, next, call, swap, spinning, inside, move, outside,
}
use maiter_p.Util.SpinLock.Exclusion.{Reach-exclusive}
use maiter_p.Util.Proc.{
  cpu, get_memory_total, get_memory_rss, get_processor_frequency, is_digit, read_digits, scan,
  number_at, unsigned_at, signed, two_values, within_int, read_frequency,
}
use maiter_p.Util.Proc.Formats.{absent, is_prefix}
use maiter_p.Util.Proc.Absent.{queries-absent}
use maiter_p.Util.StringPiece.{is_space, strip_front}

main_memory-leaked_example : Returns (main_memory 2 3 4) λ s. s.live ≡ leaked 2
main_memory-leaked_example = main_memory-leaked 2 3 4

-- A kernel that is deleted before it was registered: `globaltable` was never set.
deleted_early : destroy end_run main_objects (to (only new_run)) ≡ fault uninitialized
unfolding destroy end_run end_maiter end_globaltable end_base_globaltable delete give_back
    same_object number
deleted_early = refl

-- Thread 0 is inside, and thread 1 waits.
abbrev contended : SpinLock
contended = record {
  d = 1;
  spot = move (move (move (λ i. outside) 0 spinning) 1 spinning) 0 inside;
}

contended-Reach : Reach contended
contended-Reach = next (next (next here (call 0 refl)) (call 1 refl)) (swap 0 refl refl)

Reach-exclusive_example : ◌≡◌ {A = ℕ} 0 0 × (contended.d ≡ 1)
Reach-exclusive_example = Reach-exclusive contended-Reach 0 0 refl refl

-- "VmPeak: 9", and then the label, a tab and "120 kB".
abbrev peak : List ℕ
peak = b'V' ∷ b'm' ∷ b'P' ∷ b'e' ∷ b'a' ∷ b'k' ∷ b':' ∷ 32 ∷ b'9' ∷ []

abbrev in_kilobytes : List ℕ
in_kilobytes = 32 ∷ b'k' ∷ b'B' ∷ 10 ∷ []

queries-absent_example :
    (get_memory_total (some peak) ≡ ok (2 ^ 64 - 1024))
    × (get_memory_rss (some []) ≡ ok (2 ^ 64 - 1024))
    × (get_processor_frequency (λ a b. a) 9 (some peak) ≡ fault out_of_fuel)
unfolding absent is_prefix
queries-absent_example = queries-absent (λ a b. a) peak [] peak 9 refl refl refl

-- "cpu MHz\t: 2394.454": the fraction is stored as 454.
mhz_line :
    read_frequency 1 (
      cpu
      ++ (32 ∷ b'M' ∷ b'H' ∷ b'z' ∷ 9 ∷ b':' ∷ 32 ∷ b'2' ∷ b'3' ∷ b'9' ∷ b'4' ∷ b'.' ∷ b'4' ∷ b'5'
          ∷ b'4' ∷ 10 ∷ []))
    ≡ ok (pos 2394, pos 454)
unfolding read_frequency scan within_int strip_front is_space number_at unsigned_at is_digit
    read_digits signed two_values
mhz_line = refl
