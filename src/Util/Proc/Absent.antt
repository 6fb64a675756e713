-- ===== src/Util/Proc/Absent.antt =====
-- What the queries of src/util/common.cc answer from a file without the label that they look for.
use maiter_p.Base.{
  ℕ, zero, suc, ◌-◌, ◌^◌, ◌<◌, ◌≡◌, refl, true, some, List, [], ◌∷◌, ok, fault, out_of_fuel, arith,
  length, And-true, ◌∙◌,
}
use maiter_p.Base.Int.{ℤ}
use maiter_p.Util.Proc.{
  Directive, blank, number, kilobytes, scan, read_memory, get_memory, get_memory_total,
  get_memory_rss, memory_format, mem_total, vm_rss, mhz_format, mhz_rest, cpu, read_frequency,
  get_processor_frequency, one_value, two_values, within_int,
}
use maiter_p.Util.Proc.Formats.{absent, absent-is_prefix, scan-Stops}

module _ (format : List Directive) (fuel : ℕ) (xs : List ℕ) where
  -- Where `fscanf` stores nothing, one byte of what it leaves is skipped.
  pub read_memory-end :
      scan format xs ≡ ([], []) → read_memory format (suc fuel) xs ≡ ok (2 ^ 64 - 1)
  unfolding read_memory one_value
  read_memory-end stops = rw (read_memory, stops, read_memory, stops)

  pub read_memory-skip :
      (c : ℕ) (rest : List ℕ)
      → scan format xs ≡ ([], c ∷ rest)
      → read_memory format (suc fuel) xs ≡ read_memory format fuel rest
  unfolding read_memory one_value
  read_memory-skip c rest stops = rw (read_memory, stops, read_memory, stops)

read_memory-left :
    (label : List ℕ) (format : List Directive) (fuel : ℕ) (xs left : List ℕ)
    → scan format xs ≡ ([], left)
    → length left < suc fuel
    → absent label left ≡ true
    → ((ys : List ℕ)
        → length ys < fuel
        → absent label ys ≡ true
        → read_memory format fuel ys ≡ ok (2 ^ 64 - 1))
    → read_memory format (suc fuel) xs ≡ ok (2 ^ 64 - 1)
unfolding absent
read_memory-left label format fuel xs [] stops below none_there ih =
    read_memory-end format fuel xs stops
read_memory-left label format fuel xs (x ∷ left) stops below none_there ih =
    read_memory-skip format fuel xs x left stops ∙ ih left (omega arith) (And-true _ _ none_there).1

read_memory-absent :
    (c : ℕ) (label : List ℕ) (fuel : ℕ) (xs : List ℕ)
    → length xs < fuel
    → absent (c ∷ label) xs ≡ true
    → read_memory (memory_format (c ∷ label)) fuel xs ≡ ok (2 ^ 64 - 1)
read_memory-absent c label zero xs below none_there = absurd (omega arith)
read_memory-absent c label (suc fuel) xs below none_there =
    let here =
      scan-Stops (c ∷ label) xs (blank ∷ number ∷ kilobytes)
        (absent-is_prefix c label xs none_there) in
    let shorter = here.shorter in
    read_memory-left (c ∷ label) (memory_format (c ∷ label)) fuel xs here.left here.stops
      (omega (arith, shorter)) (here.still (c ∷ label) none_there) (read_memory-absent c label fuel)

-- A file without its label: -1 in 64 bits, times 1024.
pub get_memory-absent :
    (c : ℕ) (label file : List ℕ)
    → absent (c ∷ label) file ≡ true
    → get_memory (memory_format (c ∷ label)) (some file) ≡ ok (2 ^ 64 - 1024)
unfolding get_memory
get_memory-absent c label file none_there =
    rw (get_memory, read_memory-absent c label (suc (length file)) file (omega arith) none_there)

frequency-left :
    (fuel : ℕ) (xs left : List ℕ)
    → scan mhz_format xs ≡ ([], left)
    → absent cpu left ≡ true
    → ((ys : List ℕ) → absent cpu ys ≡ true → read_frequency fuel ys ≡ fault out_of_fuel)
    → read_frequency (suc fuel) xs ≡ fault out_of_fuel
unfolding read_frequency two_values within_int absent
frequency-left fuel xs [] stops none_there ih =
    rw (read_frequency, stops, read_frequency, stops, read_frequency, stops) (ih [] refl)
frequency-left fuel xs (x ∷ left) stops none_there ih =
    rw (read_frequency, stops, read_frequency, stops, read_frequency, stops)
      (ih left (And-true _ _ none_there).1)

read_frequency-absent :
    (fuel : ℕ) (xs : List ℕ) → absent cpu xs ≡ true → read_frequency fuel xs ≡ fault out_of_fuel
unfolding read_frequency
read_frequency-absent zero xs none_there = refl
read_frequency-absent (suc fuel) xs none_there =
    let here =
      scan-Stops cpu xs mhz_rest (absent-is_prefix b'c' (b'p' ∷ b'u' ∷ []) xs none_there) in
    frequency-left fuel xs here.left here.stops (here.still cpu none_there)
      (read_frequency-absent fuel)

-- From a file without the label MemTotal: get_memory_total answers 2 to the 64 less 1024; from one
-- without the label VmRSS: get_memory_rss does; and from one without the letters cpu
-- get_processor_frequency never ends: no fuel is enough.
pub queries-absent {ℓ} :
    {R : Type ℓ} (freq : ℤ → ℤ → R) (meminfo status cpuinfo : List ℕ) (fuel : ℕ)
    → absent mem_total meminfo ≡ true
    → absent vm_rss status ≡ true
    → absent cpu cpuinfo ≡ true
    → (get_memory_total (some meminfo) ≡ ok (2 ^ 64 - 1024))
      × (get_memory_rss (some status) ≡ ok (2 ^ 64 - 1024))
      × (get_processor_frequency freq fuel (some cpuinfo) ≡ fault out_of_fuel)
unfolding get_memory_total get_memory_rss get_processor_frequency
queries-absent freq meminfo status cpuinfo fuel total rss mhz = (
  get_memory-absent b'M' _ meminfo total,
  get_memory-absent b'V' _ status rss,
  rw (get_processor_frequency, read_frequency-absent fuel cpuinfo mhz),
)
