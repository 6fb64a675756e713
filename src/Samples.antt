-- ===== src/Samples.antt =====
-- A small table that the tests run on: keys and values are numbers, and a kernel in which each vertex
-- sends its delta to every target.
use maiter_p.Base.{
  ℕ, zero, suc, ◌+◌, ◌<◌, ◌≡◌, refl, ap, Bool, true, false, List, [], ◌∷◌, Run, ok, ◌==◌, ==_iff,
  ltb, leb, arith, map, ◌∙◌, length, get_or,
}
use maiter_p.Kernel.{Key, Value, IterateKernel}
use maiter_p.Accumulation.{AccMonoid, Accumulative, along-add, along-default, sent}
use maiter_p.StateTable.Defs.{StateTable, Bucket}
use maiter_p.StateTable.Put.{blank}
use maiter_p.StateTable.Probe.{Fits, slot, probe, walk, hit}
use maiter_p.StateTable.Invariant.{WellFormed, IsProbed}
mod Witnesses
mod Runs
mod Parts
mod Programs
mod Strings
mod Threads
mod Rounds
mod Jobs
mod Hashes
mod Logs
mod Counts
mod Paths
mod Unset
mod Queries

instance abbrev pub number_key : Key ℕ
number_key = record {
  no_key = 0;
  beq = λ a b. a == b;
  beq_iff = ==_iff;
  hash = λ k. k;
  node = λ k. k;
}

instance abbrev pub number_value : Value ℕ
number_value = record { zero_v = 0; veq = λ a b. a == b; vlt = ltb; vge = λ a b. leb b a }

-- The first byte of a line is the key, and the others are the targets.
abbrev sample_line : List ℕ → ℕ → List ℕ → Run (ℕ × List ℕ)
sample_line [] k x = ok (k, x)
sample_line (b ∷ line) k x = ok (b, line)

instance abbrev pub number_kernel : IterateKernel ℕ ℕ (List ℕ)
number_kernel = record {
  no_data = [];
  read_data = sample_line;
  init_c = λ k x. k;
  default_v = 0;
  init_v = λ k x. 0;
  accumulate = λ a b. a + b;
  process_delta_v = λ k d v x. (d, v, x);
  priority = λ pri v d. d;
  g_func = λ k d v x. map (λ t. (t, d)) x;
}

abbrev pub cell : ℕ → ℕ → ℕ → List ℕ → Bucket ℕ ℕ (List ℕ)
cell k d v x = record { k = k; v1 = d; v2 = v; v3 = x; priority = d; in_use = true }

abbrev pub table : ℕ → ℕ → List (Bucket ℕ ℕ (List ℕ)) → StateTable ℕ ℕ (List ℕ)
table size entries us = record {
  buckets = us;
  entries = entries;
  size = size;
  total_updates = 0;
  terminated = false;
}

-- The keys 0 and 3, which share a home, and a free bucket.
abbrev pub pair : StateTable ℕ ℕ (List ℕ)
pair = table 3 2 (cell 0 1 0 (3 ∷ []) ∷ cell 3 2 0 (0 ∷ 0 ∷ []) ∷ blank ∷ [])

-- No free bucket, as many entries as buckets; and one entry too many.
abbrev pub crowd : ℕ → StateTable ℕ ℕ (List ℕ)
crowd entries = table 2 entries (cell 0 1 5 [] ∷ cell 1 2 6 [] ∷ [])

pair-IsProbed : IsProbed pair
unfolding probe walk blank get_or
pair-IsProbed zero h used = refl
pair-IsProbed (suc zero) h used = refl
pair-IsProbed (suc (suc zero)) h used = absurd (cc used)
pair-IsProbed (suc (suc (suc i))) h used = absurd (omega arith)

pub pair-WellFormed : WellFormed pair
pair-WellFormed = record {
  fits = record { width = refl; nonempty = omega arith; small = omega arith };
  probed = pair-IsProbed;
}

crowd-IsProbed : (e : ℕ) → IsProbed (crowd e)
unfolding probe walk get_or
crowd-IsProbed e zero h used = refl
crowd-IsProbed e (suc zero) h used = refl
crowd-IsProbed e (suc (suc i)) h used = absurd (omega arith)

pub crowd-WellFormed : (e : ℕ) → WellFormed (crowd e)
crowd-WellFormed e = record {
  fits = record { width = refl; nonempty = omega arith; small = omega arith };
  probed = crowd-IsProbed e;
}

number_monoid : AccMonoid number_kernel
number_monoid = record {
  acc_assoc = λ a b c. omega arith;
  acc_comm = λ a b. omega arith;
  acc_default = λ a. omega arith;
}

pub number_laws : Accumulative number_kernel
unfolding sent
number_laws = record {
  monoid = number_monoid;
  plain = λ k d v x. refl;
  by_delta = λ k d v x. refl;
  sent_add = λ k d e x j.
      along-add number_kernel number_monoid (λ l. l) (λ a l. a) j (λ a b l. refl) d e x;
  sent_default =
      λ k x j. along-default number_kernel number_monoid (λ l. l) (λ a l. a) j (λ l. refl) x;
}
