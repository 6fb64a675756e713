-- ===== src/Util/Histogram.antt =====
-- `Histogram` of src/util/common.h and src/util/common.cc. `double` and its functions are parameters.
use maiter_p.Base.{
  ℕ, zero, suc, ◌+◌, ◌-◌, ◌*◌, ◌/◌, ◌^◌, Bool, true, false, List, [], ◌∷◌, ◌++◌, Run, ok, fault,
  division_by_zero, out_of_range, ◌>>=◌, ltb, leb, ◌==◌, if◌then◌else◌, length, replicate, set,
  get_or, take,
}
pub mod Bars

-- What the buckets ask of `double`. `trunc` is the cast to `int` of a number that is not negative.
pub record Logarithms {ℓ} (R : Type ℓ) : Type ℓ where
  pub zero_r : R
  pub less : R → R → Bool
  pub plus : R → R → R
  pub times : R → R → R
  pub over : R → R → R
  pub ln : R → R
  pub e_to : R → R
  pub of_nat : ℕ → R
  pub trunc : R → ℕ
  pub min_val : R
  pub log_base : R

module _ {ℓ} {R : Type ℓ} ⦃logs : Logarithms R⦄ where
  unfoldable pub bucket_for_val : R → ℕ
  bucket_for_val v =
      if logs.less v logs.min_val
      then 0
      else 1
        + logs.trunc (
            logs.over (logs.ln (logs.plus (logs.over v logs.min_val) logs.log_base))
              (logs.ln logs.log_base))

  unfoldable pub val_for_bucket : ℕ → R
  val_for_bucket zero = logs.zero_r
  val_for_bucket (suc b) =
      logs.times (logs.e_to (logs.times (logs.ln logs.log_base) (logs.of_nat b))) logs.min_val

pub record Histogram : Type 0 where
  pub count : ℕ
  pub buckets : List ℕ

unfoldable pub histogram : Histogram
histogram = record { count = 0; buckets = [] }

unfoldable pub get_count : Histogram → ℕ
get_count h = h.count

-- `resize` to a size that is not smaller.
unfoldable pub widen : List ℕ → ℕ → List ℕ
widen buckets n = buckets ++ replicate (n - length buckets) 0

unfoldable pub add_to_bucket : Histogram → ℕ → Histogram
unfolding widen
add_to_bucket h b =
    let buckets = if leb (length h.buckets) b then widen h.buckets (b + 1) else h.buckets in
    record { count = h.count + 1; buckets = set buckets b (get_or buckets b 0 + 1) }

module _ {ℓ} {R : Type ℓ} ⦃logs : Logarithms R⦄ where
  unfoldable pub add : Histogram → R → Histogram
  unfolding bucket_for_val add_to_bucket
  add h val = add_to_bucket h (bucket_for_val val)

-- The first loop of `summary`.
unfoldable pub total : List ℕ → ℕ
total [] = 0
total (n ∷ buckets) = n + total buckets

-- `buckets[i] * 80 / total`, in `int`.
unfoldable pub bar_length : ℕ → ℕ → Run ℕ
bar_length n zero = fault division_by_zero
bar_length n (suc sum) = if ltb (n * 80) (2 ^ 31) then ok (n * 80 / suc sum) else fault out_of_range

-- A line of `summary`: the value, the count, and the bar cut from a hundred `#`.
module _ {ℓ} {R : Type ℓ} ⦃logs : Logarithms R⦄ where
  unfoldable pub summary_from : List ℕ → ℕ → ℕ → Run (List (R × ℕ × List ℕ))
  unfolding val_for_bucket bar_length
  summary_from [] i sum = ok []
  summary_from (zero ∷ buckets) i sum = summary_from buckets (suc i) sum
  summary_from (suc n ∷ buckets) i sum = do
    bar ← bar_length (suc n) sum
    lines ← summary_from buckets (suc i) sum
    ok ((val_for_bucket i, suc n, take bar (replicate 100 35)) ∷ lines)

  unfoldable pub summary : Histogram → Run (List (R × ℕ × List ℕ))
  unfolding summary_from total
  summary h = summary_from h.buckets 0 (total h.buckets)
