-- ===== src/Util/Histogram/Bars.antt =====
-- The counts and the bars of `Histogram` in src/util/common.cc.
use native.Mathlib.Decide.{dec_lt}
use native.Mathlib.Nat
use maiter_p.Base.{
  ℕ, zero, suc, ◌+◌, ◌-◌, ◌*◌, ◌/◌, ◌^◌, ◌≤◌, ◌<◌, ◌≡◌, refl, ap, sym, ◌∙◌, List, [], ◌∷◌, ◌++◌,
  Returns, length, replicate, set, get_or, take, arith, length-append, length-replicate, lt→ltb,
  le→leb, lt→leb, map,
}
use maiter_p.Util.Histogram.{
  Logarithms, Histogram, histogram, widen, add_to_bucket, add, bucket_for_val, total, bar_length,
  val_for_bucket, summary_from, summary,
}

-- Every value that was added is counted in one bucket.
abbrev pub IsCounted : Histogram → Type 0
IsCounted h = total h.buckets ≡ h.count

total-append : (xs ys : List ℕ) → total (xs ++ ys) ≡ total xs + total ys
unfolding total
total-append [] ys = omega arith
total-append (x ∷ xs) ys = omega (arith, total-append xs ys)

total-zeros : (n : ℕ) → total (replicate n 0) ≡ 0
unfolding total
total-zeros zero = refl
total-zeros (suc n) = omega (arith, total-zeros n)

total-set :
    (xs : List ℕ) (i : ℕ) → i < length xs → total (set xs i (get_or xs i 0 + 1)) ≡ total xs + 1
unfolding total get_or
total-set [] i lt = absurd (omega arith)
total-set (x ∷ xs) zero lt = omega arith
total-set (x ∷ xs) (suc i) lt = omega (arith, total-set xs i (omega arith))

total-widen : (xs : List ℕ) (n : ℕ) → total (widen xs n) ≡ total xs
unfolding widen
total-widen xs n =
    omega (arith, total-append xs (replicate (n - length xs) 0), total-zeros (n - length xs))

length-widen : (xs : List ℕ) (n : ℕ) → length xs ≤ n → length (widen xs n) ≡ n
unfolding widen
length-widen xs n le = omega (
  arith,
  length-append xs (replicate (n - length xs) 0),
  length-replicate {A = ℕ} (n - length xs) 0,
)

add_to_bucket-IsCounted : (h : Histogram) (b : ℕ) → IsCounted h → IsCounted (add_to_bucket h b)
unfolding add_to_bucket
add_to_bucket-IsCounted h b counted = elim (dec_lt b (length h.buckets)) [
  | yes inside ↦
      rw (lt→leb b (length h.buckets) inside)
        (total-set h.buckets b inside ∙ ap (λ n. n + 1) counted)
  | no outside ↦ rw (le→leb (length h.buckets) b (omega arith)) (
      total-set (widen h.buckets (b + 1)) b
        (omega (arith, length-widen h.buckets (b + 1) (omega arith)))
      ∙ ap (λ n. n + 1) (total-widen h.buckets (b + 1) ∙ counted))
]

-- The counts that `summary` writes: those that are not 0, in order.
unfoldable pub nonzero : List ℕ → List ℕ
nonzero [] = []
nonzero (zero ∷ buckets) = nonzero buckets
nonzero (suc n ∷ buckets) = suc n ∷ nonzero buckets

length-take-replicate : (n m c : ℕ) → n ≤ m → length (take n (replicate m c)) ≡ n
length-take-replicate zero m c le = refl
length-take-replicate (suc n) zero c le = absurd (omega arith)
length-take-replicate (suc n) (suc m) c le = ap suc (length-take-replicate n m c (omega arith))

bar_length-le :
    (n sum : ℕ)
    → n ≤ sum
    → 0 < n
    → sum * 80 < 2 ^ 31
    → Returns (bar_length n sum) (λ bar. (bar ≡ n * 80 / sum) × (bar ≤ 80))
unfolding bar_length
bar_length-le n zero le some small = absurd (omega arith)
bar_length-le n (suc sum) le some small = (
  _,
  rw (lt→ltb (n * 80) (2 ^ 31) (omega arith)) refl,
  (refl, Nat.div-le_of_le-mul (suc sum) (omega arith)),
)

module _ {ℓ} {R : Type ℓ} where
  -- A bar has its share of eighty signs.
  pub AreBars : ℕ → List (R × ℕ × List ℕ) → Type 0
  AreBars sum [] = Unit
  AreBars sum ((val, n, bar) ∷ lines) =
      (length bar ≡ n * 80 / sum) × (length bar ≤ 80) × AreBars sum lines

  abbrev pub counts : List (R × ℕ × List ℕ) → List ℕ
  counts lines = map (λ l. l.1) lines

module _ {ℓ} {R : Type ℓ} ⦃logs : Logarithms R⦄ where
  summary_from-bars :
      (buckets : List ℕ) (i sum : ℕ)
      → total buckets ≤ sum
      → sum * 80 < 2 ^ 31
      → Returns
          (summary_from ⦃logs = logs⦄ buckets i sum)
          (λ lines. (counts lines ≡ nonzero buckets) × AreBars sum lines)
  unfolding summary_from nonzero AreBars total
  summary_from-bars [] i sum le small = ([], refl, (refl, tt))
  summary_from-bars (zero ∷ buckets) i sum le small =
      summary_from-bars buckets (suc i) sum (omega arith) small
  summary_from-bars (suc n ∷ buckets) i sum le small =
      let (bar, drawn, (share, short)) =
        bar_length-le (suc n) sum (omega arith) (omega arith) small in
      let (lines, run, (counted, bars)) =
        summary_from-bars buckets (suc i) sum (omega arith) small in
      let wide = length-take-replicate bar 100 35 (omega arith) in
      (
        (val_for_bucket i, suc n, take bar (replicate 100 35)) ∷ lines,
        rw (drawn, run) refl,
        (ap (λ ns. suc n ∷ ns) counted, (wide ∙ share, omega (arith, wide), bars)),
      )

  -- The histogram after a sequence of values.
  pub add_all : Histogram → List R → Histogram
  add_all h [] = h
  add_all h (val ∷ vals) = add_all (add h val) vals

  add_all-IsCounted : (vals : List R) (h : Histogram) → IsCounted h → IsCounted (add_all h vals)
  unfolding add_all add
  add_all-IsCounted [] h counted = counted
  add_all-IsCounted (val ∷ vals) h counted =
      add_all-IsCounted vals (add h val) (add_to_bucket-IsCounted h (bucket_for_val val) counted)

  count-add_all : (vals : List R) (h : Histogram) → (add_all h vals).count ≡ h.count + length vals
  unfolding add_all add add_to_bucket
  count-add_all [] h = omega arith
  count-add_all (val ∷ vals) h = omega (arith, count-add_all vals (add h val))

  summary-bars :
      (h : Histogram)
      → IsCounted h
      → h.count * 80 < 2 ^ 31
      → Returns
          (summary ⦃logs = logs⦄ h)
          (λ lines. (counts lines ≡ nonzero h.buckets) × AreBars h.count lines)
  unfolding summary
  summary-bars h counted small =
      rw (sym counted)
        (summary_from-bars h.buckets 0 (total h.buckets) (omega arith) (omega (arith, counted)))

  -- After any values were added to a new histogram, no more than 26843545 of them, summary ends: its
  -- lines are the counts that are not 0, in order, and each has as its bar its share of eighty signs,
  -- no more than eighty, by the number of values.
  pub add_all-summary :
      (vals : List R)
      → length vals * 80 < 2 ^ 31
      → Returns (summary ⦃logs = logs⦄ (add_all histogram vals)) (λ lines.
        (counts lines ≡ nonzero (add_all histogram vals).buckets) × AreBars (length vals) lines)
  unfolding histogram total
  add_all-summary vals small =
      let all : (add_all histogram vals).count ≡ length vals =
        count-add_all vals histogram ∙ omega arith in
      rw (sym all) (
        summary-bars (add_all histogram vals) (add_all-IsCounted vals histogram refl)
          (omega (arith, all)))
