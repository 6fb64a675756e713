-- ===== src/StateTable/Probe.antt =====
-- The two search loops of src/kernel/statetable.h walk the buckets from the home bucket of a key, each
-- bucket once, and agree on what they find.
use native.Mathlib.Nat.{mod-eq_of_lt, mod-add-mod, mod-eq-sub-mod, add-mod_right}
use maiter_p.Base.{
  ℕ, zero, suc, ◌+◌, ◌%◌, ◌^◌, ◌<◌, ◌≡◌, refl, sym, ap, ◌∙◌, ◌≢◌, Bool, true, false, Option, none,
  some, List, [], ◌∷◌, ok, ◌==◌, arith, length, get_or, lt→ltb, ==_iff, ne→==,
}
use maiter_p.Kernel.{Key, Value, IterateKernel}
use maiter_p.StateTable.Defs.{
  StateTable, Bucket, at, to_int, remainder, bucket_idx, next_bucket, bucket_for_key_loop,
  bucket_for_key,
}
use maiter_p.StateTable.Put.{blank, put_loop}

pub at-get_or {ℓ} :
    {A : Type ℓ} (us : List A) (n : ℕ) (o : A) → n < length us → at us n ≡ ok (get_or us n o)
unfolding at get_or
at-get_or (u ∷ us) (suc n) o below = at-get_or us n o (omega arith)
at-get_or (u ∷ us) zero o below = refl
at-get_or [] n o below = absurd (omega arith)

-- What a search ends with: the bucket of the key, a bucket that is not in use, or neither.
pub data Found : Type 0 where
  hit : ℕ → Found
  gap : ℕ → Found
  full : Found

module _ {ℓ} {K V D : Type ℓ} ⦃key : Key K⦄ where
  unfoldable pub walk : ℕ → (ℕ → Bucket K V D) → K → ℕ → ℕ → Found
  walk zero s k n b = full
  walk (suc f) s k n b = elim (s b).in_use [
    | true ↦ elim (key.beq (s b).k k) [ true ↦ hit b | false ↦ walk f s k n ((b + 1) % n) ]
    | false ↦ gap b
  ]

abbrev pub bucket_of : Found → Option ℕ
bucket_of (hit b) = some b
bucket_of (gap b) = none
bucket_of full = none

abbrev pub place_of : ℕ → Found → ℕ × Bool
place_of start (hit b) = (b, true)
place_of start (gap b) = (b, false)
place_of start full = (start, false)

-- A table that holds as many buckets as its size says, a number that `int` can hold.
pub record Fits {ℓ} {K V D : Type ℓ} (t : StateTable K V D) : Type 0 where
  pub width : length t.buckets ≡ t.size
  pub nonempty : 0 < t.size
  pub small : t.size < 2 ^ 31

pub to_int-eq : (n : ℕ) → n < 2 ^ 31 → to_int n ≡ ok n
unfolding to_int
to_int-eq n h = rw (lt→ltb _ _ h)

pub remainder-eq : (n : ℕ) {m : ℕ} → 0 < m → remainder n m ≡ ok (n % m)
unfolding remainder
remainder-eq n {m = zero} h = elim h [ ]
remainder-eq n {m = suc m} h = refl

pub turn_back : (start i n : ℕ) → start < n → suc i ≡ n → (start + suc i) % n ≡ start
turn_back start i n h e = grind (arith, add-mod_right start n, mod-eq_of_lt)

pub turn_on : (start i n : ℕ) → start < n → suc i < n → (start + suc i) % n ≢ start
turn_on start i n h j e = grind (arith, mod-eq-sub-mod, mod-eq_of_lt)

module _ {ℓ} {K V D : Type ℓ} ⦃key : Key K⦄ ⦃value : Value V⦄ ⦃kernel : IterateKernel K V D⦄ where
  abbrev pub slot : StateTable K V D → ℕ → Bucket K V D
  slot t i = get_or t.buckets i blank

  abbrev pub home : StateTable K V D → K → ℕ
  home t k = key.hash k % t.size

  unfoldable pub probe : StateTable K V D → K → Found
  probe t k = walk t.size (slot t) k t.size (home t k)

  module _ {t : StateTable K V D} (fits : Fits t) where
    pub home-lt : (k : K) → home t k < t.size
    home-lt k = omega (arith, fits.nonempty)

    pub next_bucket-eq : (b : ℕ) → b < t.size → next_bucket t b ≡ ok ((b + 1) % t.size)
    unfolding next_bucket
    next_bucket-eq b h = rw (
      to_int-eq (b + 1) (omega (arith, fits.small)),
      remainder-eq (b + 1) fits.nonempty,
      to_int-eq ((b + 1) % t.size) (omega (arith, fits.small, fits.nonempty)),
    )

    pub bucket_idx-home : (k : K) → bucket_idx t k ≡ ok (home t k)
    unfolding bucket_idx
    bucket_idx-home k = rw (
      remainder-eq (key.hash k) fits.nonempty,
      mod-eq_of_lt {n = home t k} {m = 2 ^ 32} (omega (arith, home-lt k, fits.small)),
    )

    pub to_int-home : (k : K) → to_int (home t k) ≡ ok (home t k)
    to_int-home k = to_int-eq (home t k) (omega (arith, home-lt k, fits.small))

    module _ (k : K) (start : ℕ) (below : start < t.size) where
      -- `b` is the bucket after `i` steps, and `f` buckets are left.
      abbrev IsAt : ℕ → ℕ → ℕ → Type 0
      IsAt f i b = (f + i ≡ t.size) × (b ≡ (start + i) % t.size)

      IsAt-next : (f i b : ℕ) → IsAt (suc f) i b → IsAt f (suc i) ((b + 1) % t.size)
      IsAt-next f i b (left, here) = (
        omega arith,
        rw (here, mod-add-mod (start + i) t.size 1) (ap (λ (x : ℕ). x % t.size) (omega arith)),
      )

      IsAt-lt : (f i b : ℕ) → IsAt f i b → b < t.size
      IsAt-lt f i b here = omega (arith, fits.nonempty)

      -- The next bucket is the start again exactly when no bucket is left.
      last_turn : (i b : ℕ) → IsAt 1 i b → ((b + 1) % t.size == start) ≡ true
      last_turn i b here =
          (==_iff _ _).1
            ((IsAt-next 0 i b here).1 ∙ turn_back start i t.size below (omega (arith, here.0)))

      more_turns : (f i b : ℕ) → IsAt (suc (suc f)) i b → ((b + 1) % t.size == start) ≡ false
      more_turns f i b here = ne→== _ _ (λ e.
          turn_on start i t.size below (omega (arith, here.0))
            (sym (IsAt-next (suc f) i b here).1 ∙ e))

      pub bucket_for_key_loop-walk :
          (f i b : ℕ)
          → IsAt (suc f) i b
          → bucket_for_key_loop (suc f) t k start b
            ≡ ok (bucket_of (walk (suc f) (slot t) k t.size b))
      unfolding bucket_for_key_loop walk
      bucket_for_key_loop-walk zero i b here =
          rw
            (
              at-get_or t.buckets b blank (rw fits.width (IsAt-lt 1 i b here)),
              next_bucket-eq b (IsAt-lt 1 i b here),
            )
            (ground (arith, last_turn i b here))
      bucket_for_key_loop-walk (suc f) i b here =
          rw
            (
              at-get_or t.buckets b blank (rw fits.width (IsAt-lt _ i b here)),
              next_bucket-eq b (IsAt-lt _ i b here),
            )
            (ground (
              arith,
              more_turns f i b here,
              bucket_for_key_loop-walk f (suc i) ((b + 1) % t.size) (IsAt-next (suc f) i b here),
            ))

      pub put_loop-walk :
          (f i b : ℕ)
          → IsAt (suc f) i b
          → put_loop (suc f) t k start b ≡ ok (place_of start (walk (suc f) (slot t) k t.size b))
      unfolding put_loop walk
      put_loop-walk zero i b here =
          rw
            (
              at-get_or t.buckets b blank (rw fits.width (IsAt-lt 1 i b here)),
              next_bucket-eq b (IsAt-lt 1 i b here),
            )
            (ground (arith, last_turn i b here, ==_iff ((b + 1) % t.size) start))
      put_loop-walk (suc f) i b here =
          rw
            (
              at-get_or t.buckets b blank (rw fits.width (IsAt-lt _ i b here)),
              next_bucket-eq b (IsAt-lt _ i b here),
            )
            (ground (
              arith,
              more_turns f i b here,
              put_loop-walk f (suc i) ((b + 1) % t.size) (IsAt-next (suc f) i b here),
            ))

    module _ (k : K) where
      home_first : (t.size + 0 ≡ t.size) × (home t k ≡ (home t k + 0) % t.size)
      home_first =
          (omega arith, sym (mod-eq_of_lt (home-lt k)) ∙ ap (λ (x : ℕ). x % t.size) (omega arith))

      bucket_loop_full :
          (f : ℕ)
          → 0 < f
          → (f + 0 ≡ t.size) × (home t k ≡ (home t k + 0) % t.size)
          → bucket_for_key_loop f t k (home t k) (home t k)
            ≡ ok (bucket_of (walk f (slot t) k t.size (home t k)))
      bucket_loop_full zero pos here = elim pos [ ]
      bucket_loop_full (suc f) pos here =
          bucket_for_key_loop-walk k (home t k) (home-lt k) f 0 (home t k) here

      put_loop_full :
          (f : ℕ)
          → 0 < f
          → (f + 0 ≡ t.size) × (home t k ≡ (home t k + 0) % t.size)
          → put_loop f t k (home t k) (home t k)
            ≡ ok (place_of (home t k) (walk f (slot t) k t.size (home t k)))
      put_loop_full zero pos here = elim pos [ ]
      put_loop_full (suc f) pos here = put_loop-walk k (home t k) (home-lt k) f 0 (home t k) here

      -- On a table that fits, the loop of bucket_for_key ends and finds what the walk over the buckets
      -- finds.
      pub bucket_for_key-probe : bucket_for_key t k ≡ ok (bucket_of (probe t k))
      unfolding bucket_for_key probe
      bucket_for_key-probe =
          rw (bucket_idx-home k, to_int-home k, bucket_loop_full t.size fits.nonempty home_first)

      -- On a table that fits, the loop of put ends at the bucket that the walk over the buckets finds.
      pub put_loop-probe :
          put_loop t.size t k (home t k) (home t k) ≡ ok (place_of (home t k) (probe t k))
      unfolding probe
      put_loop-probe = put_loop_full t.size fits.nonempty home_first

      -- On a table that fits, the loops of bucket_for_key and of put end, and find what the walk over
      -- the buckets from the home of the key finds.
      pub searches-probe :
          (bucket_for_key t k ≡ ok (bucket_of (probe t k)))
          × (put_loop t.size t k (home t k) (home t k) ≡ ok (place_of (home t k) (probe t k)))
      searches-probe = (bucket_for_key-probe, put_loop-probe)
