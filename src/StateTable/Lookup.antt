-- ===== src/StateTable/Lookup.antt =====
-- The reading methods of src/kernel/statetable.h answer from the map that the table stands for, and
-- throw where it has no row.
use maiter_p.Base.{
  ◌≡◌, refl, ap, ◌∙◌, Option, none, some, Bool, true, false, Run, ok, fault, log_fatal,
}
use maiter_p.Kernel.{Key, Value, IterateKernel}
use maiter_p.StateTable.Defs.{StateTable, bucket_for_key}
use maiter_p.StateTable.Access.{contains, get_f1, get_f2, get_f3, get}
use maiter_p.StateTable.Probe.{Found, hit, probe, bucket_of, bucket_for_key-probe, at-get_or}
use maiter_p.StateTable.Put.{blank}
use maiter_p.StateTable.Invariant.{Row, WellFormed, view, row_at, probe-hit}

-- The answer of a reader: the exception where there is no row.
abbrev pub or_fatal {ℓ κ} : {A : Type ℓ} {B : Type κ} → (A → B) → Option A → Run B
or_fatal f none = fault log_fatal
or_fatal f (some r) = ok (f r)

abbrev pub is_some {ℓ} : {A : Type ℓ} → Option A → Bool
is_some none = false
is_some (some a) = true

module _ {ℓ} {K V D : Type ℓ} ⦃key : Key K⦄ ⦃value : Value V⦄ ⦃kernel : IterateKernel K V D⦄
    {t : StateTable K V D} (wf : WellFormed t) (k : K) where
  pub bucket_for_key-found : {p : Found} → probe t k ≡ p → bucket_for_key t k ≡ ok (bucket_of p)
  bucket_for_key-found e = bucket_for_key-probe wf.fits k ∙ ap (λ p. ok (bucket_of p)) e

  -- What the readers answer where the search finds `p`.
  pub record Answers (o : Option (Row V D)) : Type ℓ where
    pub contains_is : contains t k ≡ ok (is_some o)
    pub get_f1_is : get_f1 t k ≡ or_fatal (λ r. r.0) o
    pub get_f2_is : get_f2 t k ≡ or_fatal (λ r. r.1) o
    pub get_f3_is : get_f3 t k ≡ or_fatal (λ r. r.2) o
    pub get_is : get t k ≡ or_fatal (λ r. record { k = k; v1 = r.0; v2 = r.1; v3 = r.2 }) o

  Answers-at : (p : Found) → probe t k ≡ p → Answers (row_at t p)
  unfolding get contains get_f1 get_f2 get_f3
  Answers-at (hit b) e =
      let (below, _, _) = probe-hit wf.fits k b e in
      let there = at-get_or t.buckets b blank (rw wf.fits.width below) in
      record {
        contains_is = rw (bucket_for_key-found e);
        get_f1_is = rw (bucket_for_key-found e, there);
        get_f2_is = rw (bucket_for_key-found e, there);
        get_f3_is = rw (bucket_for_key-found e, there);
        get_is = rw (bucket_for_key-found e, there);
      }
  Answers-at p e = record {
    contains_is = rw (bucket_for_key-found e);
    get_f1_is = rw (bucket_for_key-found e);
    get_f2_is = rw (bucket_for_key-found e);
    get_f3_is = rw (bucket_for_key-found e);
    get_is = rw (bucket_for_key-found e);
  }

  -- On a well-formed table contains, getF1, getF2, getF3 and get answer from the abstract map: the
  -- parts of the row, or the exception where there is none.
  pub readers-Answers : Answers (view t k)
  unfolding view
  readers-Answers = Answers-at _ refl
