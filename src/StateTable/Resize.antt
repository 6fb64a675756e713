-- ===== src/StateTable/Resize.antt =====
-- `resize` of src/kernel/statetable.h, and the branch of `put` that calls it.
use maiter_p.Base.{
  ℕ, zero, suc, ◌+◌, ◌^◌, ◌≤◌, ◌<◌, ◌≡◌, refl, ap, sym, ◌∙◌, false, Option, none, some, List, [],
  ◌∷◌, Returns, >>=-Returns, arith, length, get_or, map, if◌then◌else◌, ◌==◌, Bool-cases, inl, inr,
  ==_iff,
}
use maiter_p.Kernel.{Key, Value, IterateKernel}
use maiter_p.StateTable.Defs.{StateTable, Bucket, clear, release}
use maiter_p.StateTable.Put.{blank, put, resize_buckets, reinsert, resize_with, resize}
use maiter_p.StateTable.Probe.{hit, Found, Fits, probe}
use maiter_p.StateTable.Invariant.{Row, row, used, WellFormed, view, row_at, probe-hit}
use maiter_p.StateTable.Insert.{put-Puts}
use maiter_p.StateTable.Latest.{latest, latest-view}

module _ {ℓ} {K V D : Type ℓ} ⦃key : Key K⦄ ⦃value : Value V⦄ ⦃kernel : IterateKernel K V D⦄ where
  length-resize_buckets : (n : ℕ) (us : List (Bucket K V D)) → length (resize_buckets n us) ≡ n
  unfolding resize_buckets
  length-resize_buckets zero us = refl
  length-resize_buckets (suc n) [] = omega (arith, length-resize_buckets n [])
  length-resize_buckets (suc n) (u ∷ us) = omega (arith, length-resize_buckets n us)

  length-release : (us : List (Bucket K V D)) → length (map release us) ≡ length us
  length-release [] = refl
  length-release (u ∷ us) = omega (arith, length-release us)

  used-release : (us : List (Bucket K V D)) → used (map release us) ≡ 0
  unfolding used release
  used-release [] = refl
  used-release (u ∷ us) = used-release us

  released : (us : List (Bucket K V D)) (j : ℕ) → (get_or (map release us) j blank).in_use ≡ false
  unfolding release get_or blank
  released [] j = refl
  released (u ∷ us) zero = refl
  released (u ∷ us) (suc j) = released us j

  -- The table on which `resize` puts the old rows back.
  abbrev pub emptied : StateTable K V D → ℕ → StateTable K V D
  emptied t n = clear (record t { buckets = resize_buckets n t.buckets; size = n })

  module _ (t : StateTable K V D) (n : ℕ) (pos : 0 < n) (small : n < 2 ^ 31) where
    Fits-emptied : Fits (emptied t n)
    unfolding clear
    Fits-emptied = record {
      width = length-release (resize_buckets n t.buckets) ∙ length-resize_buckets n t.buckets;
      nonempty = pos;
      small = small;
    }

    WellFormed-emptied : WellFormed (emptied t n)
    unfolding clear
    WellFormed-emptied = record {
      fits = Fits-emptied;
      probed = λ i h in_use. absurd (cc (released (resize_buckets n t.buckets) i));
    }

    empty_at : (q : K) (p : Found) → probe (emptied t n) q ≡ p → row_at (emptied t n) p ≡ none
    unfolding clear
    empty_at q (hit i) e =
        absurd (cc (released (resize_buckets n t.buckets) i, (probe-hit Fits-emptied q i e).1))
    empty_at q p e = refl

    view-emptied : (q : K) → view (emptied t n) q ≡ none
    unfolding view
    view-emptied q = empty_at q _ refl

  -- `t'` is a table of `n` buckets, counted right, that stands for the map `f`.
  pub record Stands (n : ℕ) (f : K → Option (Row V D)) (t' : StateTable K V D) : Type ℓ where
    pub wf : WellFormed t'
    pub size_is : t'.size ≡ n
    pub counted : t'.entries ≡ used t'.buckets
    pub reads : (q : K) → view t' q ≡ f q

  pub used-emptied : (t : StateTable K V D) (n : ℕ) → used (emptied t n).buckets ≡ 0
  unfolding clear
  used-emptied t n = used-release (resize_buckets n t.buckets)

  pub emptied-Stands :
      (t : StateTable K V D) (n : ℕ) → 0 < n → n < 2 ^ 31 → Stands n (λ q. none) (emptied t n)
  unfolding clear
  emptied-Stands t n pos small = record {
    wf = WellFormed-emptied t n pos small;
    size_is = refl;
    counted = sym (used-release (resize_buckets n t.buckets));
    reads = view-emptied t n pos small;
  }

  insert_one :
      (fuel : ℕ) (u : Bucket K V D) {t : StateTable K V D} {n : ℕ} {f : K → Option (Row V D)}
      → Stands n f t
      → suc (used t.buckets) ≤ n
      → Returns (put (suc fuel) t u.k u.v1 u.v2 u.v3) λ t'.
        Stands n (λ q. if key.beq q u.k then some (row u) else f q) t'
        × (used t'.buckets ≤ suc (used t.buckets))
  insert_one fuel u {t} {n} {f} s room =
      let (t', run, p) =
        put-Puts s.wf u.k u.v1 u.v2 u.v3 fuel
          (λ _. (omega (arith, s.size_is), omega (arith, s.size_is, s.counted))) in
      (
        t',
        run,
        (
          record {
            wf = p.wf;
            size_is = p.same_size ∙ s.size_is;
            counted = omega (arith, p.counts, s.counted);
            reads =
                λ q. p.reads q ∙ ap (λ o. if key.beq q u.k then some (row u) else o) (s.reads q);
          },
          p.few,
        ),
      )

  reinsert-Stands :
      (fuel : ℕ) (us : List (Bucket K V D)) (t : StateTable K V D) (n : ℕ)
      (f : K → Option (Row V D))
      → Stands n f t
      → used t.buckets + used us ≤ n
      → Returns
          (reinsert (put (suc fuel)) us t)
          λ t'. Stands n (λ q. latest q us (f q)) t' × (used t'.buckets ≤ used t.buckets + used us)
  unfolding reinsert used latest
  reinsert-Stands fuel [] t n f s room = (t, refl, (s, omega arith))
  reinsert-Stands fuel (u ∷ us) t n f s room = elim (Bool-cases u.in_use) [
    | inl e ↦
        let needed : used t.buckets + suc (used us) ≤ n = rw e at room in
        rw e (
          >>=-Returns _ _ (insert_one fuel u s (omega arith)) (λ t' (s', few).
            let (t'', run, (s'', few')) = reinsert-Stands fuel us t' n _ s' (omega arith) in
            (t'', run, (s'', omega arith))))
    | inr e ↦ rw e (reinsert-Stands fuel us t n f s (rw e at room))
  ]

  -- resize of a well-formed table to a positive size within int that holds its rows, with the entries
  -- counted right if the size stays, ends, keeps the abstract map and counts the entries right.
  pub resize-Stands :
      {t : StateTable K V D}
      → WellFormed t
      → (fuel n : ℕ) → (t.size ≡ n → t.entries ≡ used t.buckets)
      → 0 < n
      → n < 2 ^ 31
      → used t.buckets ≤ n
      → Returns
          (resize (suc fuel) t n)
          λ t'. Stands n (view t) t' × (used t'.buckets ≤ used t.buckets)
  unfolding resize resize_with
  resize-Stands wf fuel zero counted pos small room = elim pos [ ]
  resize-Stands {t = t} wf fuel (suc n) counted pos small room =
      elim (Bool-cases (t.size == suc n)) [
        | inl e ↦ rw e (
          t,
          refl,
          (
            record {
              wf = wf;
              size_is = (==_iff t.size (suc n)).0 e;
              counted = counted ((==_iff t.size (suc n)).0 e);
              reads = λ q. refl;
            },
            omega arith,
          ),
        )
        | inr e ↦
            let none_used = used-emptied t (suc n) in
            let (t', run, (s, few)) =
              reinsert-Stands fuel t.buckets (emptied t (suc n)) (suc n) (λ q. none)
                (emptied-Stands t (suc n) pos small) (omega arith) in
            rw e (
              t',
              run,
              (
                record {
                  wf = s.wf;
                  size_is = s.size_is;
                  counted = s.counted;
                  reads = λ q. s.reads q ∙ latest-view wf q;
                },
                omega arith,
              ),
            )
      ]
