-- ===== src/StateTable/Total.antt =====
-- `put` of src/kernel/statetable.h on every well-formed table.
use native.Mathlib.Decide.{dec_lt}
use maiter_p.Base.{
  suc, ◌+◌, ◌*◌, ◌^◌, ◌<◌, ◌≤◌, ◌≡◌, refl, Bool, false, not, ◌&&◌, leb, ◌==◌, if◌then◌else◌, Option,
  none, some, Returns, arith, Option-cases, inl, inr, ℕ, ◌∙◌,
}
use maiter_p.Kernel.{Key, Value, IterateKernel, beq_self}
use maiter_p.StateTable.Defs.{StateTable}
use maiter_p.StateTable.Put.{put}
use maiter_p.StateTable.Probe.{slot, home}
use maiter_p.StateTable.Invariant.{Row, used, WellFormed, view}
use maiter_p.StateTable.Insert.{put-Puts}
use maiter_p.StateTable.Lookup.{is_some}
use maiter_p.StateTable.Room.{used-le-length}
use maiter_p.StateTable.Overwrite.{put-Overwrites}
use maiter_p.StateTable.Grow.{put-Grows}

module _ {ℓ} {K V D : Type ℓ} ⦃key : Key K⦄ ⦃value : Value V⦄ ⦃kernel : IterateKernel K V D⦄ where
  -- Whether put of a key removes the row of another key: a new key, on a table with every bucket in
  -- use and no more entries than buckets, goes over the key in its home bucket.
  unfoldable pub evicts : StateTable K V D → K → K → Bool
  evicts t k q =
      not (is_some (view t k))
      && (used t.buckets == t.size && (leb t.entries t.size && key.beq q (slot t (home t k)).k))

  -- What each key reads as after put.
  unfoldable pub updated : StateTable K V D → K → Row V D → K → Option (Row V D)
  unfolding evicts
  updated t k r q = if key.beq q k then some r else if evicts t k q then none else view t q

  -- The table stores a row, and every key reads as it says.
  pub record Stores (t : StateTable K V D) (k : K) (r : Row V D) (t' : StateTable K V D)
      : Type ℓ where
    pub wf : WellFormed t'
    pub stored : view t' k ≡ some r
    pub reads : (q : K) → view t' q ≡ updated t k r q

  module _ (t : StateTable K V D) (k : K) where
    evicts-present : (r : Row V D) (q : K) → view t k ≡ some r → evicts t k q ≡ false
    unfolding evicts
    evicts-present r q present = rw present refl

    evicts-over : (q : K) → t.size < t.entries → evicts t k q ≡ false
    unfolding evicts
    evicts-over q over = ground arith

    evicts-room : (q : K) → used t.buckets < t.size → evicts t k q ≡ false
    unfolding evicts
    evicts-room q room = ground arith

    evicts-full :
        (q : K)
        → view t k ≡ none
        → used t.buckets ≡ t.size
        → t.entries ≤ t.size
        → evicts t k q ≡ key.beq q (slot t (home t k)).k
    unfolding evicts
    evicts-full q absent filled few = rw absent (ground arith)

  Stores-plain :
      {t t' : StateTable K V D} (k : K) (r : Row V D)
      → WellFormed t'
      → ((q : K) → evicts t k q ≡ false)
      → ((q : K) → view t' q ≡ (if key.beq q k then some r else view t q))
      → Stores t k r t'
  unfolding updated
  Stores-plain k r wf kept reads = record {
    wf = wf;
    stored = reads k ∙ rw (beq_self k) refl;
    reads = λ q. reads q ∙ rw (kept q) refl;
  }

  module _ {t : StateTable K V D} (wf : WellFormed t) (k : K) (v1 v2 : V) (v3 : D) (fuel : ℕ) where
    -- On a well-formed table that may double its size once within int, put ends; the table stays well
    -- formed, the key reads as its row, and every other key reads as before, but for one: where the key
    -- is new, every bucket is in use and no more entries are counted than buckets, the key in the home
    -- bucket of the new one has no row any more.
    pub put-Stores :
        1 + t.size * 2 < 2 ^ 31
        → Returns (put (suc (suc fuel)) t k v1 v2 v3) (Stores t k (v1, v2, v3))
    unfolding updated
    put-Stores fit = elim (Option-cases (view t k)) [
      | inr (r, present) ↦
          let (t', run, p) = put-Puts wf k v1 v2 v3 (suc fuel) (λ absent. absurd (cc)) in
          (t', run, Stores-plain {t = t} k _ p.wf (λ q. evicts-present t k r q present) p.reads)
      | inl absent ↦ elim (dec_lt t.size t.entries) [
        | yes over ↦
            let (t', run, p) = put-Grows wf k v1 v2 v3 fuel over fit absent in
            (t', run, Stores-plain {t = t} k _ p.wf (λ q. evicts-over t k q over) p.reads)
        | no under ↦ elim (dec_lt (used t.buckets) t.size) [
          | yes room ↦
              let (t', run, p) = put-Puts wf k v1 v2 v3 (suc fuel) (λ _. (room, omega arith)) in
              (t', run, Stores-plain {t = t} k _ p.wf (λ q. evicts-room t k q room) p.reads)
          | no crowded ↦
              let filled : used t.buckets ≡ t.size =
                omega (arith, used-le-length t.buckets, wf.fits.width) in
              let few : t.entries ≤ t.size = omega arith in
              let (t', run, p) = put-Overwrites wf (suc fuel) k v1 v2 v3 absent filled few in
              (
                t',
                run,
                record {
                  wf = p.wf;
                  stored = p.reads k ∙ rw (beq_self k) refl;
                  reads = λ q. p.reads q ∙ rw (evicts-full t k q absent filled few) refl;
                },
              )
        ]
      ]
    ]
