-- ===== src/Maiter/Loaded.antt =====
-- The table that the first phase (src/kernel/kernel.h) leaves behind.
use maiter_p.Base.{
  ℕ, suc, ◌+◌, ◌<◌, ◌≤◌, ◌^◌, ◌≡◌, refl, ap, sym, ◌∙◌, true, false, Bool, Option, none, some, List,
  [], ◌∷◌, ok, ◌>>=◌, Returns, arith, length, fault, if◌then◌else◌, Bool-cases, inl, inr, le→ltb,
  ltb,
}
use mathlib.Core.Option.{some-injective}
use maiter_p.Kernel.{Key, Value, IterateKernel}
use maiter_p.StateTable.Defs.{StateTable, clear}
use maiter_p.StateTable.Put.{put, resize, create, resize_with, reinsert, resize_buckets}
use maiter_p.StateTable.Invariant.{Row, WellFormed, view, used}
use maiter_p.StateTable.Insert.{put-Puts}
use maiter_p.StateTable.Resize.{resize-Stands, emptied, emptied-Stands, used-emptied}
use maiter_p.Maiter.Load.{create_table, read_line, read_lines, read_file, init_table}

-- The first of two options that is there.
unfoldable pub first_some {ℓ} : {A : Type ℓ} → Option A → Option A → Option A
first_some (some a) o = some a
first_some none o = o

first_some_assoc {ℓ} :
    {A : Type ℓ} (o p q : Option A) → first_some (first_some o p) q ≡ first_some o (first_some p q)
unfolding first_some
first_some_assoc (some a) p q = refl
first_some_assoc none p q = refl

first_some-if {ℓ} :
    {A : Type ℓ} (here : Bool) (a : A) (o : Option A)
    → (if here then some a else o) ≡ first_some (if here then some a else none) o
unfolding first_some
first_some-if true a o = refl
first_some-if false a o = refl

first_some-none {ℓ} : {A : Type ℓ} (o : Option A) → first_some o none ≡ o
unfolding first_some
first_some-none (some a) = refl
first_some-none none = refl

module _ {ℓ} {K V D : Type ℓ} ⦃key : Key K⦄ (kernel : IterateKernel K V D) where
  -- `read_data` reads every line.
  pub data AllRead : List (List ℕ) → Type ℓ where
    all_read : AllRead []
    line_read :
        {line : List ℕ} {rest : List (List ℕ)} (r : K × D)
        → kernel.read_data line key.no_key kernel.no_data ≡ ok r
        → AllRead rest
        → AllRead (line ∷ rest)

module _ {ℓ} {K V D : Type ℓ} ⦃key : Key K⦄ ⦃value : Value V⦄ ⦃kernel : IterateKernel K V D⦄ where
  -- The row that a line of the input asks for, if it is for this key, and the row of the last line of
  -- the input for this key.
  unfoldable pub line_row : List ℕ → K → Option (Row V D)
  line_row line j = elim (kernel.read_data line key.no_key kernel.no_data) [
    | ok r ↦
        if key.beq j r.0 then some (kernel.init_c r.0 r.1, kernel.init_v r.0 r.1, r.1) else none
    | fault e ↦ none
  ]

  unfoldable pub last_row : List (List ℕ) → K → Option (Row V D)
  last_row [] j = none
  last_row (line ∷ rest) j = first_some (last_row rest j) (line_row line j)

  abbrev read_row : K × D → Row V D
  read_row (k, x) = (kernel.init_c k x, kernel.init_v k x, x)

  line_row-read :
      (line : List ℕ) (r : K × D) (j : K)
      → kernel.read_data line key.no_key kernel.no_data ≡ ok r
      → line_row line j ≡ (if key.beq j r.0 then some (read_row r) else none)
  unfolding line_row
  line_row-read line (k, x) j read = rw (line_row, read) refl

  -- Every row holds the initial delta and the initial value of its key.
  pub record Initial (t : StateTable K V D) : Type ℓ where
    pub wf : WellFormed t
    pub counted : t.entries ≡ used t.buckets
    pub rows :
        (j : K) (d v : V) (x : D)
        → view t j ≡ some (d, v, x)
        → (d ≡ kernel.init_c j x) × (v ≡ kernel.init_v j x)

  read_line-Initial :
      {t : StateTable K V D} {line : List ℕ} (r : K × D)
      → Initial t
      → used t.buckets < t.size
      → kernel.read_data line key.no_key kernel.no_data ≡ ok r
      → Returns (read_line t line) λ t'.
        Initial t'
        × (t'.size ≡ t.size)
        × (used t'.buckets ≤ suc (used t.buckets))
        × ((j : K) → view t' j ≡ first_some (line_row line j) (view t j))
  unfolding read_line
  read_line-Initial {t} {line} (k, links) init room read =
      let (t', run, p) =
        put-Puts init.wf k (kernel.init_c k links) (kernel.init_v k links) links 1
          (λ absent. (room, omega (arith, init.counted))) in
      (
        t',
        ap (λ z. z >>= λ r. put 2 t r.0 (kernel.init_c r.0 r.1) (kernel.init_v r.0 r.1) r.1) read
            ∙ run,
        (
          record {
            wf = p.wf;
            counted = omega (arith, p.counts, init.counted);
            rows = λ j d v x present. elim (Bool-cases (key.beq j k)) [
              | inl e ↦
                  let q : (kernel.init_c k links, kernel.init_v k links, links) ≡ (d, v, x) =
                    some-injective _ _ (sym (p.reads j ∙ rw e) ∙ present) in
                  let name = (key.beq_iff j k).0 e in
                  (
                    sym (ap (λ y. y.0) q)
                        ∙ ap (λ y. kernel.init_c k y.2) q
                        ∙ ap (λ i. kernel.init_c i x) (sym name),
                    sym (ap (λ y. y.1) q)
                        ∙ ap (λ y. kernel.init_v k y.2) q
                        ∙ ap (λ i. kernel.init_v i x) (sym name),
                  )
              | inr e ↦ init.rows j d v x (sym (p.reads j ∙ rw e) ∙ present)
            ];
          },
          p.same_size,
          p.few,
          λ j.
              p.reads j
              ∙ first_some-if (key.beq j k) _ (view t j)
              ∙ ap (λ o. first_some o (view t j)) (sym (line_row-read line (k, links) j read)),
        ),
      )

  read_lines-Initial :
      (t : StateTable K V D) (file : List (List ℕ))
      → Initial t
      → used t.buckets + length file ≤ t.size
      → AllRead kernel file
      → Returns (read_lines t file) λ r.
        Initial r.0
        × (r.0.size ≡ t.size)
        × (r.1 ≡ length file)
        × ((j : K) → view r.0 j ≡ first_some (last_row file j) (view t j))
  unfolding read_lines last_row first_some
  read_lines-Initial t [] init room all_read = ((t, 0), refl, (init, refl, refl, λ j. refl))
  read_lines-Initial t (line ∷ rest) init room (line_read r read more) =
      let (t', run, (init', same, few, row)) = read_line-Initial r init (omega arith) read in
      let ((t'', n), runs, (init'', same', count, rows)) =
        read_lines-Initial t' rest init' (omega arith) more in
      (
        (t'', suc n),
        rw (run, runs),
        (
          init'',
          same' ∙ same,
          ap suc count,
          λ j.
              rows j
              ∙ ap (first_some (last_row rest j)) (row j)
              ∙ sym (first_some_assoc (last_row rest j) (line_row line j) (view t j)),
        ),
      )

  -- The empty table of no buckets that the constructor resizes.
  abbrev bare : StateTable K V D
  bare = record { buckets = []; entries = 0; size = 0; total_updates = 0; terminated = false }

  create_table-emptied : create_table {K = K} {V = V} {D = D} ≡ ok (emptied bare 1)
  unfolding create_table create resize resize_with reinsert clear resize_buckets
  create_table-emptied = refl

  -- With at least as many lines as threads, no more lines than nodes, every line readable, and the
  -- number of nodes positive and within int, the first phase ends in a well-formed table of that size
  -- whose map is that of the input: for each key of a line the initial delta, the initial value and the
  -- data of its last line, and no row for other keys.
  pub init_table-Initial :
      (num_threads num_nodes : ℕ) (file : List (List ℕ))
      → AllRead kernel file
      → num_threads ≤ length file
      → length file ≤ num_nodes
      → 0 < num_nodes
      → num_nodes < 2 ^ 31
      → Returns (init_table num_threads num_nodes file) λ r.
        Initial r.0
        × (r.0.size ≡ num_nodes)
        × (r.1 ≡ length file)
        × ((j : K) → view r.0 j ≡ last_row file j)
  unfolding init_table read_file
  init_table-Initial num_threads num_nodes file all threads room many small =
      let e = emptied-Stands bare 1 (omega arith) (omega arith) in
      let nothing = used-emptied bare 1 in
      let (t, run, (s, few)) =
        resize-Stands e.wf 1 num_nodes (λ q. e.counted) many small (omega (arith, nothing)) in
      let start : Initial t = record {
        wf = s.wf;
        counted = s.counted;
        rows = λ j d v x present. absurd (cc (s.reads j, e.reads j, present));
      } in
      let ((t', n), runs, (init, same, count, rows)) =
        read_lines-Initial t file start (omega (arith, few, nothing, s.size_is)) all in
      let clear : (j : K) → view t j ≡ none = λ j. s.reads j ∙ e.reads j in
      let guard : ltb n num_threads ≡ false = le→ltb n num_threads (omega (arith, count)) in
      (
        (t', n),
        rw (create_table-emptied, run, runs, guard),
        (
          init,
          same ∙ s.size_is,
          count,
          λ j.
              rows j
              ∙ ap (first_some (last_row file j)) (clear j)
              ∙ first_some-none (last_row file j),
        ),
      )
