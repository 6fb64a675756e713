-- ===== src/Samples/Runs.antt =====
-- A run of two workers over a graph with one edge, and the theorems on it.
use maiter_p.Base.{
  ℕ, zero, suc, ◌+◌, ◌≡◌, refl, ◌∙◌, none, some, List, [], ◌∷◌, Returns, arith, if◌then◌else◌, ◌==◌,
  get_or,
}
use maiter_p.Locks.{Vertexlock, init_mutex}
use maiter_p.Accumulation.{spread, mail}
use maiter_p.StateTable.Defs.{StateTable, at, modify, bucket_for_key, bucket_idx}
use maiter_p.StateTable.Access.{
  accumulate_f1, accumulate_f2, update_f1, bucket_or_fatal, add_to_v1, add_to_v2,
}
use maiter_p.StateTable.Probe.{probe, walk}
use maiter_p.StateTable.Invariant.{IsProbed, WellFormed, view}
use maiter_p.StateTable.Latest.{latest, latest-view}
use maiter_p.Maiter.Iterate.{process_row, spread_vertex, run_iter}
use maiter_p.Maiter.Balance.{Balanced}
use maiter_p.Maiter.Transit.{in_transit}
use maiter_p.Maiter.Threads.{
  System, Step, take, deliver, Reaches, start, more, Sound, Reaches-Sound, Reaches-fixpoint,
  start-Sound,
}
use maiter_p.Maiter.Turn.{Deliverable, no_message, message, Kept, run_iter-Kept}
use maiter_p.Samples.{number_key, number_value, number_kernel, cell, table, number_laws}

-- The vertex 0 has the delta 1 and an edge to the vertex 1.
abbrev edge : StateTable ℕ ℕ (List ℕ)
edge = table 2 2 (cell 0 1 0 (1 ∷ []) ∷ cell 1 0 0 [] ∷ [])

edge-IsProbed : IsProbed edge
unfolding probe walk get_or
edge-IsProbed zero h used = refl
edge-IsProbed (suc zero) h used = refl
edge-IsProbed (suc (suc i)) h used = absurd (omega arith)

edge-WellFormed : WellFormed edge
edge-WellFormed = record {
  fits = record { width = refl; nonempty = omega arith; small = omega arith };
  probed = edge-IsProbed;
}

abbrev constant : ℕ → ℕ
constant j = if j == 0 then 1 else 0

edge_fresh : (j d v : ℕ) (x : List ℕ) → view edge j ≡ some (d, v, x) → (d ≡ constant j) × (v ≡ 0)
unfolding latest
edge_fresh j d v x present =
    let e : latest j edge.buckets none ≡ some (d, v, x) = latest-view edge-WellFormed j ∙ present in
    ground (arith, e)

abbrev first : System ℕ ℕ (List ℕ)
first = record { table = edge; buffers = [] ∷ [] ∷ [] }

edge_empty : (w : ℕ) → get_or first.buffers w [] ≡ []
unfolding get_or
edge_empty zero = refl
edge_empty (suc zero) = refl
edge_empty (suc (suc w)) = refl

first-Sound : Sound constant first
first-Sound = start-Sound number_laws edge first.buffers edge-WellFormed edge_empty edge_fresh

abbrev after : ℕ → StateTable ℕ ℕ (List ℕ) → StateTable ℕ ℕ (List ℕ)
after n t = record t { total_updates = n }

abbrev done : ℕ → ℕ → List ℕ → ℕ → ℕ → StateTable ℕ ℕ (List ℕ)
done d v x p n = after n (
    table 2 2
      (record (cell 0 0 1 (1 ∷ [])) { priority = 0 } ∷ record (cell 1 d v x) { priority = p } ∷ []))

abbrev second : System ℕ ℕ (List ℕ)
second = record { table = done 0 0 [] 0 1; buffers = ((1, 1) ∷ []) ∷ [] ∷ [] }

abbrev third : System ℕ ℕ (List ℕ)
third = record { table = done 1 0 [] 1 1; buffers = [] ∷ [] ∷ [] }

abbrev fourth : System ℕ ℕ (List ℕ)
fourth = record { table = done 0 1 [] 0 2; buffers = [] ∷ [] ∷ [] }

step_one : Step first second
unfolding spread_vertex process_row at modify accumulate_f2 bucket_or_fatal bucket_for_key
    bucket_idx add_to_v2 update_f1 get_or
step_one = take 0 0 (omega arith) refl (omega arith) refl refl

step_two : Step second third
unfolding accumulate_f1 at modify bucket_for_key bucket_idx add_to_v1 get_or
step_two = deliver {s = second} {t = third.table} {out = []} 0 1 1 refl refl

step_three : Step third fourth
unfolding spread_vertex process_row at modify accumulate_f2 bucket_or_fatal bucket_for_key
    bucket_idx add_to_v2 update_f1 get_or
step_three = take 1 1 (omega arith) refl (omega arith) refl refl

whole_run : Reaches first fourth
whole_run = more (more (more start step_one) step_two) step_three

fourth_empty : (w : ℕ) → get_or fourth.buffers w [] ≡ []
unfolding get_or
fourth_empty zero = refl
fourth_empty (suc zero) = refl
fourth_empty (suc (suc w)) = refl

fourth_rest : (j d v : ℕ) (x : List ℕ) → view fourth.table j ≡ some (d, v, x) → d ≡ 0
unfolding latest
fourth_rest j d v x present =
    let e : latest j fourth.table.buckets none ≡ some (d, v, x) =
      latest-view (Reaches-Sound number_laws first-Sound whole_run).wf j ∙ present in
    ground (arith, e)

fourth_has_1 : view fourth.table 1 ≡ some (0, 1, [])
unfolding view probe walk get_or
fourth_has_1 = refl

Reaches-Sound_example : Sound constant fourth
Reaches-Sound_example = Reaches-Sound number_laws first-Sound whole_run

Reaches-fixpoint_example : 1 ≡ constant 1 + spread number_kernel fourth.table.buckets 1
Reaches-fixpoint_example =
    Reaches-fixpoint number_laws first-Sound whole_run fourth_empty fourth_rest 1 0 1 []
      fourth_has_1

abbrev pub locks : Vertexlock
locks = init_mutex 2

edge-Deliverable : Deliverable locks edge ((1, 1) ∷ [])
unfolding init_mutex get_or view probe walk
edge-Deliverable = message (omega arith, refl) refl no_message

edge-Balanced : Balanced constant edge (λ j. 0)
unfolding in_transit mail
edge-Balanced = first-Sound.balanced

run_iter-Kept_example :
    Returns (run_iter locks edge 0) (Kept number_laws constant (λ j. 0) locks edge)
unfolding get_or init_mutex
run_iter-Kept_example =
    run_iter-Kept number_laws constant (λ j. 0) locks edge-WellFormed edge-Balanced 0 (omega arith)
      refl (omega arith, refl) edge-Deliverable
