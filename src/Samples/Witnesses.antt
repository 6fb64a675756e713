-- ===== src/Samples/Witnesses.antt =====
-- The theorems at concrete tables.
use maiter_p.Base.{ℕ, ◌+◌, ◌≤◌, ◌≡◌, refl, none, some, [], ◌∷◌, ok, Returns, arith, get_or}
use maiter_p.Locks.{Vertexlock, init_mutex}
use maiter_p.StateTable.Defs.{bucket_for_key}
use maiter_p.StateTable.Access.{update_f1, update_f2, update_f3, accumulate_f1, accumulate_f2}
use maiter_p.StateTable.Put.{blank, put, put_loop, resize}
use maiter_p.StateTable.Probe.{home, probe, walk, bucket_of, place_of, searches-probe}
use maiter_p.StateTable.Invariant.{view, used}
use maiter_p.StateTable.Insert.{Puts, put-Puts}
use maiter_p.StateTable.Overwrite.{Overwrites, put-Overwrites}
use maiter_p.StateTable.Resize.{Stands, resize-Stands}
use maiter_p.StateTable.Grow.{Grows, put-Grows}
use maiter_p.StateTable.Total.{Stores, put-Stores}
use maiter_p.StateTable.Lookup.{Answers, readers-Answers}
use maiter_p.StateTable.Update.{Updates, writers-Updates}
use maiter_p.Samples.{
  number_key, number_value, number_kernel, pair, crowd, pair-WellFormed, crowd-WellFormed,
}

pair_has_3 : view pair 3 ≡ some (2, 0, 0 ∷ 0 ∷ [])
unfolding view probe walk get_or
pair_has_3 = refl

pair_lacks_1 : view pair 1 ≡ none
unfolding view probe walk get_or blank
pair_lacks_1 = refl

crowd_lacks_7 : (e : ℕ) → view (crowd e) 7 ≡ none
unfolding view probe walk get_or
crowd_lacks_7 e = refl

put-Puts_example : Returns (put 1 pair 1 7 0 []) (Puts pair 1 (7, 0, []))
unfolding used blank
put-Puts_example = put-Puts pair-WellFormed 1 7 0 [] 0 (λ absent. (omega arith, omega arith))

put-Overwrites_example : Returns (put 1 (crowd 2) 7 9 9 []) (Overwrites (crowd 2) 7 1 (9, 9, []))
unfolding used get_or
put-Overwrites_example =
    put-Overwrites (crowd-WellFormed 2) 0 7 9 9 [] (crowd_lacks_7 2) refl (omega arith)

put-Grows_example : Returns (put 2 (crowd 3) 7 9 9 []) (Grows (crowd 3) 7 (9, 9, []))
put-Grows_example =
    put-Grows (crowd-WellFormed 3) 7 9 9 [] 0 (omega arith) (omega arith) (crowd_lacks_7 3)

put-Stores_example : Returns (put 2 pair 1 7 0 []) (Stores pair 1 (7, 0, []))
put-Stores_example = put-Stores pair-WellFormed 1 7 0 [] 0 (omega arith)

resize-Stands_example :
    Returns (resize 1 pair 5) λ t'. Stands 5 (view pair) t' × (used t'.buckets ≤ used pair.buckets)
unfolding used blank
resize-Stands_example =
    resize-Stands pair-WellFormed 0 5 (λ e. refl) (omega arith) (omega arith) (omega arith)

readers-Answers_example : Answers pair-WellFormed 3 (view pair 3)
readers-Answers_example = readers-Answers pair-WellFormed 3

writers-Updates_example :
    Returns (update_f1 pair 3 5) (Updates pair 3 (5, 0, 0 ∷ 0 ∷ []) 1)
    × Returns (update_f2 pair 3 5) (Updates pair 3 (2, 5, 0 ∷ 0 ∷ []) 0)
    × Returns (update_f3 pair 3 []) (Updates pair 3 (2, 0, []) 0)
    × Returns (accumulate_f1 pair 3 5) (Updates pair 3 (2 + 5, 0, 0 ∷ 0 ∷ []) 0)
    × Returns (accumulate_f2 pair 3 5) (Updates pair 3 (2, 0 + 5, 0 ∷ 0 ∷ []) 0)
writers-Updates_example = writers-Updates pair-WellFormed 3 2 0 (0 ∷ 0 ∷ []) pair_has_3 5 []

searches-probe_example :
    (bucket_for_key pair 3 ≡ ok (bucket_of (probe pair 3)))
    × (put_loop 3 pair 3 (home pair 3) (home pair 3) ≡ ok (place_of (home pair 3) (probe pair 3)))
searches-probe_example = searches-probe pair-WellFormed.fits 3

abbrev two_locks : Vertexlock
two_locks = init_mutex 4
