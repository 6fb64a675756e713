-- ===== src/Maiter/Frame.antt =====
-- What a call of `run_iter` (src/kernel/kernel.h) leaves in the buckets: which are in use, their keys
-- and their adjacency data.
use maiter_p.Base.{
  ℕ, zero, suc, ◌≡◌, refl, sym, ap, ◌∙◌, Bool, Option, none, some, List, [], ◌∷◌, Run, ok, fault,
  >>=-eq-ok, ok-injective, assertion, get_or, set, length, length-set,
}
use mathlib.Core.Path.{subst}
use maiter_p.Kernel.{Key, Value, IterateKernel}
use maiter_p.Locks.{Vertexlock, lock, unlock}
use maiter_p.StateTable.Defs.{StateTable, Bucket, at, modify, bucket_for_key}
use maiter_p.StateTable.Access.{
  accumulate_f1, accumulate_f2, update_f1, add_to_v1, add_to_v2, bucket_or_fatal,
}
use maiter_p.StateTable.Put.{blank}
use maiter_p.StateTable.Probe.{slot}
use maiter_p.Maiter.Iterate.{
  process_row, spread_vertex, locked_spread, locked_accumulate, send_output, run_iter,
}

module _ {ℓ} {K V D : Type ℓ} where
  abbrev pub frame : Bucket K V D → Bool × K × D
  frame u = (u.in_use, u.k, u.v3)

  frame-set :
      (us : List (Bucket K V D)) (b : ℕ) (u w o : Bucket K V D)
      → at us b ≡ ok u
      → frame w ≡ frame u
      → (pos : ℕ) → frame (get_or (set us b w) pos o) ≡ frame (get_or us pos o)
  unfolding at get_or
  frame-set [] b u w o there same pos = refl
  frame-set (x ∷ us) zero u w o there same zero = same ∙ ap frame (sym (ok-injective there))
  frame-set (x ∷ us) zero u w o there same (suc pos) = refl
  frame-set (x ∷ us) (suc b) u w o there same zero = refl
  frame-set (x ∷ us) (suc b) u w o there same (suc pos) = frame-set us b u w o there same pos

module _ {ℓ} {K V D : Type ℓ} ⦃key : Key K⦄ ⦃value : Value V⦄ ⦃kernel : IterateKernel K V D⦄ where
  pub record SameFrame (t t' : StateTable K V D) : Type ℓ where
    pub same_size : t'.size ≡ t.size
    pub same_width : length t'.buckets ≡ length t.buckets
    pub same_frame : (pos : ℕ) → frame (slot t' pos) ≡ frame (slot t pos)

  pub SameFrame-refl : (t : StateTable K V D) → SameFrame t t
  SameFrame-refl t = record { same_size = refl; same_width = refl; same_frame = λ pos. refl }

  pub SameFrame-trans :
      {t t' t'' : StateTable K V D} → SameFrame t t' → SameFrame t' t'' → SameFrame t t''
  SameFrame-trans a b = record {
    same_size = b.same_size ∙ a.same_size;
    same_width = b.same_width ∙ a.same_width;
    same_frame = λ pos. b.same_frame pos ∙ a.same_frame pos;
  }

  modify-SameFrame :
      (t : StateTable K V D) (b : ℕ) (f : Bucket K V D → Bucket K V D) {t' : StateTable K V D}
      → ((u : Bucket K V D) → frame (f u) ≡ frame u)
      → modify t b f ≡ ok t'
      → SameFrame t t'
  unfolding modify
  modify-SameFrame t b f same run =
      let (u, there, made) = >>=-eq-ok (at t.buckets b) _ run in
      subst (λ y. SameFrame t y) (ok-injective made)
        (record {
          same_size = refl;
          same_width = length-set t.buckets b (f u);
          same_frame = frame-set t.buckets b u (f u) blank there (same u);
        })

  pub accumulate_f1-SameFrame :
      (t : StateTable K V D) (i : K) (a : V) {t' : StateTable K V D}
      → accumulate_f1 t i a ≡ ok t'
      → SameFrame t t'
  unfolding accumulate_f1 add_to_v1
  accumulate_f1-SameFrame t i a run =
      let (found, _, rest) = >>=-eq-ok (bucket_for_key t i) _ run in at_found found rest
    where
      at_found :
          (found : Option ℕ) {t' : StateTable K V D}
          → elim found as (λ x. Run (StateTable K V D)) [
            | none ↦ fault assertion
            | some b ↦ modify t b (add_to_v1 a)
          ]
            ≡ ok t'
          → SameFrame t t'
      at_found none h = absurd (cc h)
      at_found (some b) h = modify-SameFrame t b (add_to_v1 a) (λ u. refl) h

  accumulate_f2-SameFrame :
      (t : StateTable K V D) (i : K) (a : V) {t' : StateTable K V D}
      → accumulate_f2 t i a ≡ ok t'
      → SameFrame t t'
  unfolding accumulate_f2 add_to_v2
  accumulate_f2-SameFrame t i a run =
      let (b, _, rest) = >>=-eq-ok (bucket_or_fatal t i) _ run in
      modify-SameFrame t b (add_to_v2 a) (λ u. refl) rest

  update_f1-SameFrame :
      (t : StateTable K V D) (i : K) (a : V) {t' : StateTable K V D}
      → update_f1 t i a ≡ ok t'
      → SameFrame t t'
  unfolding update_f1
  update_f1-SameFrame t i a run =
      let (b, _, rest) = >>=-eq-ok (bucket_or_fatal t i) _ run in
      let (t₁, changed, counted) = >>=-eq-ok (modify t b _) _ rest in
      let same = modify-SameFrame t b _ (λ u. refl) changed in
      subst (λ y. SameFrame t y) (ok-injective counted)
        (record {
          same_size = same.same_size;
          same_width = same.same_width;
          same_frame = same.same_frame;
        })

  module _ (plain : (k : K) (d v : V) (x : D) → kernel.process_delta_v k d v x ≡ (d, v, x)) where
    pub spread_vertex-SameFrame :
        (t : StateTable K V D) (pos : ℕ) (out : List (K × V)) {r : StateTable K V D × List (K × V)}
        → spread_vertex t pos out ≡ ok r
        → SameFrame t r.0
    unfolding spread_vertex process_row
    spread_vertex-SameFrame t pos out run =
        let (u, _, rest) = >>=-eq-ok (at t.buckets pos) _ run in
        let (t₁, processed, rest₁) = >>=-eq-ok (modify t pos process_row) _ rest in
        let (p, _, rest₂) = >>=-eq-ok (at t₁.buckets pos) _ rest₁ in
        let (t₂, taken, rest₃) = >>=-eq-ok (accumulate_f2 t₁ u.k p.v1) _ rest₂ in
        let (w, _, rest₄) = >>=-eq-ok (at t₂.buckets pos) _ rest₃ in
        let (t₃, reset, made) = >>=-eq-ok (update_f1 t₂ u.k kernel.default_v) _ rest₄ in
        subst (λ y. SameFrame t y.0) (ok-injective made)
          (SameFrame-trans
            (modify-SameFrame t pos process_row
              (λ b. ap (λ y. (b.in_use, b.k, y.2)) (plain b.k b.v1 b.v2 b.v3)) processed)
            (SameFrame-trans (accumulate_f2-SameFrame t₁ u.k p.v1 taken)
              (update_f1-SameFrame t₂ u.k kernel.default_v reset)))

    locked_spread-SameFrame :
        (l : Vertexlock) (t : StateTable K V D) (pos : ℕ) (out : List (K × V))
        {r : Vertexlock × StateTable K V D × List (K × V)}
        → locked_spread l t pos out ≡ ok r
        → SameFrame t r.1
    unfolding locked_spread
    locked_spread-SameFrame l t pos out run =
        let (u, _, rest) = >>=-eq-ok (at t.buckets pos) _ run in
        let (l₁, _, rest₁) = >>=-eq-ok (lock l (key.node u.k)) _ rest in
        let (r₁, spreads, rest₂) = >>=-eq-ok (spread_vertex t pos out) _ rest₁ in
        let (l₂, _, made) = >>=-eq-ok (unlock l₁ (key.node u.k)) _ rest₂ in
        subst (λ y. SameFrame t y.1) (ok-injective made) (spread_vertex-SameFrame t pos out spreads)

  send_output-SameFrame :
      (l : Vertexlock) (t : StateTable K V D) (out : List (K × V))
      {r : Vertexlock × StateTable K V D}
      → send_output l t out ≡ ok r
      → SameFrame t r.1
  unfolding send_output locked_accumulate
  send_output-SameFrame l t [] run =
      subst (λ y. SameFrame t y.1) (ok-injective run) (SameFrame-refl t)
  send_output-SameFrame l t ((j, a) ∷ out) run =
      let (r₁, sends, rest) = >>=-eq-ok (locked_accumulate l t (j, a)) _ run in
      let (l₁, _, rest₁) = >>=-eq-ok (lock l (key.node j)) _ sends in
      let (t₁, adds, rest₂) = >>=-eq-ok (accumulate_f1 t j a) _ rest₁ in
      let (l₂, _, made) = >>=-eq-ok (unlock l₁ (key.node j)) _ rest₂ in
      SameFrame-trans
        (subst (λ y. SameFrame t y.1) (ok-injective made) (accumulate_f1-SameFrame t j a adds))
        (send_output-SameFrame r₁.0 r₁.1 out rest)

  pub run_iter-SameFrame :
      ((k : K) (d v : V) (x : D) → kernel.process_delta_v k d v x ≡ (d, v, x))
      → (l : Vertexlock) (t : StateTable K V D) (pos : ℕ) {r : Vertexlock × StateTable K V D}
      → run_iter l t pos ≡ ok r
      → SameFrame t r.1
  unfolding run_iter
  run_iter-SameFrame plain l t pos run =
      let (r₁, spreads, rest) = >>=-eq-ok (locked_spread l t pos []) _ run in
      SameFrame-trans (locked_spread-SameFrame plain l t pos [] spreads)
        (send_output-SameFrame r₁.0 r₁.1 r₁.2 rest)
