-- ===== src/Util/Tuple/Equality.antt =====
-- Equality and hash of the tuples of src/util/tuple.h.
use maiter_p.Base.{ℕ, ◌^◌, ◌≡◌, ◌<◌, ◌↔◌, refl, sym, Bool, true, ◌++◌, Returns, And-true}
use maiter_p.Util.Hash.{int_of}
use maiter_p.Util.Hash.Reads.{super_fast_hash-Returns}
use maiter_p.Util.Marshal.{word_bytes}
use maiter_p.Util.Tuple.{Tuple2, Tuple3, mp2, mp3, mp4, beq2, beq3, beq4, hash2, hash3}

-- The test decides equality.
abbrev IsEquality {ℓ} : {A : Type ℓ} → (A → A → Bool) → Type ℓ
IsEquality {A = A} eq = (a b : A) → (eq a b ≡ true) ↔ (a ≡ b)

module _ {ℓ} {A B : Type ℓ} {eq_a : A → A → Bool} {eq_b : B → B → Bool} (law_a : IsEquality eq_a)
    (law_b : IsEquality eq_b) where
  mp2_congr : {a a' : A} {b b' : B} → a ≡ a' → b ≡ b' → mp2 a b ≡ mp2 a' b'
  mp2_congr e f = cc

  beq2-IsEquality : IsEquality (beq2 eq_a eq_b)
  unfolding beq2 mp2
  beq2-IsEquality t o = (
    λ h. let (a, b) = And-true _ _ h in sym (mp2_congr ((law_a _ _).0 a) ((law_b _ _).0 b)),
    λ h. rw (h, (law_a o.a_ o.a_).1 refl, (law_b o.b_ o.b_).1 refl) refl,
  )

  module _ {C : Type ℓ} {eq_c : C → C → Bool} (law_c : IsEquality eq_c) where
    mp3_congr :
        {a a' : A} {b b' : B} {c c' : C} → a ≡ a' → b ≡ b' → c ≡ c' → mp3 a b c ≡ mp3 a' b' c'
    mp3_congr e f g = cc

    beq3-IsEquality : IsEquality (beq3 eq_a eq_b eq_c)
    unfolding beq3 mp3
    beq3-IsEquality t o = (
      λ h.
          let (ab, c) = And-true _ _ h in
          let (a, b) = And-true _ _ ab in
          sym (mp3_congr ((law_a _ _).0 a) ((law_b _ _).0 b) ((law_c _ _).0 c)),
      λ h.
          rw (h, (law_a o.a_ o.a_).1 refl, (law_b o.b_ o.b_).1 refl, (law_c o.c_ o.c_).1 refl) refl,
    )

    module _ {D : Type ℓ} {eq_d : D → D → Bool} (law_d : IsEquality eq_d) where
      mp4_congr :
          {a a' : A} {b b' : B} {c c' : C} {d d' : D}
          → a ≡ a'
          → b ≡ b'
          → c ≡ c'
          → d ≡ d'
          → mp4 a b c d ≡ mp4 a' b' c' d'
      mp4_congr e f g h = cc

      beq4-IsEquality : IsEquality (beq4 eq_a eq_b eq_c eq_d)
      unfolding beq4 mp4
      beq4-IsEquality t o = (
        λ h.
            let (abc, d) = And-true _ _ h in
            let (ab, c) = And-true _ _ abc in
            let (a, b) = And-true _ _ ab in
            sym (mp4_congr ((law_a _ _).0 a) ((law_b _ _).0 b) ((law_c _ _).0 c) ((law_d _ _).0 d)),
        λ h.
            rw
              (
                h,
                (law_a o.a_ o.a_).1 refl,
                (law_b o.b_ o.b_).1 refl,
                (law_c o.c_ o.c_).1 refl,
                (law_d o.d_ o.d_).1 refl,
              )
              refl,
      )

      -- Tests that decide equality of the parts make `==` on tuples of two, three and four parts decide
      -- equality.
      pub tuples-IsEquality :
          IsEquality (beq2 eq_a eq_b)
          × IsEquality (beq3 eq_a eq_b eq_c)
          × IsEquality (beq4 eq_a eq_b eq_c eq_d)
      tuples-IsEquality = (beq2-IsEquality, beq3-IsEquality, beq4-IsEquality)

-- The hashes of tuples end, in numbers below 2 ^ 32.
module _ {ℓ} {A B C : Type ℓ} (ha : A → ℕ) (hb : B → ℕ) (hc : C → ℕ) where
  pub hash2-Returns : (k : Tuple2 A B) → Returns (hash2 ha hb k) (λ h. h < 2 ^ 32)
  unfolding hash2 word_bytes int_of
  hash2-Returns k = super_fast_hash-Returns (word_bytes 8 (ha k.a_) ++ word_bytes 8 (hb k.b_))

  pub hash3-Returns : (k : Tuple3 A B C) → Returns (hash3 ha hb hc k) (λ h. h < 2 ^ 32)
  unfolding hash3 word_bytes int_of
  hash3-Returns k =
      super_fast_hash-Returns
        (word_bytes 8 (ha k.a_) ++ (word_bytes 8 (hb k.b_) ++ word_bytes 8 (hc k.c_)))
