-- ===== src/Util/Tuple.antt =====
-- src/util/tuple.h: tuples, their equality, hash and text, and small vectors. The tests, hashes and
-- texts of the parts are parameters; strings are lists of bytes.
use Prim.Native.Nat.{bit_xor}
use maiter_p.Base.{ℕ, ◌^◌, ◌≡◌, ◌<◌, refl, Bool, ◌&&◌, List, [], ◌∷◌, ◌++◌, Run}
use maiter_p.Base.Int.{pos}
use maiter_p.Util.Hash.{super_fast_hash}
use maiter_p.Util.Marshal.{word_bytes}
pub mod Equality

pub record Tuple2 {ℓ} (A B : Type ℓ) : Type ℓ where
  pub a_ : A
  pub b_ : B

pub record Tuple3 {ℓ} (A B C : Type ℓ) : Type ℓ where
  pub a_ : A
  pub b_ : B
  pub c_ : C

pub record Tuple4 {ℓ} (A B C D : Type ℓ) : Type ℓ where
  pub a_ : A
  pub b_ : B
  pub c_ : C
  pub d_ : D

module _ {ℓ} {A B : Type ℓ} where
  -- `MP`
  unfoldable pub mp2 : A → B → Tuple2 A B
  mp2 x y = record { a_ = x; b_ = y }

  unfoldable pub mp3 : {C : Type ℓ} → A → B → C → Tuple3 A B C
  mp3 x y z = record { a_ = x; b_ = y; c_ = z }

  unfoldable pub mp4 : {C D : Type ℓ} → A → B → C → D → Tuple4 A B C D
  mp4 x y z a = record { a_ = x; b_ = y; c_ = z; d_ = a }

-- `MakeVector`, after each `push_back`.
module _ {ℓ} {A : Type ℓ} where
  unfoldable pub push_back : List A → A → List A
  push_back out x = out ++ x ∷ []

  unfoldable pub make_vector1 : A → List A
  unfolding push_back
  make_vector1 x = push_back [] x

  unfoldable pub make_vector2 : A → A → List A
  unfolding push_back
  make_vector2 x y = push_back (push_back [] x) y

  unfoldable pub make_vector3 : A → A → A → List A
  unfolding push_back
  make_vector3 x y z = push_back (push_back (push_back [] x) y) z

module _ {ℓ} {A B : Type ℓ} (eq_a : A → A → Bool) (eq_b : B → B → Bool) where
  -- `operator==`
  unfoldable pub beq2 : Tuple2 A B → Tuple2 A B → Bool
  beq2 t o = eq_a o.a_ t.a_ && eq_b o.b_ t.b_

  module _ {C : Type ℓ} (eq_c : C → C → Bool) where
    unfoldable pub beq3 : Tuple3 A B C → Tuple3 A B C → Bool
    beq3 t o = (eq_a o.a_ t.a_ && eq_b o.b_ t.b_) && eq_c o.c_ t.c_

    unfoldable pub beq4 : {D : Type ℓ} → (D → D → Bool) → Tuple4 A B C D → Tuple4 A B C D → Bool
    beq4 eq_d t o = ((eq_a o.a_ t.a_ && eq_b o.b_ t.b_) && eq_c o.c_ t.c_) && eq_d o.d_ t.d_

module _ {ℓ} {A B : Type ℓ} (ha : A → ℕ) (hb : B → ℕ) where
  -- `hash<pair<A, B> >`
  unfoldable pub hash_pair : A × B → ℕ
  hash_pair (a, b) = bit_xor (ha a) (hb b)

  -- The two hashes, of eight bytes each, as one string.
  unfoldable pub hash2 : Tuple2 A B → Run ℕ
  unfolding super_fast_hash
  hash2 k = super_fast_hash (word_bytes 8 (ha k.a_) ++ word_bytes 8 (hb k.b_)) (pos 16)

  unfoldable pub hash3 : {C : Type ℓ} → (C → ℕ) → Tuple3 A B C → Run ℕ
  unfolding super_fast_hash
  hash3 hc k =
      super_fast_hash (word_bytes 8 (ha k.a_) ++ (word_bytes 8 (hb k.b_) ++ word_bytes 8 (hc k.c_)))
        (pos 24)

module _ {ℓ} {A B : Type ℓ} (out_a : A → List ℕ) (out_b : B → List ℕ) where
  -- `operator<<`: 40 is `(`, 44 a comma, 41 `)`.
  unfoldable pub print_pair : A × B → List ℕ
  print_pair (a, b) = 40 ∷ (out_a a ++ 44 ∷ (out_b b ++ 41 ∷ []))

  unfoldable pub print2 : Tuple2 A B → List ℕ
  print2 p = 40 ∷ (out_a p.a_ ++ 44 ∷ (out_b p.b_ ++ 41 ∷ []))

  module _ {C : Type ℓ} (out_c : C → List ℕ) where
    unfoldable pub print3 : Tuple3 A B C → List ℕ
    print3 p = 40 ∷ (out_a p.a_ ++ 44 ∷ (out_b p.b_ ++ 44 ∷ (out_c p.c_ ++ 41 ∷ [])))

    unfoldable pub print4 : {D : Type ℓ} → (D → List ℕ) → Tuple4 A B C D → List ℕ
    print4 out_d p =
        40 ∷ (out_a p.a_ ++ 44 ∷ (out_b p.b_ ++ 44 ∷ (out_c p.c_ ++ 44 ∷ (out_d p.d_ ++ 41 ∷ []))))
