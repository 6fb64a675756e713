-- ===== src/Examples/Ranks.antt =====
-- The PageRank program of src/examples/pagerank.cpp meets what accumulative iteration asks of it.
use maiter_p.Base.{ℕ, suc, ◌≡◌, refl, ap, sym, ◌∙◌, List, [], ◌∷◌, length}
use maiter_p.Base.Int.{ℤ}
use maiter_p.Kernel.{Key}
use maiter_p.Accumulation.{AccMonoid, Accumulative, sent, mail, along, along-add, along-default}
use maiter_p.Examples.Doubles.{Double}
use maiter_p.Examples.Laws.{Exact}
use maiter_p.Examples.Pagerank.{pagerank, share}

-- Division by a number of links, in exact arithmetic.
pub record Divides {V : Type 0} (double : Double V) : Type 0 where
  pub div_add :
      (a b : V) (n : ℕ)
      → double.div (double.add a b) (double.of_int (suc n))
        ≡ double.add (double.div a (double.of_int (suc n))) (double.div b (double.of_int (suc n)))
  pub div_zero :
      (n : ℕ) → double.div (double.literal 0 0) (double.of_int (suc n)) ≡ double.literal 0 0

module _ {V : Type 0} ⦃key : Key ℤ⦄ ⦃double : Double V⦄ (exact : Exact double)
    (divides : Divides double) where
  pagerank-AccMonoid : AccMonoid (pagerank {V = V})
  unfolding pagerank
  pagerank-AccMonoid = record {
    acc_assoc = exact.add_assoc;
    acc_comm = exact.add_comm;
    acc_default = exact.add_zero;
  }

  abbrev shared : ℕ → V → ℤ → V
  shared n d target = share d n

  add_at :
      (d e : V) (x : List ℤ) (j : ℤ)
      → along
          (pagerank {V = V})
          pagerank-AccMonoid
          (λ t. t)
          (shared (length x))
          j
          (double.add d e)
          x
        ≡ double.add
            (along (pagerank {V = V}) pagerank-AccMonoid (λ t. t) (shared (length x)) j d x)
            (along (pagerank {V = V}) pagerank-AccMonoid (λ t. t) (shared (length x)) j e x)
  unfolding pagerank share mail
  add_at d e [] j = sym (exact.add_zero _)
  add_at d e (t ∷ x) j =
      along-add (pagerank {V = V}) pagerank-AccMonoid (λ t. t) (shared (suc (length x))) j
        (λ a b l.
          ap (λ z. double.div z (double.of_int (suc (length x)))) (exact.mul_add a b _)
          ∙ divides.div_add _ _ (length x))
        d e (t ∷ x)

  default_at :
      (x : List ℤ) (j : ℤ)
      → along
          (pagerank {V = V})
          pagerank-AccMonoid
          (λ t. t)
          (shared (length x))
          j
          (double.literal 0 0)
          x
        ≡ double.literal 0 0
  unfolding pagerank share mail
  default_at [] j = refl
  default_at (t ∷ x) j =
      along-default (pagerank {V = V}) pagerank-AccMonoid (λ t. t) (shared (suc (length x))) j
        (λ l.
          ap (λ z. double.div z (double.of_int (suc (length x)))) (exact.mul_zero _)
          ∙ divides.div_zero (length x))
        (t ∷ x)

  -- Over exact arithmetic with exact division by a number of links, the PageRank program is
  -- accumulative.
  pub pagerank-Accumulative : Accumulative (pagerank {V = V})
  unfolding pagerank sent share mail
  pagerank-Accumulative = record {
    monoid = pagerank-AccMonoid;
    plain = λ k d v x. refl;
    by_delta = λ k d v x. refl;
    sent_add = λ k d e x j. add_at d e x j;
    sent_default = λ k x j. default_at x j;
  }
