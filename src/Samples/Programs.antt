-- ===== src/Samples/Programs.antt =====
-- The theorems on the vertex programs, at small arithmetics.
use maiter_p.Base.{
  ==_iff, ◌==◌, ◌↔◌, ℕ, ◌+◌, ◌-◌, ◌*◌, ◌/◌, ◌^◌, ◌≡◌, refl, ap, Bool, true, false, Option, none,
  some, List, [], ◌∷◌, Run, ok, arith, ltb, not,
}
use maiter_p.Kernel.{Key, Value}
use maiter_p.Accumulation.{Accumulative}
use maiter_p.Examples.Doubles.{Double}
use maiter_p.Examples.Text.{read_links, read_each, spaced, read_links-spaced, lacks, all_lack}
use maiter_p.Examples.Shortestpath.{Casts}
use maiter_p.Examples.Katz.{katz}
use maiter_p.Examples.Adsorption.{adsorption}
use maiter_p.Examples.Laws.{Ordered, Absorbs, Exact, linear-Accumulative}
use maiter_p.Examples.Pagerank.{pagerank}
use maiter_p.Examples.Ranks.{Divides, pagerank-Accumulative}
use maiter_p.Base.Int.{ℤ, pos, negsuc}
use maiter_p.Samples.{number_key}

-- A distance; `none` is the largest.
abbrev pub shorter : Option ℕ → Option ℕ → Bool
shorter none b = false
shorter (some a) none = true
shorter (some a) (some b) = ltb a b

instance abbrev pub distance_value : Value (Option ℕ)
distance_value = record {
  zero_v = some 0;
  veq = λ a b. false;
  vlt = shorter;
  vge = λ a b. not (shorter a b);
}

abbrev pub further : Option ℕ → Option ℕ → Option ℕ
further none w = none
further (some a) none = some a
further (some a) (some w) = some (a + w)

instance abbrev pub distance_double : Double (Option ℕ)
distance_double = record {
  max_d = none;
  literal = λ m e. some m;
  of_int = λ n. some n;
  add = further;
  sub = λ a b. a;
  mul = λ a b. a;
  div = λ a b. a;
}

pub distance_ordered : Ordered distance_value distance_double
distance_ordered = record {
  lt_irrefl = irrefl;
  lt_trans = trans;
  lt_total = total;
  lt_max = λ a. refl;
}
  where
    irrefl : (a : Option ℕ) → shorter a a ≡ false
    irrefl none = refl
    irrefl (some a) = ground arith

    trans : (a b c : Option ℕ) → shorter a b ≡ true → shorter b c ≡ true → shorter a c ≡ true
    trans none b c h h' = absurd (cc h)
    trans (some a) b none h h' = refl
    trans (some a) none (some c) h h' = absurd (cc h')
    trans (some a) (some b) (some c) h h' = ground arith

    total : (a b : Option ℕ) → shorter a b ≡ false → shorter b a ≡ false → a ≡ b
    total none none h h' = refl
    total none (some b) h h' = absurd (cc h')
    total (some a) none h h' = absurd (cc h)
    total (some a) (some b) h h' = ap some (ground arith)

pub distance_absorbs : Absorbs distance_value distance_double
distance_absorbs = record { add_lt = add_lt; add_max = λ w. refl }
  where
    add_lt : (a b w : Option ℕ) → shorter (further a w) (further b w) ≡ shorter a b
    add_lt none b w = refl
    add_lt (some a) none none = refl
    add_lt (some a) none (some w) = refl
    add_lt (some a) (some b) none = refl
    add_lt (some a) (some b) (some w) = ground arith

abbrev distance_casts : Casts ℕ (Option ℕ)
distance_casts = record { cast_key = λ s. ok 0; cast_value = λ s. ok none }

instance abbrev pub number_double : Double ℕ
number_double = record {
  max_d = 2 ^ 64;
  literal = λ m e. m;
  of_int = λ n. n;
  add = λ a b. a + b;
  sub = λ a b. a - b;
  mul = λ a b. a * b;
  div = λ a b. a / b;
}

pub number-Exact : Exact number_double
number-Exact = record {
  add_assoc = λ a b c. omega arith;
  add_comm = λ a b. omega arith;
  add_zero = λ a. omega arith;
  mul_comm = λ a b. grind arith;
  mul_add = λ a b w. grind arith;
  mul_zero = λ w. omega arith;
}

abbrev number_casts : Casts ℕ ℕ
number_casts = record { cast_key = λ s. ok 0; cast_value = λ s. ok 1 }

linear-Accumulative_example :
    Accumulative (katz number_casts 2 5) × Accumulative (adsorption number_casts 2 5)
linear-Accumulative_example = linear-Accumulative number_casts 2 5 number-Exact

unfoldable pos_of : ℤ → ℕ
pos_of (pos a) = a
pos_of (negsuc a) = 0

unfoldable neg_of : ℤ → ℕ
neg_of (pos a) = 0
neg_of (negsuc a) = a

unfoldable same_int : ℤ → ℤ → Bool
same_int (pos a) (pos b) = a == b
same_int (negsuc a) (negsuc b) = a == b
same_int _ _ = false

same_int_iff : (a b : ℤ) → (same_int a b ≡ true) ↔ (a ≡ b)
unfolding same_int pos_of neg_of
same_int_iff (pos a) (pos b) = (λ h. ap pos ((==_iff a b).0 h), λ e. (==_iff a b).1 (ap pos_of e))
same_int_iff (negsuc a) (negsuc b) =
    (λ h. ap negsuc ((==_iff a b).0 h), λ e. (==_iff a b).1 (ap neg_of e))
same_int_iff (pos a) (negsuc b) = (λ h. absurd (cc h), λ e. absurd (cc e))
same_int_iff (negsuc a) (pos b) = (λ h. absurd (cc h), λ e. absurd (cc e))

instance abbrev int_key : Key ℤ
int_key = record {
  no_key = pos 0;
  beq = same_int;
  beq_iff = same_int_iff;
  hash = pos_of;
  node = pos_of;
}

-- An arithmetic in which sharing out is exact.
abbrev whole_double : Double ℕ
whole_double = record number_double { div = λ a b. a }

whole-Exact : Exact whole_double
whole-Exact = record {
  add_assoc = λ a b c. omega arith;
  add_comm = λ a b. omega arith;
  add_zero = λ a. omega arith;
  mul_comm = λ a b. grind arith;
  mul_add = λ a b w. grind arith;
  mul_zero = λ w. omega arith;
}

whole-Divides : Divides whole_double
whole-Divides = record { div_add = λ a b n. refl; div_zero = λ n. refl }

pagerank-Accumulative_example : Accumulative (pagerank {V = ℕ} ⦃double = whole_double⦄)
pagerank-Accumulative_example =
    pagerank-Accumulative ⦃key = int_key⦄ ⦃double = whole_double⦄ whole-Exact whole-Divides

abbrev words : List (List ℕ)
words = (49 ∷ 50 ∷ []) ∷ (51 ∷ []) ∷ []

abbrev keep : List ℕ → List ℕ → Run (List ℕ)
keep w rest = ok w

read_links-spaced_example :
    read_links keep 3 (spaced words (52 ∷ [])) ≡ read_each keep words (52 ∷ [])
unfolding all_lack lacks
read_links-spaced_example = read_links-spaced keep words (52 ∷ []) 3 refl refl (omega arith)
