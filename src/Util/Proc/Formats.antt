-- ===== src/Util/Proc/Formats.antt =====
-- How `fscanf` reads a label, in the queries of src/util/common.cc.
use maiter_p.Base.{
  ℕ, ◌≤◌, ◌≡◌, refl, Bool, true, false, ◌&&◌, List, [], ◌∷◌, ◌++◌, map, ◌==◌, if◌then◌else◌, arith,
  length, Bool-cases, inl, inr, And-true, ==_self,
}
use maiter_p.Util.Proc.{Directive, byte, scan}

unfoldable pub is_prefix : List ℕ → List ℕ → Bool
is_prefix [] xs = true
is_prefix (c ∷ label) [] = false
is_prefix (c ∷ label) (x ∷ xs) = (x == c) && is_prefix label xs

-- The label starts nowhere in a text.
unfoldable pub absent : List ℕ → List ℕ → Bool
unfolding is_prefix
absent label [] = true
absent label (x ∷ xs) = (if is_prefix label (x ∷ xs) then false else true) && absent label xs

-- A label of one line.
unfoldable pub one_line : List ℕ → Bool
one_line [] = true
one_line (c ∷ label) = (if c == 10 then false else true) && one_line label

pub scan-label :
    (label xs : List ℕ) (ds : List Directive)
    → scan (map byte label ++ ds) (label ++ xs) ≡ scan ds xs
unfolding scan
scan-label [] xs ds = refl
scan-label (c ∷ label) xs ds = rw (scan, ==_self c) (scan-label label xs ds)

-- Where the label does not stand, `fscanf` stores nothing and leaves a rest without the label.
pub record Stops (label : List ℕ) (ds : List Directive) (xs : List ℕ) : Type 0 where
  pub left : List ℕ
  pub stops : scan (map byte label ++ ds) xs ≡ ([], left)
  pub shorter : length left ≤ length xs
  pub still : (l : List ℕ) → absent l xs ≡ true → absent l left ≡ true

pub scan-Stops :
    (label xs : List ℕ) (ds : List Directive) → is_prefix label xs ≡ false → Stops label ds xs
unfolding scan is_prefix absent
scan-Stops [] xs ds h = absurd (cc h)
scan-Stops (c ∷ label) [] ds h = record {
  left = [];
  stops = refl;
  shorter = omega arith;
  still = λ l a. refl;
}
scan-Stops (c ∷ label) (x ∷ xs) ds h = elim (Bool-cases (x == c)) [
  | inl e ↦
      let rest = scan-Stops label xs ds (ground (arith, h, e)) in
      record {
        left = rest.left;
        stops = rw (e, scan) rest.stops;
        shorter = let s = rest.shorter in omega (arith, s);
        still = λ l a. rest.still l (And-true _ _ a).1;
      }
  | inr e ↦ record { left = x ∷ xs; stops = rw (e, scan); shorter = omega arith; still = λ l a. a }
]

pub absent-is_prefix :
    (c : ℕ) (label xs : List ℕ) → absent (c ∷ label) xs ≡ true → is_prefix (c ∷ label) xs ≡ false
unfolding absent is_prefix
absent-is_prefix c label [] h = refl
absent-is_prefix c label (x ∷ xs) h = ground (arith, h)

-- The same on a line before `target`: what is left ends with the same line.
pub record StopsBefore (label : List ℕ) (ds : List Directive) (line target : List ℕ) : Type 0 where
  pub left : List ℕ
  pub stops : scan (map byte label ++ ds) (line ++ 10 ∷ target) ≡ ([], left ++ 10 ∷ target)
  pub shorter : length left ≤ length line
  pub still : (l : List ℕ) → absent l line ≡ true → absent l left ≡ true

pub scan-StopsBefore :
    (label line target : List ℕ) (ds : List Directive)
    → one_line label ≡ true
    → is_prefix label line ≡ false
    → StopsBefore label ds line target
unfolding scan is_prefix absent one_line
scan-StopsBefore [] line target ds inside h = absurd (cc h)
scan-StopsBefore (c ∷ label) [] target ds inside h = record {
  left = [];
  stops = let e : (10 == c) ≡ false = ground (arith, inside) in rw (scan, e);
  shorter = omega arith;
  still = λ l a. a;
}
scan-StopsBefore (c ∷ label) (x ∷ line) target ds inside h = elim (Bool-cases (x == c)) [
  | inl e ↦
      let same_line : one_line label ≡ true = ground (arith, inside) in
      let rest = scan-StopsBefore label line target ds same_line (ground (arith, h, e)) in
      record {
        left = rest.left;
        stops = rw (e, scan) rest.stops;
        shorter = let s = rest.shorter in omega (arith, s);
        still = λ l a. rest.still l (And-true _ _ a).1;
      }
  | inr e ↦ record {
    left = x ∷ line;
    stops = rw (e, scan);
    shorter = omega arith;
    still = λ l a. a;
  }
]
