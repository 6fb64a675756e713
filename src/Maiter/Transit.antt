-- ===== src/Maiter/Transit.antt =====
-- The messages under way in the output buffers of the worker threads of src/kernel/kernel.h.
use maiter_p.Base.{
  ℕ, zero, suc, ◌<◌, ◌≡◌, refl, sym, ap, ◌∙◌, Bool, true, false, List, [], ◌∷◌, arith, length,
  get_or, set, if◌then◌else◌,
}
use maiter_p.Kernel.{Key, IterateKernel}
use maiter_p.Accumulation.{mail, Accumulative, default_acc}

module _ {ℓ} {K V D : Type ℓ} ⦃key : Key K⦄ (kernel : IterateKernel K V D) where
  -- All that the buffers hold for the key `j`.
  unfoldable pub in_transit : List (List (K × V)) → K → V
  unfolding mail
  in_transit [] j = kernel.default_v
  in_transit (out ∷ rest) j = kernel.accumulate (mail kernel out j) (in_transit rest j)

  module _ (laws : Accumulative kernel) where
    -- An empty buffer is filled.
    pub in_transit-take :
        (bs : List (List (K × V))) (w : ℕ) (out : List (K × V)) (j : K)
        → w < length bs
        → get_or bs w [] ≡ []
        → in_transit (set bs w out) j ≡ kernel.accumulate (in_transit bs j) (mail kernel out j)
    unfolding in_transit get_or
    in_transit-take [] w out j h e = absurd (omega arith)
    in_transit-take (b ∷ bs) zero out j h e =
        rw (e, default_acc kernel laws.monoid (in_transit bs j)) (laws.monoid.acc_comm _ _)
    in_transit-take (b ∷ bs) (suc w) out j h e =
        rw (in_transit-take bs w out j (omega arith) e) (sym (laws.monoid.acc_assoc _ _ _))

    first_of :
        (f : Bool) (a x y : V)
        → kernel.accumulate (if f then kernel.accumulate a x else x) y
          ≡ (if f then kernel.accumulate a (kernel.accumulate x y) else kernel.accumulate x y)
    first_of true a x y = laws.monoid.acc_assoc a x y
    first_of false a x y = refl

    pub second_of :
        (f : Bool) (a x y : V)
        → kernel.accumulate x (if f then kernel.accumulate a y else y)
          ≡ (if f then kernel.accumulate a (kernel.accumulate x y) else kernel.accumulate x y)
    second_of true a x y =
        sym (laws.monoid.acc_assoc x a y)
        ∙ ap (λ z. kernel.accumulate z y) (laws.monoid.acc_comm x a)
        ∙ laws.monoid.acc_assoc a x y
    second_of false a x y = refl

    -- A buffer loses its first message.
    pub in_transit-deliver :
        (bs : List (List (K × V))) (w : ℕ) (i : K) (a : V) (out : List (K × V)) (j : K)
        → get_or bs w [] ≡ (i, a) ∷ out
        → in_transit bs j ≡ (
            if key.beq i j
            then kernel.accumulate a (in_transit (set bs w out) j)
            else in_transit (set bs w out) j)
    unfolding in_transit get_or mail
    in_transit-deliver [] w i a out j e = absurd (cc e)
    in_transit-deliver (b ∷ bs) zero i a out j e = rw e (first_of (key.beq i j) a _ _)
    in_transit-deliver (b ∷ bs) (suc w) i a out j e =
        ap (λ z. kernel.accumulate (mail kernel b j) z) (in_transit-deliver bs w i a out j e)
        ∙ (second_of (key.beq i j) a (mail kernel b j) (in_transit (set bs w out) j))

    pub in_transit-empty :
        (bs : List (List (K × V))) (j : K)
        → ((w : ℕ) → get_or bs w [] ≡ [])
        → in_transit bs j ≡ kernel.default_v
    unfolding in_transit get_or mail
    in_transit-empty [] j empty = refl
    in_transit-empty (b ∷ bs) j empty =
        ap (λ z. kernel.accumulate (mail kernel z j) (in_transit bs j)) (empty zero)
        ∙ ap (λ z. kernel.accumulate kernel.default_v z)
            (in_transit-empty bs j (λ w. empty (suc w)))
        ∙ laws.monoid.acc_default _
