-- ===== src/Amount/Laws.antt =====
-- Consequences of the decimal library's documented laws that the components share.
use payment_ledger_platform.Base.{◌≡◌, sym, ap, ◌∙◌, arith}
use payment_ledger_platform.Amount.{Numbers, Le, Lt}

module _ {V : Type 0} (n : Numbers V) where
  pub at_most_refl : (x : V) → Le n x x
  at_most_refl x = ground (arith, n.at_most_total x x)

  pub Lt-Le : (x y : V) → Lt n x y → Le n x y
  Lt-Le x y h = n.at_most_total y x h

  pub zero-plus : (x : V) → n.plus n.zero x ≡ x
  zero-plus x = n.plus_comm n.zero x ∙ n.plus-zero x

  pub neg-plus : (x : V) → n.plus (n.neg x) x ≡ n.zero
  neg-plus x = n.plus_comm (n.neg x) x ∙ n.plus-neg x

  pub at_most-plus_left : (x y z : V) → Le n x y → Le n (n.plus z x) (n.plus z y)
  at_most-plus_left x y z h = ground (arith, n.plus_comm z x, n.plus_comm z y, n.at_most-plus x y z)

  -- Adding something positive makes a number no smaller.
  pub le-plus : (x y : V) → Le n n.zero y → Le n x (n.plus x y)
  le-plus x y h = ground (arith, at_most-plus_left n.zero y x h, n.plus-zero x)

  pub plus_cancel : (x y : V) → n.plus (n.plus x y) (n.neg y) ≡ x
  plus_cancel x y = n.plus_assoc x y (n.neg y) ∙ ap (n.plus x) (n.plus-neg y) ∙ n.plus-zero x

  pub neg_cancel : (x y : V) → n.plus (n.plus x (n.neg y)) y ≡ x
  neg_cancel x y = n.plus_assoc x (n.neg y) y ∙ ap (n.plus x) (neg-plus y) ∙ n.plus-zero x

  -- Two sums are added side by side.
  pub plus_interchange :
      (a b c e : V) → n.plus (n.plus a b) (n.plus c e) ≡ n.plus (n.plus a c) (n.plus b e)
  plus_interchange a b c e = cc (
    n.plus_assoc a b (n.plus c e),
    n.plus_assoc b c e,
    n.plus_comm b c,
    n.plus_assoc c b e,
    n.plus_assoc a c (n.plus b e),
  )

  pub neg_unique : (x y : V) → n.plus x y ≡ n.zero → y ≡ n.neg x
  neg_unique x y h = cc (plus_cancel y x, n.plus_comm y x, zero-plus (n.neg x))

  pub neg-zero : n.neg n.zero ≡ n.zero
  neg-zero = sym (neg_unique n.zero n.zero (n.plus-zero n.zero))

  -- What remains of `x` after `y` is not negative when `y` is at most `x`.
  pub minus_nonneg : (x y : V) → Le n y x → Le n n.zero (n.plus x (n.neg y))
  minus_nonneg x y h = ground (arith, n.at_most-plus y x (n.neg y) h, n.plus-neg y)
