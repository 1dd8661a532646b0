-- ===== src/Amount.antt =====
-- The decimal library that the program counts money with (github.com/shopspring/decimal). Its code
-- is not part of the repository, so its operations are a parameter, and what its documentation
-- promises of them (exact arithmetic, comparisons by value) is a record of laws over a meaning.
pub mod Laws
use payment_ledger_platform.Base.{◌≡◌, Bool, true, false, not, ◌&&◌, Option, String}

-- The operations the program calls: `decimal.Zero`, `Add`, `Sub`, the comparisons,
-- `NewFromString` (`none` for a text that it refuses, with the text of its error) and `String`.
pub record Decimal (A : Type 0) : Type 0 where
  pub zero : A
  pub add : A → A → A
  pub sub : A → A → A
  pub greater_than : A → A → Bool
  pub less_than : A → A → Bool
  pub less_than_or_equal : A → A → Bool
  pub equal : A → A → Bool
  pub is_negative : A → Bool
  pub is_zero : A → Bool
  pub from_string : String → Option A
  pub from_string_error : String → String
  pub to_string : A → String

-- Numbers that can be added, subtracted and compared.
pub record Numbers (V : Type 0) : Type 0 where
  pub zero : V
  pub plus : V → V → V
  pub neg : V → V
  pub at_most : V → V → Bool
  pub plus_assoc : (x y z : V) → plus (plus x y) z ≡ plus x (plus y z)
  pub plus_comm : (x y : V) → plus x y ≡ plus y x
  pub plus-zero : (x : V) → plus x zero ≡ x
  pub plus-neg : (x : V) → plus x (neg x) ≡ zero
  pub at_most_trans : (x y z : V) → at_most x y ≡ true → at_most y z ≡ true → at_most x z ≡ true
  pub at_most_total : (x y : V) → at_most x y ≡ false → at_most y x ≡ true
  pub at_most_antisymm : (x y : V) → at_most x y ≡ true → at_most y x ≡ true → x ≡ y
  pub at_most-plus : (x y z : V) → at_most x y ≡ true → at_most (plus x z) (plus y z) ≡ true

-- What the library documents: a decimal has a numeric value (1.0 and 1.00 have the same), the
-- operations are exact, and the comparisons compare values.
pub record Meaning {A : Type 0} (d : Decimal A) (V : Type 0) : Type 0 where
  pub numbers : Numbers V
  pub value : A → V
  pub value-zero : value d.zero ≡ numbers.zero
  pub value-add : (a b : A) → value (d.add a b) ≡ numbers.plus (value a) (value b)
  pub value-sub : (a b : A) → value (d.sub a b) ≡ numbers.plus (value a) (numbers.neg (value b))
  pub greater_than_by_value :
      (a b : A) → d.greater_than a b ≡ not (numbers.at_most (value a) (value b))
  pub less_than_by_value : (a b : A) → d.less_than a b ≡ not (numbers.at_most (value b) (value a))
  pub less_than_or_equal_by_value :
      (a b : A) → d.less_than_or_equal a b ≡ numbers.at_most (value a) (value b)
  pub equal_by_value :
      (a b : A)
      → d.equal a b ≡ (numbers.at_most (value a) (value b) && numbers.at_most (value b) (value a))
  pub is_negative_by_value :
      (a : A) → d.is_negative a ≡ not (numbers.at_most numbers.zero (value a))
  pub is_zero_by_value :
      (a : A)
      → d.is_zero a
        ≡ (numbers.at_most (value a) numbers.zero && numbers.at_most numbers.zero (value a))

-- The order on values, and the strict one.
abbrev pub Le : {V : Type 0} → Numbers V → V → V → Type 0
Le n x y = n.at_most x y ≡ true

abbrev pub Lt : {V : Type 0} → Numbers V → V → V → Type 0
Lt n x y = n.at_most y x ≡ false
