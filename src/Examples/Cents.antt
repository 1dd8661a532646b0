-- ===== src/Examples/Cents.antt =====
-- Amounts in whole cents: a decimal library that keeps every promise that the theorems rely on.
use Prim.Native.Char.{code}
use Prim.Native.String
use payment_ledger_platform.Base.{
  ℕ, zero, suc, ◌+◌, ◌-◌, ◌*◌, ◌/◌, ◌%◌, ◌≡◌, refl, true, false, not, ◌&&◌, String, Option, none,
  some, leb, if◌then◌else◌, arith,
}
use payment_ledger_platform.Base.Int.{ℤ, pos, negsuc, ◌+ℤ◌, opposite, leb_ℤ, int_laws, +ℤ_parts}
use payment_ledger_platform.Amount.{Decimal, Numbers, Meaning}

-- The digits of a text, read from the left.
read_digits : ℕ → String → Option ℕ
read_digits n String.[] = some n
read_digits n (String.◌∷◌ c s) =
    let rest = read_digits (n * 10 + (code c - b'0')) s in
    if leb b'0' (code c) && leb (code c) b'9' then rest else none

unfoldable pub read_cents : String → Option ℤ
unfolding read_digits
read_cents String.[] = none
read_cents (String.◌∷◌ c s) = elim (read_digits 0 (String.◌∷◌ c s)) [
  | none ↦ none
  | some n ↦ some (pos n)
]

show_digits : ℕ → ℕ → String → String
show_digits zero n rest = rest
show_digits (suc fuel) n rest =
    let text = String.◌∷◌ (String.char_at "0123456789" (n % 10)) rest in
    let more = show_digits fuel (n / 10) text in if leb n 9 then text else more

unfoldable pub show_cents : ℤ → String
unfolding show_digits
show_cents (pos n) = show_digits 30 n ""
show_cents (negsuc n) = String.◌++◌ "-" (show_digits 30 (suc n) "")

instance abbrev pub cents : Decimal ℤ
cents = record {
  zero = pos 0;
  add = ◌+ℤ◌;
  sub = λ a b. a +ℤ opposite b;
  greater_than = λ a b. not (leb_ℤ a b);
  less_than = λ a b. not (leb_ℤ b a);
  less_than_or_equal = leb_ℤ;
  equal = λ a b. leb_ℤ a b && leb_ℤ b a;
  is_negative = λ a. not (leb_ℤ (pos 0) a);
  is_zero = λ a. leb_ℤ a (pos 0) && leb_ℤ (pos 0) a;
  from_string = read_cents;
  from_string_error = λ text. "can't convert to decimal";
  to_string = show_cents;
}

pub +ℤ_assoc : (a b c : ℤ) → a +ℤ b +ℤ c ≡ a +ℤ (b +ℤ c)
+ℤ_assoc a b c = omega int_laws

pub +ℤ_comm : (a b : ℤ) → a +ℤ b ≡ b +ℤ a
+ℤ_comm a b = omega int_laws

pub +ℤ-zero : (a : ℤ) → a +ℤ pos 0 ≡ a
+ℤ-zero a = omega int_laws

pub +ℤ-opposite : (a : ℤ) → a +ℤ opposite a ≡ pos 0
+ℤ-opposite a = omega int_laws

pub leb_ℤ_trans : (a b c : ℤ) → leb_ℤ a b ≡ true → leb_ℤ b c ≡ true → leb_ℤ a c ≡ true
leb_ℤ_trans a b c h k = ground arith

pub leb_ℤ_total : (a b : ℤ) → leb_ℤ a b ≡ false → leb_ℤ b a ≡ true
leb_ℤ_total a b h = ground arith

pub leb_ℤ_antisymm : (a b : ℤ) → leb_ℤ a b ≡ true → leb_ℤ b a ≡ true → a ≡ b
leb_ℤ_antisymm a b h k = ground arith

pub leb_ℤ-+ℤ : (a b c : ℤ) → leb_ℤ a b ≡ true → leb_ℤ (a +ℤ c) (b +ℤ c) ≡ true
leb_ℤ-+ℤ a b c h = ground (arith, +ℤ_parts a c, +ℤ_parts b c)

abbrev pub integers : Numbers ℤ
integers = record {
  zero = pos 0;
  plus = ◌+ℤ◌;
  neg = opposite;
  at_most = leb_ℤ;
  plus_assoc = +ℤ_assoc;
  plus_comm = +ℤ_comm;
  plus-zero = +ℤ-zero;
  plus-neg = +ℤ-opposite;
  at_most_trans = leb_ℤ_trans;
  at_most_total = leb_ℤ_total;
  at_most_antisymm = leb_ℤ_antisymm;
  at_most-plus = leb_ℤ-+ℤ;
}

-- A count of cents is its own value.
abbrev pub meaning : Meaning cents ℤ
meaning = record {
  numbers = integers;
  value = λ a. a;
  value-zero = refl;
  value-add = λ a b. refl;
  value-sub = λ a b. refl;
  greater_than_by_value = λ a b. refl;
  less_than_by_value = λ a b. refl;
  less_than_or_equal_by_value = λ a b. refl;
  equal_by_value = λ a b. refl;
  is_negative_by_value = λ a. refl;
  is_zero_by_value = λ a. refl;
}
