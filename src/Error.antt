-- ===== src/Error.antt =====
-- The errors of the program, one constructor for each message, and the two shapes of a fallible
-- call: a pure one (`Result`), and a method of an object that is mutated (`Exec`).
use payment_ledger_platform.Base.{
  ◌≡◌, refl, ◌⊎◌, inl, inr, Bool, Option, none, some, String, if◌then◌else◌,
}

pub data Error : Type 0 where
  parties_required bad_currency bad_amount : Error
  capture_exceeds refund_exceeds : Error
  too_few_entries entry_not_one_sided not_balanced : Error
  invalid_payout invalid_dispute : Error
  not_found invalid_transition unsupported_action : Error
  insufficient_balance payout_resolved invalid_payout_status : Error
  dispute_exists dispute_resolved invalid_dispute_status : Error
  invalid_payout_transition invalid_dispute_transition : Error
  key_required blocked_by_risk dispute_exceeds : Error
  external : String → Error

-- `err.Error()`.
unfoldable pub message : Error → String
message parties_required = "merchant_id and customer_id are required"
message bad_currency = "currency must be a 3-letter ISO code"
message bad_amount = "amount must be greater than zero"
message capture_exceeds = "capture amount exceeds remaining authorized amount"
message refund_exceeds = "refund amount exceeds captured amount"
message too_few_entries = "a ledger transaction requires at least two entries"
message entry_not_one_sided = "each entry must contain either debit or credit"
message not_balanced = "ledger transaction is not balanced"
message invalid_payout = "invalid payout"
message invalid_dispute = "invalid dispute"
message not_found = "payment not found"
message invalid_transition = "invalid payment state transition"
message unsupported_action = "unsupported amount action"
message insufficient_balance = "insufficient available balance"
message payout_resolved = "payout is already resolved"
message invalid_payout_status = "invalid payout status"
message dispute_exists = "dispute already exists"
message dispute_resolved = "dispute is already resolved"
message invalid_dispute_status = "invalid dispute status"
message invalid_payout_transition = "invalid payout transition"
message invalid_dispute_transition = "invalid dispute transition"
message key_required = "x-idempotency-key is required"
message blocked_by_risk = "payment blocked by risk policy"
message dispute_exceeds = "dispute amount exceeds settled payment amount"
message (external text) = text

pub data Result {ℓ} (X : Type ℓ) : Type ℓ where
  ok : X → Result X
  err : Error → Result X

abbrev pub Done : Type 0
Done = Unit {0}

-- `if c { return err }`
abbrev pub refuse_if : Bool → Error → Result Done
refuse_if c e = if c then err e else ok tt

-- `if err := r; err != nil { return err }`
abbrev pub and_then {ℓ κ} : {X : Type ℓ} {Y : Type κ} → Result X → (X → Result Y) → Result Y
and_then (ok x) f = f x
and_then (err e) f = err e

abbrev pub or_error {ℓ} : {X : Type ℓ} → Option X → Error → Result X
or_error none e = err e
or_error (some x) e = ok x

-- A method call on an object of state `S`: what was written before an error stays written.
abbrev pub Exec : Type 0 → Type 0 → Type 0
Exec S X = S → Result X × S

module _ {S X : Type 0} where
  abbrev pub pure : X → Exec S X
  pure x s = (ok x, s)

  abbrev pub raise : Error → Exec S X
  raise e s = (err e, s)

  abbrev pub lift : Result X → Exec S X
  lift r s = (r, s)

  abbrev pub gets : (S → X) → Exec S X
  gets f s = (ok (f s), s)

abbrev pub modify : {S : Type 0} → (S → S) → Exec S Done
modify f s = (ok tt, f s)

infixl 5 ◌>>=◌ ◌>>◌
abbrev pub ◌>>=◌ : {S X Y : Type 0} → Exec S X → (X → Exec S Y) → Exec S Y
◌>>=◌ m f s = let (r, s') = m s in elim r [ ok x ↦ f x s' | err e ↦ (err e, s') ]

abbrev pub ◌>>◌ : {S X Y : Type 0} → Exec S X → Exec S Y → Exec S Y
m >> k = m >>= λ _. k

pub Result-cases {ℓ} :
    {X : Type ℓ} (r : Result X) → ((x : X) × (r ≡ ok x)) ⊎ ((e : Error) × (r ≡ err e))
Result-cases (ok x) = inl (x, refl)
Result-cases (err e) = inr (e, refl)
