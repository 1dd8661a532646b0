-- ===== src/Json.antt =====
-- The payloads of outbox events: what `encoding/json` writes for the structs of
-- internal/domain/payment.go, under their field tags. A decimal is its text in quotes.
use Prim.Native.Char.{Char, code}
use Prim.Native.String
use payment_ledger_platform.Base.{
  ℕ, ◌||◌, String, ◌==◌, List, [], ◌∷◌, ltb, eqb, if◌then◌else◌, ◌/◌, ◌%◌,
}
use payment_ledger_platform.Amount.{Decimal}
use payment_ledger_platform.Domain.Payment
use payment_ledger_platform.Domain.Payment.{PaymentStatus, Payment}
use payment_ledger_platform.Domain.Payout
use payment_ledger_platform.Domain.Payout.{PayoutStatus, Payout}
use payment_ledger_platform.Domain.Dispute
use payment_ledger_platform.Domain.Dispute.{DisputeStatus, Dispute}

hex_digit : ℕ → String
hex_digit n = String.◌∷◌ (String.char_at "0123456789abcdef" n) ""

-- `\u00XX`
unicode_escape : ℕ → String
unfolding hex_digit
unicode_escape n = String.◌++◌ "\\u00" (String.◌++◌ (hex_digit (n / 16)) (hex_digit (n % 16)))

-- One character of a JSON text, with the escapes of `json.Marshal` (HTML characters included).
json_char : Char → String
unfolding unicode_escape
json_char c =
    if eqb (code c) b'"'
    then "\\\""
    else if eqb (code c) 92
    then "\\\\"
    else if eqb (code c) 8
    then "\\b"
    else if eqb (code c) 12
    then "\\f"
    else if eqb (code c) 10
    then "\\n"
    else if eqb (code c) 13
    then "\\r"
    else if eqb (code c) 9
    then "\\t"
    else if ltb (code c) 32 || eqb (code c) b'<' || eqb (code c) b'>' || eqb (code c) b'&'
    then unicode_escape (code c)
    else if eqb (code c) 0x2028
    then "\\u2028"
    else if eqb (code c) 0x2029
    then "\\u2029"
    else String.◌∷◌ c ""

json_chars : String → String
unfolding json_char
json_chars String.[] = ""
json_chars (String.◌∷◌ c s) = String.◌++◌ (json_char c) (json_chars s)

json_text : String → String
unfolding json_chars
json_text s = String.◌++◌ "\"" (String.◌++◌ (json_chars s) "\"")

-- `"name":value` pairs, in order.
json_fields : List (String × String) → String
unfolding json_text
json_fields [] = ""
json_fields ((name, value) ∷ []) = String.◌++◌ (json_text name) (String.◌++◌ ":" value)
json_fields ((name, value) ∷ fields) =
    String.◌++◌ (json_text name)
      (String.◌++◌ ":" (String.◌++◌ value (String.◌++◌ "," (json_fields fields))))

json_object : List (String × String) → String
unfolding json_fields
json_object fields = String.◌++◌ "{" (String.◌++◌ (json_fields fields) "}")

-- `omitempty`
omit_empty : String → String → List (String × String) → List (String × String)
unfolding json_text
omit_empty name value fields = if value == "" then fields else (name, json_text value) ∷ fields

abbrev pub payment_status : PaymentStatus → String
payment_status Payment.created = "created"
payment_status Payment.authorized = "authorized"
payment_status Payment.captured = "captured"
payment_status Payment.refunded = "refunded"
payment_status Payment.failed = "failed"
payment_status Payment.unset = ""

abbrev pub payout_status : PayoutStatus → String
payout_status Payout.pending = "pending"
payout_status Payout.paid = "paid"
payout_status Payout.failed = "failed"
payout_status Payout.unset = ""

abbrev pub dispute_status : DisputeStatus → String
dispute_status Dispute.opened = "open"
dispute_status Dispute.won = "won"
dispute_status Dispute.lost = "lost"
dispute_status Dispute.unset = ""

module _ {A : Type 0} ⦃d : Decimal A⦄ where
  -- `json.Marshal` of a payment.
  unfoldable pub payment_json : Payment A → String
  unfolding json_object omit_empty
  payment_json p = json_object (
      ("id", json_text p.id)
      ∷ ("merchant_id", json_text p.merchant_id)
      ∷ ("customer_id", json_text p.customer_id)
      ∷ ("currency", json_text p.currency)
      ∷ ("amount", json_text (d.to_string p.amount))
      ∷ ("captured_amount", json_text (d.to_string p.captured_amount))
      ∷ ("refunded_amount", json_text (d.to_string p.refunded_amount))
      ∷ ("status", json_text (payment_status p.status))
      ∷ omit_empty "provider_reference" p.provider_reference [])

  -- `json.Marshal` of a payout: all but two fields have no tag.
  unfoldable pub payout_json : Payout A → String
  unfolding json_object omit_empty
  payout_json p = json_object (
      ("ID", json_text p.id)
      ∷ ("MerchantID", json_text p.merchant_id)
      ∷ ("Currency", json_text p.currency)
      ∷ ("Amount", json_text (d.to_string p.amount))
      ∷ omit_empty "provider_reference" p.provider_reference
          (("status", json_text (payout_status p.status)) ∷ []))

  -- `json.Marshal` of a dispute.
  unfoldable pub dispute_json : Dispute A → String
  unfolding json_object
  dispute_json p = json_object (
      ("ID", json_text p.id)
      ∷ ("PaymentID", json_text p.payment_id)
      ∷ ("MerchantID", json_text p.merchant_id)
      ∷ ("Currency", json_text p.currency)
      ∷ ("Reason", json_text p.reason)
      ∷ ("Amount", json_text (d.to_string p.amount))
      ∷ ("status", json_text (dispute_status p.status))
      ∷ [])
