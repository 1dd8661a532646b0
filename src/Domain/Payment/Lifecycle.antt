-- ===== src/Domain/Payment/Lifecycle.antt =====
-- The state machine of a payment, as a graph that is written down independently of the code.
use payment_ledger_platform.Base.{◌≡◌, ◌↔◌, true, refl, arith}
use payment_ledger_platform.Domain.Payment.{
  PaymentStatus, created, authorized, captured, refunded, failed, Payment, allowed, can_transition,
}

-- One move: authorisation, captures, refunds, and failure before the first capture.
infix 40 ◌⟶◌ ◌⟶*◌
pub data ◌⟶◌ : PaymentStatus → PaymentStatus → Type 0 where
  authorize : created ⟶ authorized
  capture : authorized ⟶ captured
  capture_more : captured ⟶ captured
  refund : captured ⟶ refunded
  refund_more : refunded ⟶ refunded
  decline : created ⟶ failed
  abandon : authorized ⟶ failed

pub data ◌⟶*◌ : PaymentStatus → PaymentStatus → Type 0 where
  here : {s : PaymentStatus} → s ⟶* s
  then : {s t u : PaymentStatus} → s ⟶ t → t ⟶* u → s ⟶* u

pub ruleset moves = (authorize, capture, capture_more, refund, refund_more, decline, abandon)

allowed-⟶ : (s t : PaymentStatus) → allowed s t ≡ true → s ⟶ t
allowed-⟶ s t h = grind (arith, moves)

⟶-allowed : {s t : PaymentStatus} → s ⟶ t → allowed s t ≡ true
⟶-allowed authorize = refl
⟶-allowed capture = refl
⟶-allowed capture_more = refl
⟶-allowed refund = refl
⟶-allowed refund_more = refl
⟶-allowed decline = refl
⟶-allowed abandon = refl

-- `CanTransition` accepts exactly the moves of the payment's state graph: created to
-- authorised, authorised to captured, captured and refunded to themselves, captured to
-- refunded, and created or authorised to failed.
pub can_transition-⟶ :
    {A : Type 0} (p : Payment A) (to : PaymentStatus)
    → (can_transition p to ≡ true) ↔ (p.status ⟶ to)
unfolding can_transition
can_transition-⟶ p to = (allowed-⟶ p.status to, ⟶-allowed)

pub ⟶*-trans : {s t u : PaymentStatus} → s ⟶* t → t ⟶* u → s ⟶* u
⟶*-trans here k = k
⟶*-trans (then e h) k = then e (⟶*-trans h k)

from_failed : {s t : PaymentStatus} → s ⟶* t → s ≡ failed → t ≡ failed
from_failed here e = e
from_failed (then authorize h) e = cc
from_failed (then capture h) e = cc
from_failed (then capture_more h) e = cc
from_failed (then refund h) e = cc
from_failed (then refund_more h) e = cc
from_failed (then decline h) e = cc
from_failed (then abandon h) e = cc
