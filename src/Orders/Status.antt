-- ===== src/Orders/Status.antt =====
-- The statuses of server/validation/order.ts and the transitions between them.
pub mod Laws
use whatsapp_os.Prelude.{ℕ, Bool, true, false, ◌||◌, List, [], ◌∷◌, any, ◌==◌, if◌then◌else◌}

pub data OrderStatus : Type 0 where
  draft pending confirmed processing shipped delivered cancelled returned refunded : OrderStatus

pub data PaymentStatus : Type 0 where
  unpaid payment_pending partially_paid paid payment_refunded payment_failed : PaymentStatus

pub data FulfillmentStatus : Type 0 where
  unfulfilled partially_fulfilled fulfilled fulfillment_returned : FulfillmentStatus

pub data PaymentMethod : Type 0 where
  cod bank_transfer jazzcash easypaisa card other : PaymentMethod

abbrev pub status_index : OrderStatus → ℕ
status_index draft = 0
status_index pending = 1
status_index confirmed = 2
status_index processing = 3
status_index shipped = 4
status_index delivered = 5
status_index cancelled = 6
status_index returned = 7
status_index refunded = 8

infix 50 ◌is◌
abbrev pub ◌is◌ : OrderStatus → OrderStatus → Bool
a is b = status_index a == status_index b

abbrev pub is_cod : PaymentMethod → Bool
is_cod cod = true
is_cod _ = false

abbrev pub is_paid : PaymentStatus → Bool
is_paid paid = true
is_paid _ = false

unfoldable pub legal_status_transitions : OrderStatus → List OrderStatus
legal_status_transitions draft = pending ∷ cancelled ∷ []
legal_status_transitions pending = confirmed ∷ cancelled ∷ []
legal_status_transitions confirmed = processing ∷ cancelled ∷ []
legal_status_transitions processing = shipped ∷ cancelled ∷ []
legal_status_transitions shipped = delivered ∷ returned ∷ []
legal_status_transitions delivered = returned ∷ refunded ∷ []
legal_status_transitions cancelled = []
legal_status_transitions returned = refunded ∷ []
legal_status_transitions refunded = []

unfoldable pub is_legal_status_transition : OrderStatus → OrderStatus → Bool
unfolding legal_status_transitions
is_legal_status_transition from to =
    if from is to then true else any (λ s. s is to) (legal_status_transitions from)

abbrev pub terminal_statuses : List OrderStatus
terminal_statuses = delivered ∷ cancelled ∷ refunded ∷ []

unfoldable pub is_terminal_status : OrderStatus → Bool
is_terminal_status status = any (λ s. s is status) terminal_statuses
