-- ===== src/Orders/Status/Laws.antt =====
-- Where a chain of legal transitions can lead.
use whatsapp_os.Prelude.{ℕ, ◌≤◌, ◌≡◌, true, false, ◌||◌, ◌∙◌, arith}
use whatsapp_os.Orders.Status.{
  OrderStatus, draft, pending, confirmed, processing, shipped, delivered, cancelled, returned,
  refunded, ◌is◌, is_legal_status_transition,
}

-- Statuses reached by legal transitions, one after another.
pub data Reaches (from : OrderStatus) : OrderStatus → Type 0 where
  here : Reaches from from
  next :
      {mid to : OrderStatus}
      → Reaches from mid
      → is_legal_status_transition mid to ≡ true
      → Reaches from to

-- How far an order has come; no legal transition takes it back.
abbrev pub progress : OrderStatus → ℕ
progress draft = 0
progress pending = 1
progress confirmed = 2
progress processing = 3
progress shipped = 4
progress delivered = 5
progress returned = 6
progress refunded = 7
progress cancelled = 7

progress_step :
    (from to : OrderStatus)
    → is_legal_status_transition from to ≡ true
    → progress from ≤ progress to
unfolding is_legal_status_transition
progress_step from to h = ground arith

-- Transitions never go back: a status that is reached is as far along as the one it started from.
pub Reaches-progress :
    (from : OrderStatus) {to : OrderStatus} → Reaches from to → progress from ≤ progress to
Reaches-progress from here = omega arith
Reaches-progress from (next {mid} {to} r h) =
    omega (arith, Reaches-progress from r, progress_step mid to h)

stuck_step :
    (from to : OrderStatus)
    → (from is cancelled || from is refunded) ≡ true
    → is_legal_status_transition from to ≡ true
    → from ≡ to
unfolding is_legal_status_transition
stuck_step from to e h = ground arith

-- A cancelled order stays cancelled and a refunded one refunded.
pub Reaches-final :
    (from : OrderStatus) {to : OrderStatus}
    → (from is cancelled || from is refunded) ≡ true
    → Reaches from to
    → from ≡ to
Reaches-final from e here = ground arith
Reaches-final from e (next {mid} {to} r h) =
    let same = Reaches-final from e r in same ∙ stuck_step mid to (rw (← same) e) h

abbrev IsLate : OrderStatus → Type 0
IsLate status = (4 ≤ progress status) × ((status is cancelled) ≡ false)

IsLate-step :
    (from to : OrderStatus) → IsLate from → is_legal_status_transition from to ≡ true → IsLate to
unfolding is_legal_status_transition
IsLate-step from to late h = ground arith

IsLate-stays : (from : OrderStatus) {to : OrderStatus} → IsLate from → Reaches from to → IsLate to
IsLate-stays from late here = late
IsLate-stays from late (next {mid} {to} r h) = IsLate-step mid to (IsLate-stays from late r) h

-- No chain of legal transitions leads from SHIPPED, DELIVERED, RETURNED or REFUNDED to CANCELLED.
pub no_late_cancel :
    (from : OrderStatus)
    → 4 ≤ progress from
    → (from is cancelled) ≡ false
    → ¬ Reaches from cancelled
no_late_cancel from late e r = cc (IsLate-stays from (late, e) r).1
