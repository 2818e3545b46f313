-- ===== src/Dispatch/Late.antt =====
-- No error of the part of a dispatch that writes to the message is an early one.
use Prim.Native.String.{String}
use whatsapp_os.Prelude.{
  ℕ, zero, suc, ◌≡◌, refl, Bool, true, false, Option, Bool-cases, inl, inr, or_else,
}
use whatsapp_os.Prelude.Result.{Result, ok, err}
use whatsapp_os.Sending.{SendError, SendFailure, classify_send_failure}
use whatsapp_os.Messages.{MessageRow, ProviderSendResult}
use whatsapp_os.Messages.Channel.{ConversationRow}
use whatsapp_os.Dispatch.{
  World, failure_record, conversation_activity, account_health, dispatch_result, Surroundings,
  DispatchError, write_refused, send_failed, Action, and_then, ◌>>=◌, ◌>>◌, return, throw, write_if,
  write_unless, with_messages,
}
use whatsapp_os.Dispatch.Outcome.{
  failure_rows, account_after_failure, record_send_failure, record_send_success, persist_from,
  persist_dispatch_result, persist_failure,
}
use whatsapp_os.Dispatch.Outbound.{with_activity, note_sent, finish, after_handing, answered, send}

-- The errors that a dispatch throws before it writes to the message.
abbrev pub is_early : DispatchError → Bool
is_early write_refused = false
is_early (send_failed error) = false
is_early _ = true

-- A result that is no early error.
abbrev pub IsLate : {A : Type 0} → Result DispatchError A → Type 0
IsLate (ok a) = Unit {0}
IsLate (err e) = is_early e ≡ false

pub and_then-IsLate :
    {A B : Type 0} (out : Result DispatchError A × World) (f : A → Action B)
    → IsLate out.0
    → ((a : A) (world : World) → IsLate (f a world).0)
    → IsLate (and_then out f).0
and_then-IsLate (err e, world) f first rest = first
and_then-IsLate (ok a, world) f first rest = rest a world

pub write_if-IsLate :
    (refused : Bool) (f : World → World) (world : World) → IsLate (write_if refused f world).0
write_if-IsLate true f world = refl
write_if-IsLate false f world = tt

module _ (met : Surroundings) (ws : ℕ) where
  record_send_failure-IsLate :
      (id : ℕ) (phone_id : Option ℕ) (failure : SendFailure) (world : World)
      → IsLate (record_send_failure met ws id phone_id failure world).0
  unfolding record_send_failure
  record_send_failure-IsLate id phone_id failure world =
      let note = with_messages (failure_rows met.now ws id failure) in
      and_then-IsLate (write_if (met.refuses failure_record) note world)
        (λ _.
          write_unless (met.refuses account_health) (account_after_failure met ws phone_id failure))
        (write_if-IsLate (met.refuses failure_record) note world) (λ _ after. tt)

  persist_from-IsLate :
      (id : ℕ) (phone_id : Option ℕ) (result : ProviderSendResult) (attempt left : ℕ)
      (world : World)
      → IsLate (persist_from met ws id phone_id result attempt left world).0
  unfolding persist_from
  persist_from-IsLate id phone_id result attempt zero world =
      and_then-IsLate (record_send_failure met ws id phone_id persist_failure world)
        (λ _. throw {A = Option MessageRow} write_refused)
        (record_send_failure-IsLate id phone_id persist_failure world) (λ _ after. refl)
  persist_from-IsLate id phone_id result attempt (suc left) world =
      let later = persist_from-IsLate id phone_id result (suc attempt) left world in
      elim (Bool-cases (met.refuses (dispatch_result attempt))) [
        | inl refused ↦ rw (persist_from, refused) later
        | inr written ↦ rw (persist_from, written) tt
      ]

  note_sent-IsLate :
      (message : MessageRow) (conversation : ConversationRow) (result : ProviderSendResult)
      → (updated : Option MessageRow) (world : World)
      → IsLate (note_sent met ws message conversation result updated world).0
  unfolding note_sent record_send_success
  note_sent-IsLate message conversation result updated world =
      let touch = with_activity ws conversation result in
      let succeed = record_send_success met ws conversation.phone_number_id result in
      and_then-IsLate (write_if (met.refuses conversation_activity) touch world)
        (λ _. succeed >> return (or_else updated message))
        (write_if-IsLate (met.refuses conversation_activity) touch world) (λ _ after. tt)

  finish-IsLate :
      (message : MessageRow) (conversation : ConversationRow) (result : ProviderSendResult)
      → (world : World) → IsLate (finish met ws message conversation result world).0
  unfolding finish persist_dispatch_result
  finish-IsLate message conversation result world =
      and_then-IsLate
        (persist_dispatch_result met ws message.id conversation.phone_number_id result world)
        (note_sent met ws message conversation result)
        (persist_from-IsLate message.id conversation.phone_number_id result 1 3 world)
        (note_sent-IsLate message conversation result)

  module _ (show : ℕ → String) where
    answered-IsLate :
        (message : MessageRow) (conversation : ConversationRow)
        → (answer : Result SendError ProviderSendResult) (world : World)
        → IsLate (answered show met ws message conversation answer world).0
    unfolding answered
    answered-IsLate message conversation (ok result) world = tt
    answered-IsLate message conversation (err error) world =
        let failure = classify_send_failure show error in
        and_then-IsLate
          (record_send_failure met ws message.id conversation.phone_number_id failure world)
          (λ _. throw {A = ProviderSendResult} (send_failed error))
          (record_send_failure-IsLate message.id conversation.phone_number_id failure world)
          (λ _ after. refl)

    pub to_finish-IsLate :
        (message : MessageRow) (conversation : ConversationRow) (world : World)
        → IsLate
            ((send show met ws message conversation >>= finish met ws message conversation) world).0
    unfolding send
    to_finish-IsLate message conversation world =
        and_then-IsLate (send show met ws message conversation world)
          (finish met ws message conversation)
          (answered-IsLate message conversation met.answer
            (after_handing met ws message conversation world))
          (finish-IsLate message conversation)
