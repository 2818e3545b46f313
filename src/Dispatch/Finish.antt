-- ===== src/Dispatch/Finish.antt =====
-- The bookkeeping after a send that was answered: what it keeps, and that it guards the message.
use whatsapp_os.Prelude.{ℕ, ◌≡◌, refl, true, false, Option, some, or_else}
use whatsapp_os.Sending.{nonempty}
use whatsapp_os.Messages.{MessageRow, ProviderSendResult}
use whatsapp_os.Messages.Channel.{ConversationRow}
use whatsapp_os.Dispatch.{
  failure_record, conversation_activity, Surroundings, Action, ◌>>◌, return, write_if,
}
use whatsapp_os.Dispatch.Outcome.{record_send_success, persist_dispatch_result}
use whatsapp_os.Dispatch.Outbound.{with_activity, note_sent, finish}
use whatsapp_os.Dispatch.Parts.{
  Keeps, Guards, Keeps->>=, Keeps-write_if, Guards->>=, Keeps-record_send_success,
  Keeps-persist_from, Guards-persist_from,
}

module _ (ws id : ℕ) (met : Surroundings) (ws' : ℕ) (conversation : ConversationRow) where
  Keeps-note_sent :
      (message : MessageRow) (result : ProviderSendResult) (updated : Option MessageRow)
      → Keeps ws id (note_sent met ws' message conversation result updated)
  unfolding note_sent
  Keeps-note_sent message result updated =
      let succeed = record_send_success met ws' conversation.phone_number_id result in
      let end : Action MessageRow = return (or_else updated message) in
      Keeps->>= ws id
        (write_if (met.refuses conversation_activity) (with_activity ws' conversation result))
        (λ _. succeed >> end)
        (Keeps-write_if ws id (met.refuses conversation_activity)
          (with_activity ws' conversation result) (λ world. (refl, λ held. held)))
        (λ _.
          Keeps->>= ws id succeed (λ _. end)
            (Keeps-record_send_success ws id met ws' conversation.phone_number_id result)
            (λ _ world. (refl, λ held. held)))

  pub Keeps-finish :
      (message : MessageRow) (result : ProviderSendResult)
      → nonempty (some result.provider_message_id) ≡ true
      → Keeps ws id (finish met ws' message conversation result)
  unfolding finish persist_dispatch_result
  Keeps-finish message result named =
      Keeps->>= ws id
        (persist_dispatch_result met ws' message.id conversation.phone_number_id result)
        (note_sent met ws' message conversation result)
        (Keeps-persist_from ws id met result named ws' message.id conversation.phone_number_id 1 3)
        (Keeps-note_sent message result)

module _ (ws : ℕ) (met : Surroundings) (conversation : ConversationRow) where
  pub Guards-finish :
      (message : MessageRow) (result : ProviderSendResult)
      → nonempty (some result.provider_message_id) ≡ true
      → met.refuses failure_record ≡ false
      → Guards ws message.id (finish met ws message conversation result)
  unfolding finish persist_dispatch_result
  Guards-finish message result named noted =
      Guards->>= ws message.id
        (persist_dispatch_result met ws message.id conversation.phone_number_id result)
        (note_sent met ws message conversation result)
        (Guards-persist_from ws message.id met result named conversation.phone_number_id 1 3 noted)
        (Keeps-note_sent ws message.id met ws conversation message result)
