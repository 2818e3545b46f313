-- ===== src/Inbound/Receive.antt =====
-- `processInboundMessage`: a duplicate, or a message that is stored.
use Prim.Native.String.{String}
use whatsapp_os.Prelude.{ℕ, suc, true, false, [], ◌∷◌, ◌++◌, none, some}
use whatsapp_os.Prelude.Result.{ok, err}
use whatsapp_os.Messages.{
  inbound, received, MessageRow, create_message, find_message_by_provider_id,
}
use whatsapp_os.Phone.{Text, normalise_phone}
use whatsapp_os.Inbound.{
  InboundEvent, InboundProcessResult, Refused, Step, World, and_then, insert_message, invalid_phone,
  touch_contact, touch_conversation, write,
}
use whatsapp_os.Inbound.Contacts.{resolve_contact, update_contact}
use whatsapp_os.Inbound.Conversations.{resolve_conversation, touch_inbound}

abbrev pub inbound_message : ℕ → InboundEvent → ℕ → ℕ → ℕ → ℕ → MessageRow
inbound_message ws event conversation_id contact_id id now =
    create_message ws
      (record {
        conversation_id = conversation_id;
        direction = inbound;
        type = some event.type;
        status = some received;
        body = event.body;
        provider_message_id = some event.provider_message_id;
        reply_to_provider_message_id = event.reply_to_provider_message_id;
        sender_member_id = none;
        sender_contact_id = some contact_id;
        sent_by_ai = none;
        template_name = none;
        template_language = none;
        payload = none;
        occurred_at = some event.occurred_at;
        sent_at = none;
      })
      id now

unfoldable pub store_message : Refused → ℕ → InboundEvent → ℕ → ℕ → ℕ → World → Step MessageRow
store_message refused ws event conversation_id contact_id now world =
    let row = inbound_message ws event conversation_id contact_id world.next_id now in
    write (refused insert_message) row world
      (record world { messages = world.messages ++ (row ∷ []); next_id = suc world.next_id })

-- From the contact on: the message is new.
unfoldable pub receive :
    Refused → ℕ → Text → String → InboundEvent → ℕ → World → Step InboundProcessResult
receive refused ws phone printed event now world =
    and_then (resolve_contact refused ws phone event world) (λ contact world1.
      and_then
        (write (refused touch_contact) contact world1 (
          update_contact ws contact.id
            (λ old. record old { last_interaction_at = some event.occurred_at }) world1))
        (λ same world2.
          and_then (resolve_conversation refused ws contact printed now world2) (λ thread_id world3.
            and_then (store_message refused ws event thread_id contact.id now world3)
              (λ message world4.
                write (refused touch_conversation)
                  (record {
                    message_id = message.id;
                    conversation_id = thread_id;
                    contact_id = some contact.id;
                    is_duplicate = false;
                  })
                  world4 (touch_inbound ws thread_id event world4)))))

-- `printed` is the number as the text that a conversation shows.
unfoldable pub process_inbound_message :
    Refused → ℕ → (Text → String) → InboundEvent → ℕ → World → Step InboundProcessResult
process_inbound_message refused ws printed event now world =
    elim (normalise_phone event.from_phone "PK") [
      | none ↦ (err invalid_phone, world)
      | some phone ↦
          elim (find_message_by_provider_id ws event.provider_message_id world.messages) [
            | some existing ↦ (
              ok (record {
                message_id = existing.id;
                conversation_id = existing.conversation_id;
                contact_id = existing.sender_contact_id;
                is_duplicate = true;
              }),
              world,
            )
            | none ↦ receive refused ws phone.e164 (printed phone.e164) event now world
          ]
    ]
