-- ===== src/Messages/Tests.antt =====
-- Messages of one workspace, and the theorems at them.
use whatsapp_os.Prelude.{◌≡◌, refl, List, [], ◌∷◌, none, some, find}
use whatsapp_os.Messages.{
  outbound, sent, delivered, seen, status_rank, MessageRow, StatusOptions, is_message, is_held,
  create_message, update_message_status,
}
use whatsapp_os.Messages.Progress.{Advances, StatusUpdate, after_updates, after_updates_advance}

abbrev pub greeting : MessageRow
greeting =
    create_message 1
      (record {
        conversation_id = 3;
        direction = outbound;
        type = none;
        status = none;
        body = some "Your order is on its way.";
        provider_message_id = none;
        reply_to_provider_message_id = none;
        sender_member_id = some 2;
        sender_contact_id = none;
        sent_by_ai = none;
        template_name = none;
        template_language = none;
        payload = none;
        occurred_at = none;
        sent_at = none;
      })
      5 1000

abbrev plain : StatusOptions
plain = record { occurred_at = some 2000; error_code = none; error_message = none }

-- A read receipt that overtook the delivery receipt.
abbrev out_of_order : List StatusUpdate
out_of_order =
    record { status = sent; options = plain; now = 2000 }
    ∷ record { status = seen; options = plain; now = 3000 }
    ∷ record { status = delivered; options = plain; now = 4000 }
    ∷ []

greeting_is_found : find (is_message 1 5) (greeting ∷ []) ≡ some greeting
unfolding create_message
greeting_is_found = refl

greeting_ends_seen : (update_message_status 1 5 seen plain 3000 (greeting ∷ [])).0 ≡ 1
unfolding create_message update_message_status is_held status_rank
greeting_ends_seen = refl

after_updates_advance_example :
    (end : MessageRow) × (find (is_message 1 5) (after_updates 1 5 out_of_order (greeting ∷ []))
      ≡ some end)
    × Advances greeting.status end.status
after_updates_advance_example =
    after_updates_advance 1 5 out_of_order (greeting ∷ []) greeting greeting_is_found
