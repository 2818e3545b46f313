-- ===== src/Inbound/Conversations.antt =====
-- The conversation of an inbound message, with the statements of
-- server/repositories/conversation.repository.ts.
use Prim.Native.String.{String}
use whatsapp_os.Prelude.{
  ℕ, suc, true, false, ◌&&◌, List, [], ◌∷◌, ◌++◌, Option, none, some, ltb, ◌==◌, if◌then◌else◌,
}
use whatsapp_os.Prelude.Result.{ok}
use whatsapp_os.Prelude.Table.{update_many}
use whatsapp_os.Messages.Channel.{is_conversation, touched}
use whatsapp_os.Inbound.{
  ContactRow, InboundEvent, Refused, Step, Thread, World, create_conversation, is_over, open_,
  reopen_conversation, write,
}

-- The conversation that was created last, the first of several.
abbrev latest_thread : List Thread → Option Thread
latest_thread [] = none
latest_thread (thread ∷ rest) = elim (latest_thread rest) [
  | none ↦ some thread
  | some later ↦ if ltb thread.created_at later.created_at then some later else some thread
]

abbrev threads_of : ℕ → ℕ → List Thread → List Thread
threads_of ws contact_id [] = []
threads_of ws contact_id (thread ∷ rest) =
    let others = threads_of ws contact_id rest in
    if (thread.row.workspace_id == ws) && (thread.contact_id == contact_id)
    then thread ∷ others
    else others

unfoldable pub find_latest_conversation_for_contact : ℕ → ℕ → List Thread → Option Thread
find_latest_conversation_for_contact ws contact_id threads =
    latest_thread (threads_of ws contact_id threads)

abbrev update_thread : ℕ → ℕ → (Thread → Thread) → World → World
update_thread ws id change world = record world {
  threads =
      update_many (λ (thread : Thread). is_conversation ws id thread.row) change world.threads;
}

abbrev pub new_thread : ℕ → ContactRow → String → ℕ → ℕ → Thread
new_thread ws contact phone id now = record {
  row = record {
    id = id;
    workspace_id = ws;
    phone_number_id = none;
    contact_phone_e164 = phone;
    message_count = 0;
    unread_count = 0;
    last_message_at = none;
    last_inbound_at = none;
    last_outbound_at = none;
    first_response_at = none;
  };
  contact_id = contact.id;
  status = open_;
  created_at = now;
}

-- A resolved or closed conversation is opened again; its id is what matters to the rest.
unfoldable pub resolve_conversation : Refused → ℕ → ContactRow → String → ℕ → World → Step ℕ
resolve_conversation refused ws contact phone now world =
    elim (find_latest_conversation_for_contact ws contact.id world.threads) [
      | some thread ↦
          if is_over thread.status
          then write (refused reopen_conversation) thread.row.id world
              (update_thread ws thread.row.id (λ old. record old { status = open_ }) world)
          else (ok thread.row.id, world)
      | none ↦
          let thread = new_thread ws contact phone world.next_id now in
          write (refused create_conversation) thread.row.id world
            (record world { threads = world.threads ++ (thread ∷ []); next_id = suc world.next_id })
    ]

abbrev pub touch_inbound : ℕ → ℕ → InboundEvent → World → World
touch_inbound ws id event = update_thread ws id (λ old. record old {
  row =
      touched
        (record {
          last_message_at = event.occurred_at;
          is_inbound = true;
          unread_delta = some 1;
          first_response = false;
          increment_count = none;
        })
        old.row;
})
