-- ===== src/Inbound/Received.antt =====
-- What is received is stored: the message is found under the id that the result names.
use Prim.Native.String.{String}
use text.Mathlib.TextEquality.{eq_iff}
use whatsapp_os.Prelude.{
  ℕ, ◌≡◌, refl, Bool, true, not, ◌&&◌, List, [], ◌∷◌, ◌++◌, none, some, find, ==_refl, arith,
  Bool-cases, Option-cases, inl, inr, sym,
}
use mathlib.Core.Path.{subst}
use whatsapp_os.Sending.{nonempty}
use whatsapp_os.Messages.{MessageRow, create_message, find_message_by_provider_id}
use whatsapp_os.Phone.{Text}
use whatsapp_os.Inbound.{
  ContactRow, World, InboundEvent, InboundProcessResult, Refused, touch_contact, touch_conversation,
  restore_contact, insert_message, is_over,
}
use whatsapp_os.Inbound.Contacts.{
  find_contact_by_phone, find_deleted_contact_by_phone, known_contact, found_or_added,
  resolve_contact,
}
use whatsapp_os.Inbound.Conversations.{find_latest_conversation_for_contact, resolve_conversation}
use whatsapp_os.Inbound.Receive.{store_message, receive}
use whatsapp_os.Inbound.Ends.{Ends, and_then-Ends, write-Ends}

-- The messages are those of before.
abbrev Same : {A : Type 0} → List MessageRow → A → World → Type 0
Same rows value world = world.messages ≡ rows

abbrev pub Any : World → Type 0
Any world = Unit {0}

module _ (refused : Refused) (ws : ℕ) (event : InboundEvent) where
  known_contact-Same :
      (row : ContactRow) (world : World)
      → Ends (Same world.messages) Any (known_contact refused ws event row world)
  known_contact-Same row world =
      elim (Bool-cases (nonempty event.wa_profile_name && not (nonempty row.wa_profile_name))) [
        | inl fills ↦ rw fills (write-Ends (Same world.messages) Any _ row world _ refl tt)
        | inr keeps ↦ rw keeps refl
      ]

  found_or_added-Same :
      (phone : Text) (world : World)
      → Ends (Same world.messages) Any (found_or_added refused ws phone event world)
  found_or_added-Same phone world =
      elim (Option-cases (find_contact_by_phone ws phone world.contacts)) [
        | inl new ↦
            rw (new, found_or_added) (write-Ends (Same world.messages) Any _ _ world _ refl tt)
        | inr (row, found) ↦ rw (found, found_or_added) (known_contact-Same row world)
      ]

  resolve_contact-Same :
      (phone : Text) (world : World)
      → Ends (Same world.messages) Any (resolve_contact refused ws phone event world)
  unfolding resolve_contact
  resolve_contact-Same phone world =
      elim (Option-cases (find_contact_by_phone ws phone world.contacts)) [
        | inr (row, found) ↦ rw (found, resolve_contact) (known_contact-Same row world)
        | inl missing ↦
            rw (missing, resolve_contact)
              (elim (Option-cases (find_deleted_contact_by_phone ws phone world.contacts)) [
                | inl new ↦ rw new (write-Ends (Same world.messages) Any _ _ world _ refl tt)
                | inr (deleted, found) ↦ rw found (
                    and_then-Ends (Same world.messages) (Same world.messages) Any _ _
                      (write-Ends (Same world.messages) Any (refused restore_contact) deleted world
                        _ refl tt)
                      (λ row after same.
                        subst
                          (λ rows.
                            Ends (Same rows) Any (found_or_added refused ws phone event after))
                          same (found_or_added-Same phone after)))
              ])
      ]

  resolve_conversation-Same :
      (contact : ContactRow) (printed : String) (now : ℕ) (world : World)
      → Ends (Same world.messages) Any (resolve_conversation refused ws contact printed now world)
  unfolding resolve_conversation
  resolve_conversation-Same contact printed now world =
      elim (Option-cases (find_latest_conversation_for_contact ws contact.id world.threads)) [
        | inl new ↦
            rw (new, resolve_conversation)
              (write-Ends (Same world.messages) Any _ _ world _ refl tt)
        | inr (thread, found) ↦
            rw (found, resolve_conversation)
              (elim (Bool-cases (is_over thread.status)) [
                | inl over ↦ rw over (write-Ends (Same world.messages) Any _ _ world _ refl tt)
                | inr going ↦ rw going refl
              ])
      ]

  -- The message is found, and it is the one that the result names.
  pub record IsStored (result : InboundProcessResult) (world : World) : Type 0 where
    pub row : MessageRow
    pub found : find_message_by_provider_id ws event.provider_message_id world.messages ≡ some row
    pub same_id : row.id ≡ result.message_id
    pub same_conversation : row.conversation_id ≡ result.conversation_id
    pub same_contact : row.sender_contact_id ≡ result.contact_id

  abbrev pub IsNew : World → Type 0
  IsNew world = find_message_by_provider_id ws event.provider_message_id world.messages ≡ none

  find-append :
      (p : MessageRow → Bool) (rows : List MessageRow) (row : MessageRow)
      → find p rows ≡ none
      → p row ≡ true
      → find p (rows ++ (row ∷ [])) ≡ some row
  find-append p [] row missing hit = rw hit refl
  find-append p (x ∷ xs) row missing hit = ground (arith, find-append p xs row)

  -- What is stored is found under its id.
  abbrev Holds : ℕ → ℕ → MessageRow → World → Type 0
  Holds conversation_id contact_id row world =
      (find_message_by_provider_id ws event.provider_message_id world.messages ≡ some row)
      × (row.conversation_id ≡ conversation_id)
      × (row.sender_contact_id ≡ some contact_id)

  store_message-Holds :
      (conversation_id contact_id now : ℕ) (world : World)
      → IsNew world
      → Ends
          (Holds conversation_id contact_id)
          Any
          (store_message refused ws event conversation_id contact_id now world)
  unfolding store_message find_message_by_provider_id create_message
  store_message-Holds conversation_id contact_id now world new =
      write-Ends (Holds conversation_id contact_id) Any (refused insert_message) _ world _
        ((
          find-append _ world.messages _ new (
              ground (
                arith,
                ==_refl ws,
                (eq_iff event.provider_message_id event.provider_message_id).1 refl,
              )),
          refl,
          refl,
        ))
        tt

  pub receive-IsStored :
      (phone : Text) (printed : String) (now : ℕ) (world : World)
      → IsNew world
      → Ends IsStored Any (receive refused ws phone printed event now world)
  unfolding receive
  receive-IsStored phone printed now world new =
      let rows = world.messages in
      and_then-Ends (Same rows) IsStored Any (resolve_contact refused ws phone event world) _
        (resolve_contact-Same phone world)
        (λ contact world1 same1.
          and_then-Ends (Same rows) IsStored Any _ _
            (write-Ends (Same rows) Any (refused touch_contact) contact world1 _ same1 tt)
            (λ unused world2 same2.
              and_then-Ends (Same rows) IsStored Any
                (resolve_conversation refused ws contact printed now world2) _
                (subst
                  (λ r.
                    Ends (Same r) Any (resolve_conversation refused ws contact printed now world2))
                  same2 (resolve_conversation-Same contact printed now world2))
                (λ thread_id world3 same3.
                  and_then-Ends (Holds thread_id contact.id) IsStored Any
                    (store_message refused ws event thread_id contact.id now world3) _
                    (store_message-Holds thread_id contact.id now world3 (
                      subst (λ r. find_message_by_provider_id ws event.provider_message_id r ≡ none)
                        (sym same3) new))
                    (λ message world4 held.
                      write-Ends IsStored Any (refused touch_conversation) _ world4 _
                        (record {
                          row = message;
                          found = held.0;
                          same_id = refl;
                          same_conversation = held.1;
                          same_contact = held.2;
                        })
                        tt))))
