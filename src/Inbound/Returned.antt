-- ===== src/Inbound/Returned.antt =====
-- If the database refuses nothing, a new message is received.
use Prim.Native.String.{String}
use whatsapp_os.Prelude.{
  ℕ, ◌≡◌, refl, false, not, ◌&&◌, none, some, Bool-cases, Option-cases, inl, inr,
}
use whatsapp_os.Prelude.Result.{ok, err}
use whatsapp_os.Sending.{nonempty}
use whatsapp_os.Messages.{find_message_by_provider_id}
use whatsapp_os.Phone.{Text, normalise_phone, NormalisedPhone}
use whatsapp_os.Inbound.{
  ContactRow, World, InboundEvent, InboundProcessResult, Refused, Step, is_over,
}
use whatsapp_os.Inbound.Contacts.{
  find_contact_by_phone, find_deleted_contact_by_phone, known_contact, found_or_added,
  resolve_contact,
}
use whatsapp_os.Inbound.Conversations.{find_latest_conversation_for_contact, resolve_conversation}
use whatsapp_os.Inbound.Receive.{store_message, receive, process_inbound_message}
use whatsapp_os.Inbound.Ends.{Ends, and_then-Ends}

abbrev pub none_refused : Refused
none_refused _ = false

-- It returns.
abbrev Returns : {A : Type 0} → Step A → Type 0
Returns = Ends (λ value world. Unit {0}) (λ world. ⊥)

pub result_of :
    {A : Type 0} (P : A → World → Type 0) (step : Step A)
    → Ends P (λ world. ⊥) step
    → (value : A) × (world : World) × (step ≡ (ok value, world)) × P value world
result_of P (ok value, world) holds = (value, world, refl, holds)
result_of P (err thrown, world) impossible = absurd impossible

module _ (ws : ℕ) (event : InboundEvent) where
  known_contact-Returns :
      (row : ContactRow) (world : World) → Returns (known_contact none_refused ws event row world)
  known_contact-Returns row world =
      elim (Bool-cases (nonempty event.wa_profile_name && not (nonempty row.wa_profile_name))) [
        | inl fills ↦ rw fills tt
        | inr keeps ↦ rw keeps tt
      ]

  found_or_added-Returns :
      (phone : Text) (world : World) → Returns (found_or_added none_refused ws phone event world)
  found_or_added-Returns phone world =
      elim (Option-cases (find_contact_by_phone ws phone world.contacts)) [
        | inl new ↦ rw (new, found_or_added) tt
        | inr (row, found) ↦ rw (found, found_or_added) (known_contact-Returns row world)
      ]

  resolve_contact-Returns :
      (phone : Text) (world : World) → Returns (resolve_contact none_refused ws phone event world)
  unfolding resolve_contact
  resolve_contact-Returns phone world =
      elim (Option-cases (find_contact_by_phone ws phone world.contacts)) [
        | inr (row, found) ↦ rw (found, resolve_contact) (known_contact-Returns row world)
        | inl missing ↦
            rw (missing, resolve_contact)
              (elim (Option-cases (find_deleted_contact_by_phone ws phone world.contacts)) [
                | inl new ↦ rw new tt
                | inr (deleted, found) ↦ rw found (found_or_added-Returns phone _)
              ])
      ]

  resolve_conversation-Returns :
      (contact : ContactRow) (printed : String) (now : ℕ) (world : World)
      → Returns (resolve_conversation none_refused ws contact printed now world)
  unfolding resolve_conversation
  resolve_conversation-Returns contact printed now world =
      elim (Option-cases (find_latest_conversation_for_contact ws contact.id world.threads)) [
        | inl new ↦ rw (new, resolve_conversation) tt
        | inr (thread, found) ↦
            rw (found, resolve_conversation)
              (elim (Bool-cases (is_over thread.status)) [
                | inl over ↦ rw over tt
                | inr going ↦ rw going tt
              ])
      ]

  abbrev IsFresh : InboundProcessResult → World → Type 0
  IsFresh result world = result.is_duplicate ≡ false

  receive-IsFresh :
      (phone : Text) (printed : String) (now : ℕ) (world : World)
      → Ends IsFresh (λ world. ⊥) (receive none_refused ws phone printed event now world)
  unfolding receive store_message
  receive-IsFresh phone printed now world =
      and_then-Ends (λ value world. Unit {0}) IsFresh (λ world. ⊥)
        (resolve_contact none_refused ws phone event world) _ (resolve_contact-Returns phone world)
        (λ contact world1 unused.
          and_then-Ends (λ value world. Unit {0}) IsFresh (λ world. ⊥) _ _
            (resolve_conversation-Returns contact printed now _) (λ id world3 unused. refl))

  pub process_inbound_message-IsFresh :
      (printed : Text → String) (now : ℕ) (world : World) (phone : NormalisedPhone)
      → normalise_phone event.from_phone "PK" ≡ some phone
      → find_message_by_provider_id ws event.provider_message_id world.messages ≡ none
      → Ends IsFresh (λ world. ⊥) (process_inbound_message none_refused ws printed event now world)
  unfolding process_inbound_message
  process_inbound_message-IsFresh printed now world phone valid new =
      rw (valid, process_inbound_message)
        (rw new (receive-IsFresh phone.e164 (printed phone.e164) now world))
