-- ===== src/Inbound/Stored.antt =====
-- A message that was received is found, and received again it is a duplicate.
use Prim.Native.String.{String}
use whatsapp_os.Prelude.{ℕ, ◌≡◌, refl, true, Option, some, Option-cases, inl, inr, ap, sym, ◌∙◌}
use mathlib.Core.Path.{subst}
use whatsapp_os.Prelude.Result.{ok, err}
use whatsapp_os.Messages.{MessageRow, find_message_by_provider_id}
use whatsapp_os.Phone.{Text, normalise_phone, NormalisedPhone}
use whatsapp_os.Inbound.{
  World, InboundEvent, InboundProcessResult, InboundError, invalid_phone, Refused, Step,
}
use whatsapp_os.Inbound.Receive.{process_inbound_message}
use whatsapp_os.Inbound.Ends.{Ends}
use whatsapp_os.Inbound.Received.{Any, IsStored, receive-IsStored}

module _ (refused : Refused) (ws : ℕ) (event : InboundEvent) where
  -- A message that is stored is a duplicate, and nothing is written.
  pub process_inbound_message-duplicate :
      (printed : Text → String) (now : ℕ) (world : World) (row : MessageRow)
      (phone : NormalisedPhone)
      → normalise_phone event.from_phone "PK" ≡ some phone
      → find_message_by_provider_id ws event.provider_message_id world.messages ≡ some row
      → process_inbound_message refused ws printed event now world ≡ (
        ok (record {
          message_id = row.id;
          conversation_id = row.conversation_id;
          contact_id = row.sender_contact_id;
          is_duplicate = true;
        }),
        world,
      )
  unfolding process_inbound_message
  process_inbound_message-duplicate printed now world row phone valid found =
      rw (valid, process_inbound_message) (rw found refl)

  pub process_inbound_message-IsStored :
      (printed : Text → String) (now : ℕ) (world : World)
      → Ends
          (IsStored refused ws event)
          Any
          (process_inbound_message refused ws printed event now world)
  unfolding process_inbound_message
  process_inbound_message-IsStored printed now world =
      elim (Option-cases (normalise_phone event.from_phone "PK")) [
        | inl invalid ↦ rw (invalid, process_inbound_message) tt
        | inr (phone, valid) ↦
            rw (valid, process_inbound_message)
              (elim (Option-cases
                (find_message_by_provider_id ws event.provider_message_id world.messages)) [
                  | inl new ↦ rw new (
                      receive-IsStored refused ws event phone.e164 (printed phone.e164) now world
                        new)
                  | inr (row, found) ↦ rw found (record {
                    row = row;
                    found = found;
                    same_id = refl;
                    same_conversation = refl;
                    same_contact = refl;
                  })
                ])
      ]

ok_is_no_error :
    {A : Type 0} {value : A} {thrown : InboundError} {world after : World}
    → ◌≡◌ {A = Step A} (ok value, after) (err thrown, world)
    → ⊥
ok_is_no_error same = cc

abbrev pair : InboundProcessResult → World → Step InboundProcessResult
pair result world = (ok result, world)

same_result :
    {message_id conversation_id : ℕ} {contact_id : Option ℕ} (result : InboundProcessResult)
    → message_id ≡ result.message_id
    → conversation_id ≡ result.conversation_id
    → contact_id ≡ result.contact_id
    → ◌≡◌ {A = InboundProcessResult}
        (record {
          message_id = message_id;
          conversation_id = conversation_id;
          contact_id = contact_id;
          is_duplicate = true;
        })
        (record result { is_duplicate = true })
same_result result p q r =
    λ i. record { message_id = p i; conversation_id = q i; contact_id = r i; is_duplicate = true }

valid_phone :
    (refused : Refused) (ws : ℕ) (event : InboundEvent) (printed : Text → String) (now : ℕ)
    (world after : World) (result : InboundProcessResult)
    → process_inbound_message refused ws printed event now world ≡ (ok result, after)
    → (phone : NormalisedPhone) × (normalise_phone event.from_phone "PK" ≡ some phone)
unfolding process_inbound_message
valid_phone refused ws event printed now world after result first =
    elim (Option-cases (normalise_phone event.from_phone "PK")) [
      | inr found ↦ found
      | inl invalid ↦
          let refused_phone : process_inbound_message refused ws printed event now world
              ≡ (err invalid_phone, world) =
            rw (invalid, process_inbound_message) refl in
          absurd (ok_is_no_error (sym first ∙ refused_phone))
    ]

-- A message that was received and comes again, at any later time, is a duplicate: the result names the
-- same message, conversation and contact, and nothing is written.
pub process_inbound_message_twice :
    (refused refused' : Refused) (ws : ℕ) (event : InboundEvent) (printed : Text → String)
    (now now' : ℕ) (world after : World) (result : InboundProcessResult)
    → process_inbound_message refused ws printed event now world ≡ (ok result, after)
    → process_inbound_message refused' ws printed event now' after
      ≡ (ok (record result { is_duplicate = true }), after)
process_inbound_message_twice refused refused' ws event printed now now' world after result first =
    let (phone, valid) = valid_phone refused ws event printed now world after result first in
    let stored : IsStored refused ws event result after =
      subst (Ends (IsStored refused ws event) Any) first
        (process_inbound_message-IsStored refused ws event printed now world) in
    process_inbound_message-duplicate refused' ws event printed now' after stored.row phone valid
      stored.found
    ∙ ap (λ (r : InboundProcessResult). pair r after)
        (same_result result stored.same_id stored.same_conversation stored.same_contact)
