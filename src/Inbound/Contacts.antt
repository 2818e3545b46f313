-- ===== src/Inbound/Contacts.antt =====
-- The customer of an inbound message: found, restored, or added, with the statements of
-- server/repositories/contact.repository.ts.
use whatsapp_os.Prelude.{
  ℕ, suc, Bool, true, false, not, ◌&&◌, List, [], ◌∷◌, ◌++◌, Option, none, some, is_some, find,
  ◌==◌, if◌then◌else◌,
}
use whatsapp_os.Prelude.Result.{ok}
use whatsapp_os.Prelude.Table.{update_many}
use whatsapp_os.Sending.{nonempty}
use whatsapp_os.Phone.{Text}
use whatsapp_os.Inbound.{
  ContactRow, InboundEvent, Refused, Step, World, and_then, create_contact, restore_contact,
  update_profile, write,
}

abbrev phone_eq : Text → Text → Bool
phone_eq [] [] = true
phone_eq [] (d ∷ ds) = false
phone_eq (c ∷ cs) [] = false
phone_eq (c ∷ cs) (d ∷ ds) = (c == d) && phone_eq cs ds

abbrev is_live_contact : ℕ → Text → ContactRow → Bool
is_live_contact ws phone row =
    (row.workspace_id == ws) && (phone_eq row.phone_e164 phone && not (is_some row.deleted_at))

abbrev is_deleted_contact : ℕ → Text → ContactRow → Bool
is_deleted_contact ws phone row =
    (row.workspace_id == ws) && (phone_eq row.phone_e164 phone && is_some row.deleted_at)

unfoldable pub find_contact_by_phone : ℕ → Text → List ContactRow → Option ContactRow
find_contact_by_phone ws phone = find (is_live_contact ws phone)

unfoldable pub find_deleted_contact_by_phone : ℕ → Text → List ContactRow → Option ContactRow
find_deleted_contact_by_phone ws phone = find (is_deleted_contact ws phone)

-- `restoreContact` with the fields of an inbound message; `waProfileName` is not among them.
abbrev restored : InboundEvent → ContactRow → ContactRow
restored event row = record row {
  name = event.wa_profile_name;
  email = none;
  source = some "WHATSAPP";
  city = none;
  deleted_at = none;
}

abbrev pub restore : ℕ → ℕ → InboundEvent → List ContactRow → List ContactRow
restore ws id event =
    update_many
      (λ (row : ContactRow). (row.id == id) && ((row.workspace_id == ws) && is_some row.deleted_at))
      (restored event)

abbrev pub new_contact : ℕ → Text → InboundEvent → ℕ → ContactRow
new_contact ws phone event id = record {
  id = id;
  workspace_id = ws;
  phone_e164 = phone;
  name = event.wa_profile_name;
  wa_profile_name = event.wa_profile_name;
  email = none;
  source = some "WHATSAPP";
  city = none;
  deleted_at = none;
  last_interaction_at = none;
}

-- `updateMany` on a contact that is not deleted.
abbrev pub update_contact : ℕ → ℕ → (ContactRow → ContactRow) → World → World
update_contact ws id change world = record world {
  contacts =
      update_many
        (λ (row : ContactRow).
          (row.id == id) && ((row.workspace_id == ws) && not (is_some row.deleted_at)))
        change world.contacts;
}

-- The contact that is found, with its profile name filled in.
abbrev pub known_contact : Refused → ℕ → InboundEvent → ContactRow → World → Step ContactRow
known_contact refused ws event row world =
    if nonempty event.wa_profile_name && not (nonempty row.wa_profile_name)
    then write (refused update_profile) row world (
        update_contact ws row.id (λ old. record old { wa_profile_name = event.wa_profile_name })
          world)
    else (ok row, world)

abbrev pub added_contact : Refused → ℕ → Text → InboundEvent → World → Step ContactRow
added_contact refused ws phone event world =
    let row = new_contact ws phone event world.next_id in
    write (refused create_contact) row world
      (record world { contacts = world.contacts ++ (row ∷ []); next_id = suc world.next_id })

abbrev pub found_or_added : Refused → ℕ → Text → InboundEvent → World → Step ContactRow
found_or_added refused ws phone event world = elim (find_contact_by_phone ws phone world.contacts) [
  | some row ↦ known_contact refused ws event row world
  | none ↦ added_contact refused ws phone event world
]

-- A deleted contact is restored only if there is none that is not deleted.
unfoldable pub resolve_contact : Refused → ℕ → Text → InboundEvent → World → Step ContactRow
resolve_contact refused ws phone event world =
    elim (find_contact_by_phone ws phone world.contacts) [
      | some row ↦ known_contact refused ws event row world
      | none ↦ elim (find_deleted_contact_by_phone ws phone world.contacts) [
        | none ↦ added_contact refused ws phone event world
        | some deleted ↦
            and_then
              (write (refused restore_contact) deleted world
                (record world { contacts = restore ws deleted.id event world.contacts }))
              (λ row after. found_or_added refused ws phone event after)
      ]
    ]
