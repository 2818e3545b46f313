-- ===== src/Inbound/Routed.antt =====
-- Attempts at a webhook event, and what they keep of its row and of its number.
use Prim.Native.String.{String}
use whatsapp_os.Prelude.{
  ℕ, ◌≡◌, refl, Bool, true, false, ◌&&◌, List, [], ◌∷◌, some, ◌==◌, if◌then◌else◌, ap, ◌∙◌,
}
use whatsapp_os.Prelude.Table.{update_many, updated, find-update_many, find_holds}
use whatsapp_os.Phone.{Text}
use whatsapp_os.Inbound.{InboundEvent, Refused}
use whatsapp_os.Inbound.Events.{
  message, WebhookEventRow, NumberRow, Hook, Afterwards, find_webhook_event_by_id,
  update_webhook_event_status, find_number, touch_inbound_activity, touch_account_activity,
}
use whatsapp_os.Inbound.Webhook.{process_webhook_event}

-- One attempt: what fails, and when it is.
pub record Attempt : Type 0 where
  pub fails : Afterwards → Bool
  pub refused : Refused
  pub now : ℕ

abbrev pub attempt_at : (Text → String) → ℕ → Attempt → Hook → Hook
attempt_at printed id attempt hook =
    (process_webhook_event attempt.fails attempt.refused printed attempt.now id hook).1

abbrev pub after_attempts : (Text → String) → ℕ → List Attempt → Hook → Hook
after_attempts printed id [] hook = hook
after_attempts printed id (attempt ∷ later) hook =
    after_attempts printed id later (attempt_at printed id attempt hook)

same_workspace :
    (test : Bool) (changed row : NumberRow)
    → changed.workspace_id ≡ row.workspace_id
    → (if test then changed else row).workspace_id ≡ row.workspace_id
same_workspace true changed row same = same
same_workspace false changed row same = refl

pub update_webhook_event_status_found :
    (id : ℕ) (change : WebhookEventRow → WebhookEventRow) (hook : Hook) (row : WebhookEventRow)
    → ((row : WebhookEventRow) → (change row).id ≡ row.id)
    → find_webhook_event_by_id id hook.events ≡ some row
    → find_webhook_event_by_id id (update_webhook_event_status id change hook).events
      ≡ some (change row)
update_webhook_event_status_found id change hook row same_id found =
    let key : WebhookEventRow → Bool = λ row. row.id == id in
    let hit : key row ≡ true = find_holds key hook.events found in
    find-update_many key key change hook.events (λ row. ap (λ n. n == id) (same_id row))
    ∙ ap (updated key change) found
    ∙ rw hit refl

-- The event, a message of a workspace, and the number that it came in on.
module _ (printed : Text → String) (id pid ws : ℕ) (event : InboundEvent) where
  pub record IsRouted (hook : Hook) : Type 0 where
    pub stored : WebhookEventRow
    pub found : find_webhook_event_by_id id hook.events ≡ some stored
    pub says : stored.domain_event ≡ some (message event)
    pub came_in_on : stored.phone_number_id ≡ some pid
    pub number : NumberRow
    pub known : find_number pid hook.numbers ≡ some number
    pub owned : number.workspace_id ≡ ws

  pub update-IsRouted :
      (change : WebhookEventRow → WebhookEventRow) (hook : Hook)
      → ((row : WebhookEventRow) → (change row).id ≡ row.id)
      → ((row : WebhookEventRow) → (change row).domain_event ≡ row.domain_event)
      → ((row : WebhookEventRow) → (change row).phone_number_id ≡ row.phone_number_id)
      → IsRouted hook
      → IsRouted (update_webhook_event_status id change hook)
  update-IsRouted change hook same_id same_event same_number routed = record {
    stored = change routed.stored;
    found = update_webhook_event_status_found id change hook routed.stored same_id routed.found;
    says = same_event routed.stored ∙ routed.says;
    came_in_on = same_number routed.stored ∙ routed.came_in_on;
    number = routed.number;
    known = routed.known;
    owned = routed.owned;
  }

  -- A statement that leaves the numbers and their workspaces.
  numbers-IsRouted :
      (test : NumberRow → Bool) (change : NumberRow → NumberRow) (hook : Hook)
      → ((row : NumberRow) → (change row).phone_number_id ≡ row.phone_number_id)
      → ((row : NumberRow) → (change row).workspace_id ≡ row.workspace_id)
      → IsRouted hook
      → IsRouted (record hook { numbers = update_many test change hook.numbers })
  numbers-IsRouted test change hook same_id same_owner routed = record {
    stored = routed.stored;
    found = routed.found;
    says = routed.says;
    came_in_on = routed.came_in_on;
    number = if test routed.number then change routed.number else routed.number;
    known =
        find-update_many (λ (row : NumberRow). row.phone_number_id == pid) test change hook.numbers
          (λ row. ap (λ n. n == pid) (same_id row))
        ∙ ap (updated test change) routed.known;
    owned =
        same_workspace (test routed.number) (change routed.number) routed.number
          (same_owner routed.number)
        ∙ routed.owned;
  }

  pub account-IsRouted :
      (number : NumberRow) (at : ℕ) (hook : Hook)
      → IsRouted hook
      → IsRouted (touch_account_activity number at hook)
  account-IsRouted number at hook routed =
      numbers-IsRouted
        (λ (row : NumberRow).
          (row.account_id == number.account_id) && (row.workspace_id == number.workspace_id))
        (λ (row : NumberRow). record row { account_last_inbound_event_at = some at }) hook
        (λ row. refl) (λ row. refl) routed

  pub touch-IsRouted :
      (number : NumberRow) (at : ℕ) (hook : Hook)
      → IsRouted hook
      → IsRouted (touch_inbound_activity number at hook)
  unfolding touch_inbound_activity
  touch-IsRouted number at hook routed =
      numbers-IsRouted
        (λ (row : NumberRow). (row.id == number.id) && (row.workspace_id == number.workspace_id))
        (λ (row : NumberRow). record row { last_inbound_at = some at })
        (touch_account_activity number at hook) (λ row. refl) (λ row. refl)
        (account-IsRouted number at hook routed)
