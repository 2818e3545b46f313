-- ===== src/Inbound/Stuck.antt =====
-- A message that is stored is not answered by a later attempt.
use Prim.Native.String.{String}
use whatsapp_os.Prelude.{
  ℕ, ◌≡◌, refl, Bool, true, false, not, ◌||◌, List, [], ◌∷◌, Option, some, if◌then◌else◌, sym,
}
use mathlib.Core.Path.{subst}
use whatsapp_os.Messages.{MessageRow, find_message_by_provider_id}
use whatsapp_os.Phone.{Text, normalise_phone, NormalisedPhone}
use whatsapp_os.Inbound.{InboundEvent, InboundProcessResult, Refused}
use whatsapp_os.Inbound.Stored.{process_inbound_message-duplicate}
use whatsapp_os.Inbound.Events.{
  message, ignored, processing, returned, WebhookEventRow, NumberRow, ReplyJob, Hook, Afterwards,
  mark_processed, touch_account, touch_number, touch_account_activity, Run, is_handled,
  accepts_inbound, update_webhook_event_status, touch_inbound_activity,
}
use whatsapp_os.Inbound.Webhook.{
  ignore_event, fail_again, processed_row, after_message, execute_event, route_event,
  process_webhook_event,
}
use whatsapp_os.Inbound.Routed.{
  Attempt, attempt_at, after_attempts, IsRouted, update-IsRouted, touch-IsRouted, account-IsRouted,
}

module _ (printed : Text → String) (id pid ws : ℕ) (event : InboundEvent) where
  -- The message is stored, and these are the jobs that answer messages.
  pub record IsStuck (row : MessageRow) (replies : List ReplyJob) (hook : Hook) : Type 0 where
    pub routed : IsRouted printed id pid ws event hook
    pub kept :
        find_message_by_provider_id ws event.provider_message_id hook.world.messages ≡ some row
    pub same_replies : hook.replies ≡ replies

  module _ (row : MessageRow) (replies : List ReplyJob) where
    pub update-IsStuck :
        (change : WebhookEventRow → WebhookEventRow) (hook : Hook)
        → ((row : WebhookEventRow) → (change row).id ≡ row.id)
        → ((row : WebhookEventRow) → (change row).domain_event ≡ row.domain_event)
        → ((row : WebhookEventRow) → (change row).phone_number_id ≡ row.phone_number_id)
        → IsStuck row replies hook
        → IsStuck row replies (update_webhook_event_status id change hook)
    update-IsStuck change hook same_id same_event same_number stuck = record {
      routed =
          update-IsRouted printed id pid ws event change hook same_id same_event same_number
            stuck.routed;
      kept = stuck.kept;
      same_replies = stuck.same_replies;
    }

    pub touch-IsStuck :
        (number : NumberRow) (at : ℕ) (hook : Hook)
        → IsStuck row replies hook
        → IsStuck row replies (touch_inbound_activity number at hook)
    unfolding touch_inbound_activity
    touch-IsStuck number at hook stuck = record {
      routed = touch-IsRouted printed id pid ws event number at hook stuck.routed;
      kept = stuck.kept;
      same_replies = stuck.same_replies;
    }

    account-IsStuck :
        (number : NumberRow) (at : ℕ) (hook : Hook)
        → IsStuck row replies hook
        → IsStuck row replies (touch_account_activity number at hook)
    account-IsStuck number at hook stuck = record {
      routed = account-IsRouted printed id pid ws event number at hook stuck.routed;
      kept = stuck.kept;
      same_replies = stuck.same_replies;
    }

    pub either-IsStuck :
        (test : Bool) (first second : Run)
        → IsStuck row replies first.1
        → IsStuck row replies second.1
        → IsStuck row replies (if test then first else second).1
    either-IsStuck true first second holds other = holds
    either-IsStuck false first second other holds = holds

    pub fail_again-IsStuck :
        (hook : Hook) → IsStuck row replies hook → IsStuck row replies (fail_again id hook).1
    fail_again-IsStuck hook stuck =
        update-IsStuck (λ row. record row { has_error = true }) hook (λ row. refl) (λ row. refl)
          (λ row. refl) stuck

    pub after_message-IsStuck :
        (fails : Afterwards → Bool) (now : ℕ) (number : NumberRow) (result : InboundProcessResult)
        (hook : Hook)
        → result.is_duplicate ≡ true
        → IsStuck row replies hook
        → IsStuck row replies (after_message fails id now number event result hook).1
    unfolding after_message
    after_message-IsStuck fails now number result hook again stuck =
        let marked = update_webhook_event_status id (processed_row now) hook in
        let marks =
          update-IsStuck (processed_row now) hook (λ row. refl) (λ row. refl) (λ row. refl) stuck in
        let touches = touch-IsStuck number event.occurred_at marked marks in
        rw (again, after_message)
          (either-IsStuck (fails mark_processed) _ _ (fail_again-IsStuck hook stuck) (
            either-IsStuck (fails touch_account) _ _ (fail_again-IsStuck marked marks) (
              either-IsStuck (fails touch_number) _ _
                (fail_again-IsStuck (touch_account_activity number event.occurred_at marked)
                  (account-IsStuck number event.occurred_at marked marks))
                touches)))

    pub ignore-IsStuck :
        (now : ℕ) (workspace_id : Option ℕ) (hook : Hook)
        → IsStuck row replies hook
        → IsStuck row replies (ignore_event id now workspace_id hook).1
    ignore-IsStuck now workspace_id hook stuck =
        update-IsStuck
          (λ row. record row {
            status = ignored;
            workspace_id = workspace_id;
            has_error = true;
            processed_at = some now;
          })
          hook (λ row. refl) (λ row. refl) (λ row. refl) stuck

    pub execute_event-IsStuck :
        (fails : Afterwards → Bool) (refused : Refused) (now : ℕ) (number : NumberRow) (hook : Hook)
        (phone : NormalisedPhone)
        → normalise_phone event.from_phone "PK" ≡ some phone
        → number.workspace_id ≡ ws
        → IsStuck row replies hook
        → IsStuck row replies
            (execute_event fails refused printed id now number (some (message event)) hook).1
    unfolding execute_event
    execute_event-IsStuck fails refused now number hook phone valid owned stuck =
        let duplicate =
          process_inbound_message-duplicate refused number.workspace_id event printed now hook.world
            row phone valid
            (subst
              (λ w.
                find_message_by_provider_id w event.provider_message_id hook.world.messages
                ≡ some row)
              (sym owned) stuck.kept) in
        rw (duplicate, execute_event) (after_message-IsStuck fails now number _ hook refl stuck)

    pub route_event-IsStuck :
        (fails : Afterwards → Bool) (refused : Refused) (now : ℕ) (stored : WebhookEventRow)
        (hook : Hook) (phone : NormalisedPhone)
        → normalise_phone event.from_phone "PK" ≡ some phone
        → stored.domain_event ≡ some (message event)
        → stored.phone_number_id ≡ some pid
        → IsStuck row replies hook
        → IsStuck row replies (route_event fails refused printed id now stored hook).1
    unfolding route_event
    route_event-IsStuck fails refused now stored hook phone valid says came_in_on stuck =
        let routed = stuck.routed in
        let number = routed.number in
        let assigned =
          update-IsStuck (λ row. record row { workspace_id = some number.workspace_id }) hook
            (λ row. refl) (λ row. refl) (λ row. refl) stuck in
        rw (came_in_on, route_event)
          (rw routed.known (
            either-IsStuck
              (not (accepts_inbound number.status) || not (accepts_inbound number.account_status)) _
              _ (ignore-IsStuck now (some number.workspace_id) hook stuck)
              (rw says (
                execute_event-IsStuck fails refused now number _ phone valid routed.owned
                  assigned))))

    pub process_webhook_event-IsStuck :
        (fails : Afterwards → Bool) (refused : Refused) (now : ℕ) (hook : Hook)
        (phone : NormalisedPhone)
        → normalise_phone event.from_phone "PK" ≡ some phone
        → IsStuck row replies hook
        → IsStuck row replies (process_webhook_event fails refused printed now id hook).1
    unfolding process_webhook_event
    process_webhook_event-IsStuck fails refused now hook phone valid stuck =
        let routed = stuck.routed in
        rw (routed.found, process_webhook_event)
          (either-IsStuck (is_handled routed.stored.status) (returned, hook) _ stuck
            (route_event-IsStuck fails refused now routed.stored _ phone valid routed.says
              routed.came_in_on
              (update-IsStuck (λ row. record row { status = processing }) hook (λ row. refl)
                (λ row. refl) (λ row. refl) stuck)))

    pub after_attempts-IsStuck :
        (later : List Attempt) (hook : Hook) (phone : NormalisedPhone)
        → normalise_phone event.from_phone "PK" ≡ some phone
        → IsStuck row replies hook
        → IsStuck row replies (after_attempts printed id later hook)
    after_attempts-IsStuck [] hook phone valid stuck = stuck
    after_attempts-IsStuck (attempt ∷ later) hook phone valid stuck =
        after_attempts-IsStuck later (attempt_at printed id attempt hook) phone valid (
          process_webhook_event-IsStuck attempt.fails attempt.refused attempt.now hook phone valid
            stuck)
