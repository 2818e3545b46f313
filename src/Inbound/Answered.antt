-- ===== src/Inbound/Answered.antt =====
-- A message that is processed without a failure is answered.
use Prim.Native.String.{String}
use whatsapp_os.Prelude.{
  ℕ, ◌≡◌, refl, Bool, true, false, List, [], ◌∷◌, ◌++◌, none, some, any, ◌==◌, ==_refl, arith,
  Bool-cases, inl, inr, ap, sym, ◌∙◌,
}
use mathlib.Core.Path.{subst}
use whatsapp_os.Prelude.Result.{ok}
use whatsapp_os.Messages.{MessageRow, find_message_by_provider_id}
use whatsapp_os.Phone.{Text, normalise_phone, NormalisedPhone}
use whatsapp_os.Inbound.{World, InboundEvent, InboundProcessResult}
use whatsapp_os.Inbound.Receive.{process_inbound_message}
use whatsapp_os.Inbound.Returned.{none_refused, result_of, process_inbound_message-IsFresh}
use whatsapp_os.Inbound.Received.{Any, IsStored}
use whatsapp_os.Inbound.Stored.{process_inbound_message-IsStored}
use whatsapp_os.Inbound.Ends.{Ends}
use whatsapp_os.Inbound.Routed.{
  Attempt, attempt_at, after_attempts, IsRouted, update_webhook_event_status_found,
}
use whatsapp_os.Inbound.Events.{
  processing, returned, WebhookEventRow, NumberRow, ReplyJob, Hook, Run, Afterwards, is_handled,
  accepts_inbound, find_webhook_event_by_id, update_webhook_event_status, touch_inbound_activity,
  enqueue_ai_respond,
}
use whatsapp_os.Inbound.Webhook.{
  processed_row, after_message, execute_event, route_event, process_webhook_event,
}

abbrev pub none_fails : Afterwards → Bool
none_fails _ = false

abbrev has_reply : ℕ → List ReplyJob → Bool
has_reply message_id = any (λ (held : ReplyJob). held.message_id == message_id)

has_reply-append :
    (message_id : ℕ) (jobs : List ReplyJob) (job : ReplyJob)
    → job.message_id ≡ message_id
    → has_reply message_id (jobs ++ (job ∷ [])) ≡ true
has_reply-append message_id [] job same = ground (arith, ==_refl message_id)
has_reply-append message_id (held ∷ jobs) job same =
    ground (arith, has_reply-append message_id jobs job same)

enqueue_ai_respond-has_reply :
    (job : ReplyJob) (hook : Hook)
    → has_reply job.message_id (enqueue_ai_respond job hook).replies ≡ true
enqueue_ai_respond-has_reply job hook = elim (Bool-cases (has_reply job.message_id hook.replies)) [
  | inl held ↦ rw held held
  | inr new ↦ rw new (has_reply-append job.message_id hook.replies job refl)
]

enqueue_ai_respond_events :
    (job : ReplyJob) (hook : Hook) → (enqueue_ai_respond job hook).events ≡ hook.events
enqueue_ai_respond_events job hook = elim (Bool-cases (has_reply job.message_id hook.replies)) [
  | inl held ↦ rw held refl
  | inr new ↦ rw new refl
]

enqueue_ai_respond_world :
    (job : ReplyJob) (hook : Hook) → (enqueue_ai_respond job hook).world ≡ hook.world
enqueue_ai_respond_world job hook = elim (Bool-cases (has_reply job.message_id hook.replies)) [
  | inl held ↦ rw held refl
  | inr new ↦ rw new refl
]

-- A row that was handled is left as it is.
handled_is_left :
    (printed : Text → String) (id : ℕ) (later : List Attempt) (hook : Hook) (row : WebhookEventRow)
    → find_webhook_event_by_id id hook.events ≡ some row
    → is_handled row.status ≡ true
    → after_attempts printed id later hook ≡ hook
unfolding process_webhook_event
handled_is_left printed id [] hook row found handled = refl
handled_is_left printed id (attempt ∷ later) hook row found handled =
    let left : attempt_at printed id attempt hook ≡ hook =
      rw (found, attempt_at, process_webhook_event) (rw handled refl) in
    ap (after_attempts printed id later) left
    ∙ handled_is_left printed id later hook row found handled

module _ (printed : Text → String) (id pid ws : ℕ) (event : InboundEvent) where
  abbrev reply : InboundProcessResult → NumberRow → ReplyJob
  reply result number = record {
    workspace_id = number.workspace_id;
    conversation_id = result.conversation_id;
    message_id = result.message_id;
  }

  abbrev assigned : NumberRow → Hook → Hook
  assigned number hook =
      update_webhook_event_status id (λ row. record row { workspace_id = some number.workspace_id })
        (update_webhook_event_status id (λ row. record row { status = processing }) hook)

  -- The event is processed, and its message is not answered yet.
  abbrev marked : ℕ → World → NumberRow → Hook → Hook
  marked now world number hook = touch_inbound_activity number event.occurred_at (
      update_webhook_event_status id (processed_row now)
        (record (assigned number hook) { world = world }))

  -- What is left of an event whose message was processed, and is new.
  abbrev answered : ℕ → InboundProcessResult → World → NumberRow → Hook → Hook
  answered now result world number hook =
      enqueue_ai_respond (reply result number) (marked now world number hook)

  -- The number takes messages, and the event was not handled.
  abbrev pub IsOpen : (hook : Hook) → IsRouted printed id pid ws event hook → Type 0
  IsOpen hook routed =
      (is_handled routed.stored.status ≡ false)
      × (accepts_inbound routed.number.status ≡ true)
      × (accepts_inbound routed.number.account_status ≡ true)

  process_webhook_event-answered :
      (now : ℕ) (hook : Hook) (result : InboundProcessResult) (world : World)
      (routed : IsRouted printed id pid ws event hook)
      → IsOpen hook routed
      → process_inbound_message none_refused routed.number.workspace_id printed event now hook.world
        ≡ (ok result, world)
      → result.is_duplicate ≡ false
      → process_webhook_event none_fails none_refused printed now id hook
        ≡ (returned, answered now result world routed.number hook)
  unfolding process_webhook_event route_event execute_event after_message
  process_webhook_event-answered now hook result world routed (waiting, live, account_live) done
        fresh =
      rw (routed.found, process_webhook_event)
        (rw waiting (
          rw (routed.came_in_on, route_event)
            (rw routed.known (
              rw live (
                rw account_live
                  (rw routed.says (rw (done, execute_event) (rw (fresh, after_message) refl))))))))

  answered-found :
      (now : ℕ) (hook : Hook) (result : InboundProcessResult) (world : World)
      (routed : IsRouted printed id pid ws event hook)
      → find_webhook_event_by_id id (answered now result world routed.number hook).events
        ≡ some (
            processed_row now (record routed.stored {
              status = processing;
              workspace_id = some routed.number.workspace_id;
            }))
  unfolding touch_inbound_activity
  answered-found now hook result world routed =
      let taken : Hook =
        update_webhook_event_status id (λ row. record row { status = processing }) hook in
      let number = routed.number in
      let found_taken =
        update_webhook_event_status_found id (λ row. record row { status = processing }) hook _
          (λ row. refl) routed.found in
      let found_assigned =
        update_webhook_event_status_found id
          (λ row. record row { workspace_id = some number.workspace_id }) taken _ (λ row. refl)
          found_taken in
      ap (find_webhook_event_by_id id)
        (enqueue_ai_respond_events (reply result number) (marked now world number hook))
      ∙ update_webhook_event_status_found id (processed_row now)
          (record (assigned number hook) { world = world }) _ (λ row. refl) found_assigned

  -- The message is stored with a job that answers it, and later attempts change nothing.
  abbrev pub IsAnswered : List Attempt → Hook → Type 0
  IsAnswered later hook =
      ((row : MessageRow) × (find_message_by_provider_id ws event.provider_message_id
            hook.world.messages
          ≡ some row)
        × (has_reply row.id hook.replies ≡ true))
      × (after_attempts printed id later hook ≡ hook)

  answered-IsAnswered :
      (now : ℕ) (later : List Attempt) (hook : Hook) (result : InboundProcessResult) (world : World)
      (routed : IsRouted printed id pid ws event hook)
      → IsStored none_refused ws event result world
      → IsAnswered later (answered now result world routed.number hook)
  unfolding touch_inbound_activity
  answered-IsAnswered now later hook result world routed stored = (
    (
      stored.row,
      ap (λ (w : World). find_message_by_provider_id ws event.provider_message_id w.messages)
            (enqueue_ai_respond_world (reply result routed.number)
              (marked now world routed.number hook))
          ∙ stored.found,
      ap (λ n. has_reply n (answered now result world routed.number hook).replies) stored.same_id
          ∙ enqueue_ai_respond-has_reply (reply result routed.number)
              (marked now world routed.number hook),
    ),
    handled_is_left printed id later _ _ (answered-found now hook result world routed) refl,
  )

  -- If nothing fails, and the message of an event that was not handled is new, its sender has a
  -- number and the number that it came in on takes messages, then an attempt stores it with a job that
  -- answers it; and however many attempts follow, whatever fails in them, they change nothing.
  pub attempt_at-IsAnswered :
      (phone : NormalisedPhone) (now : ℕ) (later : List Attempt) (hook : Hook)
      (routed : IsRouted printed id pid ws event hook)
      → IsOpen hook routed
      → normalise_phone event.from_phone "PK" ≡ some phone
      → find_message_by_provider_id ws event.provider_message_id hook.world.messages ≡ none
      → IsAnswered later (
          attempt_at printed id
            (record { fails = none_fails; refused = none_refused; now = now })
            hook)
  attempt_at-IsAnswered phone now later hook routed waiting valid new =
      let ws' = routed.number.workspace_id in
      let new' =
        subst
          (λ w. find_message_by_provider_id w event.provider_message_id hook.world.messages ≡ none)
          (sym routed.owned) new in
      let (result, world, done, fresh) =
        result_of (λ result after. result.is_duplicate ≡ false) _
          (process_inbound_message-IsFresh ws' event printed now hook.world phone valid new') in
      let stored : IsStored none_refused ws' event result world =
        subst (Ends (IsStored none_refused ws' event) Any) done
          (process_inbound_message-IsStored none_refused ws' event printed now hook.world) in
      subst (λ (run : Run). IsAnswered later run.1)
        (sym (process_webhook_event-answered now hook result world routed waiting done fresh))
        (answered-IsAnswered now later hook result world routed
          (subst (λ w. IsStored none_refused w event result world) routed.owned stored))
