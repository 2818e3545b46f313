-- ===== src/Inbound/Quiet.antt =====
-- An attempt that throws adds no job.
use Prim.Native.String.{String}
use whatsapp_os.Prelude.{
  ℕ, ◌≡◌, refl, Bool, true, false, not, ◌||◌, List, Option, none, some, if◌then◌else◌, Option-cases,
  inl, inr,
}
use whatsapp_os.Prelude.Result.{ok, err}
use whatsapp_os.Phone.{Text}
use whatsapp_os.Inbound.{
  InboundEvent, InboundProcessResult, invalid_phone, database_error, Refused, Step,
}
use whatsapp_os.Inbound.Events.{
  DomainEvent, message, status_update, threw, NumberRow, ReplyJob, Hook, Afterwards, mark_processed,
  touch_account, touch_number, enqueue_reply, Run, is_handled, accepts_inbound,
  find_webhook_event_by_id, find_number, touch_inbound_activity,
}
use whatsapp_os.Inbound.Webhook.{
  after_message, message_ended, execute_event, route_event, process_webhook_event,
}

-- A run that throws has added no job that answers a message.
abbrev pub IsQuiet : List ReplyJob → Run → Type 0
IsQuiet replies run = run.0 ≡ threw → run.1.replies ≡ replies

pub either-IsQuiet :
    (replies : List ReplyJob) (test : Bool) (first second : Run)
    → IsQuiet replies first
    → IsQuiet replies second
    → IsQuiet replies (if test then first else second)
either-IsQuiet replies true first second quiet other = quiet
either-IsQuiet replies false first second other quiet = quiet

pub after_message-IsQuiet :
    (fails : Afterwards → Bool) (id now : ℕ) (number : NumberRow) (event : InboundEvent)
    (result : InboundProcessResult) (hook : Hook)
    → IsQuiet hook.replies (after_message fails id now number event result hook)
unfolding after_message touch_inbound_activity
after_message-IsQuiet fails id now number event result hook =
    either-IsQuiet hook.replies (fails mark_processed) _ _ (λ t. refl)
      (either-IsQuiet hook.replies (fails touch_account) _ _ (λ t. refl)
        (either-IsQuiet hook.replies (fails touch_number) _ _ (λ t. refl)
          (either-IsQuiet hook.replies result.is_duplicate _ _ (λ t. cc)
            (either-IsQuiet hook.replies (fails enqueue_reply) _ _ (λ t. refl) (λ t. cc)))))

pub message_ended-IsQuiet :
    (fails : Afterwards → Bool) (id now : ℕ) (number : NumberRow) (event : InboundEvent)
    (step : Step InboundProcessResult) (hook : Hook)
    → IsQuiet hook.replies (message_ended fails id now number event step hook)
message_ended-IsQuiet fails id now number event (ok result, world) hook =
    after_message-IsQuiet fails id now number event result (record hook { world = world })
message_ended-IsQuiet fails id now number event (err invalid_phone, world) hook = λ t. cc
message_ended-IsQuiet fails id now number event (err database_error, world) hook = λ t. refl

pub execute_event-IsQuiet :
    (fails : Afterwards → Bool) (refused : Refused) (printed : Text → String) (id now : ℕ)
    (number : NumberRow) (domain : Option DomainEvent) (hook : Hook)
    → IsQuiet hook.replies (execute_event fails refused printed id now number domain hook)
unfolding execute_event
execute_event-IsQuiet fails refused printed id now number none hook = λ t. cc
execute_event-IsQuiet fails refused printed id now number (some (message event)) hook =
    message_ended-IsQuiet fails id now number event _ hook
execute_event-IsQuiet fails refused printed id now number (some (status_update update)) hook =
    either-IsQuiet hook.replies (fails mark_processed) _ _ (λ t. refl) (λ t. cc)

pub process_webhook_event-IsQuiet :
    (fails : Afterwards → Bool) (refused : Refused) (printed : Text → String) (now id : ℕ)
    (hook : Hook)
    → IsQuiet hook.replies (process_webhook_event fails refused printed now id hook)
unfolding process_webhook_event route_event
process_webhook_event-IsQuiet fails refused printed now id hook =
    elim (Option-cases (find_webhook_event_by_id id hook.events)) [
      | inl missing ↦ rw (missing, process_webhook_event) (λ t. refl)
      | inr (stored, found) ↦
          rw (found, process_webhook_event)
            (either-IsQuiet hook.replies (is_handled stored.status) _ _ (λ t. cc)
              (elim (Option-cases stored.phone_number_id) [
                | inl none_given ↦ rw (none_given, route_event) (λ t. cc)
                | inr (pid, given) ↦
                    rw (given, route_event)
                      (elim (Option-cases (find_number pid hook.numbers)) [
                        | inl unknown ↦ rw unknown (λ t. cc)
                        | inr (number, known) ↦ rw known (
                            either-IsQuiet hook.replies
                              (not (accepts_inbound number.status)
                                || not (accepts_inbound number.account_status))
                              _ _ (λ t. cc)
                              (execute_event-IsQuiet fails refused printed id now number
                                stored.domain_event _))
                      ])
              ]))
    ]
