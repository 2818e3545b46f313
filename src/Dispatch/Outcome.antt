-- ===== src/Dispatch/Outcome.antt =====
-- server/services/whatsapp/dispatch-outcome.ts: writing down what a send did.
use whatsapp_os.Prelude.{
  ℕ, zero, suc, List, Bool, true, false, not, Option, none, some, if◌then◌else◌,
}
use whatsapp_os.Prelude.Result.{ok}
use whatsapp_os.Sending.{SendFailureClass, uncertain, SendFailure, indicates_credential_failure}
use whatsapp_os.Messages.{
  failed, MessageRow, StatusOptions, update_message_status, ProviderSendResult,
  record_message_dispatch, mark_delivery_uncertain,
}
use whatsapp_os.Messages.Channel.{
  find_phone_number_by_id, update_account_error, touch_outbound_success,
}
use whatsapp_os.Dispatch.{
  World, failure_record, account_health, dispatch_result, Surroundings, write_refused, Action, ◌>>◌,
  throw, write_if, write_unless, with_messages,
}

-- `UNCERTAIN`.
abbrev pub is_uncertain : SendFailureClass → Bool
is_uncertain uncertain = true
is_uncertain _ = false

abbrev pub no_options : StatusOptions
no_options = record { occurred_at = none; error_code = none; error_message = none }

-- The messages after the first write of `recordSendFailure`.
unfoldable pub failure_rows : ℕ → ℕ → ℕ → SendFailure → List MessageRow → List MessageRow
failure_rows now workspace_id message_id failure rows =
    if is_uncertain failure.classification
    then mark_delivery_uncertain workspace_id message_id failure.error_code failure.error_message
        now rows
    else (update_message_status workspace_id message_id failed
        (record {
          occurred_at = none;
          error_code = some failure.error_code;
          error_message = some failure.error_message;
        })
        now rows).1

-- The account of the number that was used, after a refusal of its credentials.
unfoldable pub account_after_failure : Surroundings → ℕ → Option ℕ → SendFailure → World → World
account_after_failure met workspace_id none failure world = world
account_after_failure met workspace_id (some phone_id) failure world =
    if not (indicates_credential_failure failure)
    then world
    else elim (find_phone_number_by_id workspace_id phone_id world.phones) [
      | none ↦ world
      | some phone ↦ record world {
        accounts =
            update_account_error workspace_id phone.account_id failure.error_message met.now
              world.accounts;
      }
    ]

unfoldable pub record_send_failure :
    Surroundings → ℕ → ℕ → Option ℕ → SendFailure → Action (Unit {0})
record_send_failure met workspace_id message_id phone_id failure = do
  write_if (met.refuses failure_record)
      (with_messages (failure_rows met.now workspace_id message_id failure))
  write_unless (met.refuses account_health)
      (account_after_failure met workspace_id phone_id failure)

unfoldable pub health_after_success : ℕ → Option ℕ → ProviderSendResult → World → World
health_after_success workspace_id none result world = world
health_after_success workspace_id (some phone_id) result world =
    elim (find_phone_number_by_id workspace_id phone_id world.phones) [
      | none ↦ world
      | some phone ↦
          let rows =
            touch_outbound_success workspace_id phone.account_id phone.id result.occurred_at
              (world.accounts, world.phones) in
          record world { accounts = rows.0; phones = rows.1 }
    ]

unfoldable pub record_send_success :
    Surroundings → ℕ → Option ℕ → ProviderSendResult → Action (Unit {0})
record_send_success met workspace_id phone_id result =
    write_unless (met.refuses account_health) (health_after_success workspace_id phone_id result)

abbrev pub persist_failure : SendFailure
persist_failure = record {
  classification = uncertain;
  error_code = "DISPATCH_PERSIST_FAILED";
  error_message =
      "The message reached WhatsApp but we could not record it. It will not be sent again automatically — check the thread before resending.";
  retry_after_seconds = none;
  retryable = false;
}

-- The loop of `persistDispatchResult`, with so many attempts left.
unfoldable pub persist_from :
    Surroundings → ℕ → ℕ → Option ℕ → ProviderSendResult → ℕ → ℕ → Action (Option MessageRow)
persist_from met workspace_id message_id phone_id result attempt zero world =
    (record_send_failure met workspace_id message_id phone_id persist_failure
        >> throw write_refused)
      world
persist_from met workspace_id message_id phone_id result attempt (suc left) world =
    let later = persist_from met workspace_id message_id phone_id result (suc attempt) left world in
    let written = record_message_dispatch workspace_id message_id result world.messages in
    if met.refuses (dispatch_result attempt)
    then later
    else (ok written.0, record world { messages = written.1 })

abbrev persist_attempts : ℕ
persist_attempts = 3

unfoldable pub persist_dispatch_result :
    Surroundings → ℕ → ℕ → Option ℕ → ProviderSendResult → Action (Option MessageRow)
persist_dispatch_result met workspace_id message_id phone_id result =
    persist_from met workspace_id message_id phone_id result 1 persist_attempts
