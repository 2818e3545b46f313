-- ===== src/Dispatch/Send.antt =====
-- One send and what follows it: at most one request for a message may have been taken, and then the
-- message is guarded.
use Prim.Native.String.{String}
use whatsapp_os.Prelude.{
  ℕ, ◌≡◌, refl, Bool, true, false, not, ◌&&◌, ◌⊎◌, inl, inr, ◌∷◌, some, arith, sym, ap, ◌∙◌, ◌==◌,
  Bool-cases,
}
use mathlib.Core.Path.{subst}
use whatsapp_os.Prelude.Result.{Result, ok, err}
use whatsapp_os.Prelude.Table.{count_where}
use whatsapp_os.Sending.{SendError, nonempty, classify_send_failure}
use whatsapp_os.Messages.{MessageRow, ProviderSendResult, sending}
use whatsapp_os.Messages.Channel.{ConversationRow}
use whatsapp_os.Dispatch.{
  Request, World, sending_status, failure_record, Surroundings, Action, and_then, ◌>>=◌, ◌>>◌,
  DispatchError, throw, throw_if, write_if, send_failed, not_configured,
}
use whatsapp_os.Dispatch.Outcome.{is_uncertain, no_options, record_send_failure}
use whatsapp_os.Dispatch.Outbound.{
  allow_dispatch, request_of, after_handing, with_sending, answered, send, finish, deliver,
}
use whatsapp_os.Dispatch.Guard.{rows_guard, rows_guard-update_message_status}
use whatsapp_os.Dispatch.Finish.{Keeps-finish, Guards-finish}
use whatsapp_os.Dispatch.Parts.{
  Same, Keeps, Guards, Keeps->>=, Keeps-write_if, Guards->>=, Keeps-record_send_failure,
  Guards-record_send_failure,
}

-- A request that the provider answered, or that failed without saying whether it arrived.
abbrev pub is_possibly_taken : (ℕ → String) → Result SendError ProviderSendResult → Bool
is_possibly_taken show (ok result) = true
is_possibly_taken show (err error) = is_uncertain (classify_send_failure show error).classification

-- An answer names the message with an id that is not empty.
abbrev pub names_message : Result SendError ProviderSendResult → Bool
names_message (ok result) = nonempty (some result.provider_message_id)
names_message (err error) = true

-- What is asked of an attempt: its record of a failure is written, and an answer has an id.
abbrev pub is_recorded : Surroundings → Bool
is_recorded met = not (met.refuses failure_record) && names_message met.answer

throw-and_then :
    {A B : Type 0} (out : Result DispatchError (Unit {0}) × World) (e : DispatchError)
    (f : A → Action B)
    → and_then (and_then out (λ _. throw {A = A} e)) f ≡ and_then out (λ _. throw {A = B} e)
throw-and_then (err e', world) e f = refl
throw-and_then (ok a, world) e f = refl

Same-throw_if :
    (ws id : ℕ) (bad : Bool) (e : DispatchError) (world : World)
    → Same ws id world (throw_if bad e world).1
Same-throw_if ws id true e world = (refl, λ held. held)
Same-throw_if ws id false e world = (refl, λ held. held)

module _ (show : ℕ → String) (ws id : ℕ) where
  abbrev is_counted : Request → Bool
  is_counted request =
      (request.workspace_id == ws && request.message_id == id)
      && is_possibly_taken show request.answer

  -- How many requests for the message may have reached the customer.
  abbrev pub taken : World → ℕ
  taken world = count_where is_counted world.requests

  abbrev pub IsSafe : World → Type 0
  IsSafe world = (taken world ≡ 0) ⊎ ((taken world ≡ 1) × (rows_guard ws id world.messages ≡ true))

  pub Same-IsSafe : (before after : World) → Same ws id before after → IsSafe before → IsSafe after
  Same-IsSafe before after (same, keeps) safe = ground (arith, keeps)

  -- Before a send of message `id'` of workspace `ws'`: the counted message was not taken, if it is
  -- the one.
  abbrev pub Ready : ℕ → ℕ → World → Type 0
  Ready ws' id' world = IsSafe world × ((ws' == ws && id' == id) ≡ true → taken world ≡ 0)

  Ready-and_then :
      {A B : Type 0} (ws' id' : ℕ) (before : World) (out : Result DispatchError A × World)
      (f : A → Action B)
      → Same ws id before out.1
      → Ready ws' id' before
      → ((a : A) (world : World) → Ready ws' id' world → IsSafe (f a world).1)
      → IsSafe (and_then out f).1
  Ready-and_then ws' id' before (err e, after) f same ready rest =
      Same-IsSafe before after same ready.0
  Ready-and_then ws' id' before (ok a, after) f same ready rest =
      rest a after (Same-IsSafe before after same ready.0, λ hit. rw same.0 (ready.1 hit))

  -- The request that was handed over, and any work that keeps a guard, and sets it where needed.
  handed-IsSafe :
      {A : Type 0} (ws' id' : ℕ) (request : Request) (m : Action A) (before handed : World)
      → (request.workspace_id ≡ ws') × (request.message_id ≡ id')
      → (handed.requests ≡ request ∷ before.requests) × (handed.messages ≡ before.messages)
      → Ready ws' id' before
      → Keeps ws id m
      → (is_counted request ≡ true → Guards ws id m)
      → IsSafe (m handed).1
  handed-IsSafe ws' id' request m before handed of_message made ready keeps guards =
      elim (Bool-cases (is_counted request)) [
        | inr free ↦ let kept = keeps handed in ground (arith, free, kept, ready, made)
        | inl counted ↦
            let fixed = guards counted handed in
            ground (arith, counted, fixed, ready, made, of_message)
      ]

  module _ (met : Surroundings) (good : is_recorded met ≡ true) where
    recorded : (met.refuses failure_record ≡ false) × (names_message met.answer ≡ true)
    recorded = ground arith

    failed_send-IsSafe :
        (ws' : ℕ) (message : MessageRow) (conversation : ConversationRow) (world : World)
        → Ready ws' message.id world
        → (error : SendError) → met.answer ≡ err error
        → IsSafe
            ((record_send_failure met ws' message.id conversation.phone_number_id
                  (classify_send_failure show error)
                >> throw {A = MessageRow} (send_failed error))
              (after_handing met ws' message conversation world)).1
    failed_send-IsSafe ws' message conversation world ready error failed =
        let request = request_of met ws' message conversation in
        let failure = classify_send_failure show error in
        let phone_id = conversation.phone_number_id in
        let record_it : Action (Unit {0}) =
          record_send_failure met ws' message.id phone_id failure in
        let rethrow : Unit {0} → Action MessageRow = λ _. throw (send_failed error) in
        handed-IsSafe ws' message.id request (record_it >>= rethrow) world
          (after_handing met ws' message conversation world) ((refl, refl)) ((refl, refl)) ready
          (Keeps->>= ws id record_it rethrow
            (Keeps-record_send_failure ws id met ws' message.id phone_id failure)
            (λ _ after. (refl, λ held. held)))
          (λ counted.
            let taken_it : is_possibly_taken show met.answer ≡ true = ground arith in
            let unknown : is_uncertain failure.classification ≡ true =
              sym (ap (is_possibly_taken show) failed) ∙ taken_it in
            let own_workspace : ws ≡ ws' = ground arith in
            let own_message : id ≡ message.id = ground arith in
            rw (own_workspace, own_message)
              (Guards->>= ws' message.id record_it rethrow
                (Guards-record_send_failure ws' message.id met phone_id failure recorded.0 unknown)
                (λ _ after. (refl, λ held. held))))

    answered_send-IsSafe :
        (ws' : ℕ) (message : MessageRow) (conversation : ConversationRow) (world : World)
        → Ready ws' message.id world
        → (result : ProviderSendResult) → met.answer ≡ ok result
        → IsSafe
            (finish met ws' message conversation result
              (after_handing met ws' message conversation world)).1
    answered_send-IsSafe ws' message conversation world ready result answered =
        let request = request_of met ws' message conversation in
        let named : nonempty (some result.provider_message_id) ≡ true =
          sym (ap names_message answered) ∙ recorded.1 in
        handed-IsSafe ws' message.id request (finish met ws' message conversation result) world
          (after_handing met ws' message conversation world) ((refl, refl)) ((refl, refl)) ready
          (Keeps-finish ws id met ws' conversation message result named)
          (λ counted.
            let own_workspace : ws ≡ ws' = ground arith in
            let own_message : id ≡ message.id = ground arith in
            rw (own_workspace, own_message)
              (Guards-finish ws' met conversation message result named recorded.0))

    -- A send, and what is written after it.
    answered-IsSafe :
        (ws' : ℕ) (message : MessageRow) (conversation : ConversationRow) (world : World)
        → Ready ws' message.id world
        → (answer : Result SendError ProviderSendResult) → met.answer ≡ answer
        → IsSafe
            (and_then
              (answered show met ws' message conversation answer
                (after_handing met ws' message conversation world))
              (finish met ws' message conversation)).1
    unfolding answered
    answered-IsSafe ws' message conversation world ready (ok result) e =
        answered_send-IsSafe ws' message conversation world ready result e
    answered-IsSafe ws' message conversation world ready (err error) e =
        let out =
          record_send_failure met ws' message.id conversation.phone_number_id
            (classify_send_failure show error) (after_handing met ws' message conversation world) in
        subst (λ end. IsSafe end.1)
          (sym (throw-and_then out (send_failed error) (finish met ws' message conversation)))
          (failed_send-IsSafe ws' message conversation world ready error e)

    Same-allow_dispatch :
        (ws' : ℕ) (world : World) → Same ws id world (allow_dispatch show met ws' world).1
    unfolding allow_dispatch
    Same-allow_dispatch ws' world = (ground arith, ground arith)

    pub deliver-IsSafe :
        (ws' : ℕ) (message : MessageRow) (conversation : ConversationRow) (world : World)
        → Ready ws' message.id world
        → IsSafe (deliver show met ws' message conversation world).1
    unfolding deliver send
    deliver-IsSafe ws' message conversation world ready =
        let to_finish : Action MessageRow =
          send show met ws' message conversation >>= finish met ws' message conversation in
        let mark : Action (Unit {0}) =
          write_if (met.refuses sending_status) (with_sending met ws' message) in
        Ready-and_then ws' message.id world (allow_dispatch show met ws' world)
          (λ _. throw_if (not met.has_provider) not_configured >> (mark >> to_finish))
          (Same-allow_dispatch ws' world) ready
          (λ _ second ready.
            Ready-and_then ws' message.id second
              (throw_if (not met.has_provider) not_configured second) (λ _. mark >> to_finish)
              (Same-throw_if ws id (not met.has_provider) not_configured second) ready
              (λ _ third ready.
                Ready-and_then ws' message.id third (mark third) (λ _. to_finish)
                  (Keeps-write_if ws id (met.refuses sending_status) (with_sending met ws' message)
                    (λ world. (
                      refl,
                      rows_guard-update_message_status ws id ws' message.id sending no_options
                          met.now world.messages,
                    ))
                    third)
                  ready
                  (λ _ fourth ready.
                    answered-IsSafe ws' message conversation fourth ready met.answer refl)))
