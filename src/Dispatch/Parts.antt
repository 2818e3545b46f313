-- ===== src/Dispatch/Parts.antt =====
-- What each part of a dispatch keeps: the requests, and a guard on one message.
use whatsapp_os.Prelude.{
  ℕ, zero, suc, ◌≡◌, refl, Bool, true, false, inl, inr, List, Option, none, some, arith, Bool-cases,
}
use whatsapp_os.Prelude.Result.{Result, ok, err}
use whatsapp_os.Sending.{SendFailure, nonempty}
use whatsapp_os.Messages.{MessageRow, ProviderSendResult, failed}
use whatsapp_os.Dispatch.{
  World, failure_record, account_health, dispatch_result, Surroundings, Action, and_then, ◌>>=◌,
  DispatchError, throw, write_refused, write_unless, write_if,
}
use whatsapp_os.Dispatch.Outcome.{
  is_uncertain, failure_rows, account_after_failure, record_send_failure, health_after_success,
  record_send_success, persist_failure, persist_from,
}
use whatsapp_os.Dispatch.Guard.{
  rows_guard, rows_guard-update_message_status, rows_guard-mark_delivery_uncertain,
  mark_delivery_uncertain_guards, rows_guard-record_message_dispatch,
  record_message_dispatch_guards,
}

abbrev give_up : Unit {0} → Action (Option MessageRow)
give_up _ = throw write_refused

-- The message whose requests are counted.
module _ (ws id : ℕ) where
  -- No request is added, and a guard stays.
  abbrev pub Same : World → World → Type 0
  Same before after =
      (after.requests ≡ before.requests)
      × (rows_guard ws id before.messages ≡ true → rows_guard ws id after.messages ≡ true)

  abbrev pub Keeps : {A : Type 0} → Action A → Type 0
  Keeps m = (world : World) → Same world (m world).1

  -- No request is added, and the message is guarded at the end.
  abbrev pub Guards : {A : Type 0} → Action A → Type 0
  Guards m =
      (world : World)
      → ((m world).1.requests ≡ world.requests) × (rows_guard ws id (m world).1.messages ≡ true)

  Same-and_then :
      {A B : Type 0} (before : World) (out : Result DispatchError A × World) (f : A → Action B)
      → Same before out.1
      → ((a : A) → Keeps (f a))
      → Same before (and_then out f).1
  Same-and_then before (err e, after) f first rest = first
  Same-and_then before (ok a, after) f first rest =
      let there = rest a after in (ground arith, λ held. there.1 (first.1 held))

  pub Keeps->>= :
      {A B : Type 0} (m : Action A) (f : A → Action B)
      → Keeps m
      → ((a : A) → Keeps (f a))
      → Keeps (m >>= f)
  Keeps->>= m f first rest world = Same-and_then world (m world) f (first world) rest

  pub Keeps-write_if :
      (refused : Bool) (f : World → World)
      → ((world : World) → Same world (f world))
      → Keeps (write_if refused f)
  Keeps-write_if true f keeps world = (refl, λ held. held)
  Keeps-write_if false f keeps world = keeps world

  Keeps-write_unless :
      (refused : Bool) (f : World → World)
      → ((world : World) → Same world (f world))
      → Keeps (write_unless refused f)
  Keeps-write_unless true f keeps world = (refl, λ held. held)
  Keeps-write_unless false f keeps world = keeps world

  -- A write that is not refused, and guards.
  Guards-write_if :
      (refused : Bool) (f : World → World)
      → refused ≡ false
      → ((world : World)
          → ((f world).requests ≡ world.requests) × (rows_guard ws id (f world).messages ≡ true))
      → Guards (write_if refused f)
  Guards-write_if true f made guards world = cc
  Guards-write_if false f made guards world = guards world

  pub Guards->>= :
      {A B : Type 0} (m : Action A) (f : A → Action B)
      → Guards m
      → ((a : A) → Keeps (f a))
      → Guards (m >>= f)
  Guards->>= m f first rest world =
      let (same, held) = first world in
      let (requests, keeps) = Same-and_then (m world).1 (m world) f (refl, λ h. h) rest in
      (ground arith, keeps held)

  failure_rows-keeps :
      (now ws' id' : ℕ) (failure : SendFailure) (rows : List MessageRow)
      → rows_guard ws id rows ≡ true
      → rows_guard ws id (failure_rows now ws' id' failure rows) ≡ true
  unfolding failure_rows
  failure_rows-keeps now ws' id' failure rows held =
      elim (Bool-cases (is_uncertain failure.classification)) [
        | inl unknown ↦
            rw (failure_rows, unknown)
              (rows_guard-mark_delivery_uncertain ws id ws' id' failure.error_code
                failure.error_message now rows held)
        | inr known ↦
            rw (failure_rows, known)
              (rows_guard-update_message_status ws id ws' id' failed _ now rows held)
      ]

  failure_rows-guards :
      (now : ℕ) (failure : SendFailure) (rows : List MessageRow)
      → is_uncertain failure.classification ≡ true
      → rows_guard ws id (failure_rows now ws id failure rows) ≡ true
  unfolding failure_rows
  failure_rows-guards now failure rows unknown =
      rw (failure_rows, unknown)
        (mark_delivery_uncertain_guards ws id failure.error_code failure.error_message now rows)

  module _ (met : Surroundings) where
    Keeps-account :
        (ws' : ℕ) (phone_id : Option ℕ) (failure : SendFailure) (world : World)
        → Same world (account_after_failure met ws' phone_id failure world)
    unfolding account_after_failure
    Keeps-account ws' none failure world = (refl, λ held. held)
    Keeps-account ws' (some phone_id) failure world = (ground arith, ground arith)

    Keeps-health :
        (ws' : ℕ) (phone_id : Option ℕ) (result : ProviderSendResult) (world : World)
        → Same world (health_after_success ws' phone_id result world)
    unfolding health_after_success
    Keeps-health ws' none result world = (refl, λ held. held)
    Keeps-health ws' (some phone_id) result world = (ground arith, ground arith)

    pub Keeps-record_send_failure :
        (ws' id' : ℕ) (phone_id : Option ℕ) (failure : SendFailure)
        → Keeps (record_send_failure met ws' id' phone_id failure)
    unfolding record_send_failure
    Keeps-record_send_failure ws' id' phone_id failure =
        Keeps->>= _ _
          (Keeps-write_if (met.refuses failure_record) _
            (λ world. (refl, failure_rows-keeps met.now ws' id' failure world.messages)))
          (λ _.
            Keeps-write_unless (met.refuses account_health) _ (Keeps-account ws' phone_id failure))

    pub Guards-record_send_failure :
        (phone_id : Option ℕ) (failure : SendFailure)
        → met.refuses failure_record ≡ false
        → is_uncertain failure.classification ≡ true
        → Guards (record_send_failure met ws id phone_id failure)
    unfolding record_send_failure
    Guards-record_send_failure phone_id failure written unknown =
        Guards->>= _ _
          (Guards-write_if (met.refuses failure_record) _ written
            (λ world. (refl, failure_rows-guards met.now failure world.messages unknown)))
          (λ _.
            Keeps-write_unless (met.refuses account_health) _ (Keeps-account ws phone_id failure))

    pub Keeps-record_send_success :
        (ws' : ℕ) (phone_id : Option ℕ) (result : ProviderSendResult)
        → Keeps (record_send_success met ws' phone_id result)
    unfolding record_send_success
    Keeps-record_send_success ws' phone_id result =
        Keeps-write_unless (met.refuses account_health) _ (Keeps-health ws' phone_id result)

    module _ (result : ProviderSendResult)
        (named : nonempty (some result.provider_message_id) ≡ true) where
      pub Keeps-persist_from :
          (ws' id' : ℕ) (phone_id : Option ℕ) (attempt left : ℕ)
          → Keeps (persist_from met ws' id' phone_id result attempt left)
      unfolding persist_from
      Keeps-persist_from ws' id' phone_id attempt zero world =
          Keeps->>= (record_send_failure met ws' id' phone_id persist_failure) give_up
            (Keeps-record_send_failure ws' id' phone_id persist_failure)
            (λ _ after. (refl, λ held. held)) world
      Keeps-persist_from ws' id' phone_id attempt (suc left) world =
          let later = Keeps-persist_from ws' id' phone_id (suc attempt) left world in
          elim (Bool-cases (met.refuses (dispatch_result attempt))) [
            | inl refused ↦ rw (persist_from, refused) later
            | inr written ↦
                rw (persist_from, written)
                  ((
                    refl,
                    rows_guard-record_message_dispatch ws id result named ws' id' world.messages,
                  ))
          ]

      pub Guards-persist_from :
          (phone_id : Option ℕ) (attempt left : ℕ)
          → met.refuses failure_record ≡ false
          → Guards (persist_from met ws id phone_id result attempt left)
      unfolding persist_from
      Guards-persist_from phone_id attempt zero noted world =
          Guards->>= (record_send_failure met ws id phone_id persist_failure) give_up
            (Guards-record_send_failure phone_id persist_failure noted refl)
            (λ _ after. (refl, λ held. held)) world
      Guards-persist_from phone_id attempt (suc left) noted world =
          let later = Guards-persist_from phone_id (suc attempt) left noted world in
          elim (Bool-cases (met.refuses (dispatch_result attempt))) [
            | inl refused ↦ rw (persist_from, refused) later
            | inr written ↦
                rw (persist_from, written)
                  ((refl, record_message_dispatch_guards ws id result named world.messages))
          ]
