-- ===== src/Dispatch/Deferred.antt =====
-- A dispatch that ends before the provider is called leaves the message as it was.
use Prim.Native.String.{String}
use whatsapp_os.Prelude.{ℕ, ◌≡◌, refl, Bool, true, false, not, arith, find, Option-cases, inl, inr}
use whatsapp_os.Prelude.Result.{Result, ok, err}
use whatsapp_os.Messages.{MessageRow, is_message, find_message_by_id}
use whatsapp_os.Messages.Channel.{ConversationRow, find_conversation_by_id}
use whatsapp_os.Dispatch.{
  World, sending_status, Surroundings, DispatchError, not_configured, Action, and_then, ◌>>=◌, ◌>>◌,
  throw_if, write_if,
}
use whatsapp_os.Dispatch.Outbound.{
  settled_row, finish, with_sending, send, allow_dispatch, deliver, dispatch_outbound_message,
}
use whatsapp_os.Dispatch.Late.{is_early, IsLate, and_then-IsLate, write_if-IsLate, to_finish-IsLate}

module _ (met : Surroundings) (ws : ℕ) (show : ℕ → String) where
  -- Either no early error, or nothing but the counts of the rate limit has changed.
  abbrev Unsent : {A : Type 0} → World → Result DispatchError A × World → Type 0
  Unsent world (ok a, after) = Unit {0}
  Unsent world (err e, after) =
      (is_early e ≡ true) → after ≡ record world { buckets = after.buckets }

  Unsent-of_late :
      {A : Type 0} (world : World) (out : Result DispatchError A × World)
      → IsLate out.0
      → Unsent world out
  Unsent-of_late world (ok a, after) late = tt
  Unsent-of_late world (err e, after) late = λ early. cc

  marked-Unsent :
      (message : MessageRow) (conversation : ConversationRow) (before world : World)
      → Unsent before (
          (write_if (met.refuses sending_status) (with_sending met ws message)
              >> (send show met ws message conversation >>= finish met ws message conversation))
            world)
  marked-Unsent message conversation before world =
      let to_finish =
        send show met ws message conversation >>= finish met ws message conversation in
      let mark = write_if (met.refuses sending_status) (with_sending met ws message) in
      Unsent-of_late before ((mark >> to_finish) world) (
        and_then-IsLate (mark world) (λ _. to_finish)
          (write_if-IsLate (met.refuses sending_status) (with_sending met ws message) world)
          (λ _ after. to_finish-IsLate met ws show message conversation after))

  counted_only :
      (world : World)
      → (allow_dispatch show met ws world).1
        ≡ record world { buckets = (allow_dispatch show met ws world).1.buckets }
  unfolding allow_dispatch
  counted_only world = ground arith

  throw_if-Unsent :
      {A : Type 0} (bad : Bool) (before after : World)
      → after ≡ record before { buckets = after.buckets }
      → (rest : Action A) → Unsent before (rest after)
      → Unsent before (and_then (throw_if bad not_configured after) (λ _. rest))
  throw_if-Unsent true before after counted rest later = λ early. counted
  throw_if-Unsent false before after counted rest later = later

  allowed-Unsent :
      (message : MessageRow) (conversation : ConversationRow) (before : World)
      → (out : Result DispatchError (Unit {0}) × World)
      → out.1 ≡ record before { buckets = out.1.buckets }
      → Unsent before (
          and_then out (λ _.
            throw_if (not met.has_provider) not_configured
            >> (write_if (met.refuses sending_status) (with_sending met ws message)
                >> (send show met ws message conversation >>= finish met ws message conversation))))
  allowed-Unsent message conversation before (err e, after) counted = λ early. counted
  allowed-Unsent message conversation before (ok a, after) counted =
      throw_if-Unsent (not met.has_provider) before after counted
        (write_if (met.refuses sending_status) (with_sending met ws message)
          >> (send show met ws message conversation >>= finish met ws message conversation))
        (marked-Unsent message conversation before after)

  deliver-Unsent :
      (message : MessageRow) (conversation : ConversationRow) (world : World)
      → Unsent world (deliver show met ws message conversation world)
  unfolding deliver
  deliver-Unsent message conversation world =
      allowed-Unsent message conversation world (allow_dispatch show met ws world)
        (counted_only world)

  dispatch-Unsent :
      (id : ℕ) (world : World) → Unsent world (dispatch_outbound_message show met ws id world)
  unfolding dispatch_outbound_message find_message_by_id
  dispatch-Unsent id world = elim (Option-cases (find (is_message ws id) world.messages)) [
    | inl missing ↦ rw (dispatch_outbound_message, missing) (λ early. refl)
    | inr (row, found) ↦ elim (Option-cases (settled_row ws id row world)) [
      | inr (settled, e) ↦ rw (dispatch_outbound_message, found) (rw e tt)
      | inl free ↦
          elim (Option-cases (find_conversation_by_id ws row.conversation_id world.conversations)) [
            | inl silent ↦
                rw (dispatch_outbound_message, found) (rw free (rw silent (λ early. refl)))
            | inr (conversation, spoken) ↦
                rw (dispatch_outbound_message, found)
                  (rw free (rw spoken (deliver-Unsent row conversation world)))
          ]
    ]
  ]

  read_Unsent :
      {A : Type 0} (world : World) (out : Result DispatchError A × World) (e : DispatchError)
      → Unsent world out
      → out.0 ≡ err e
      → is_early e ≡ true
      → out.1 ≡ record world { buckets = out.1.buckets }
  read_Unsent world (ok a, after) e unsent same early = cc
  read_Unsent world (err e', after) e unsent same early = unsent cc

  -- A dispatch that throws because the message or its conversation is missing, the workspace
  -- sends too fast, or no provider is configured has changed nothing but the counts of the rate
  -- limit: the message stays queued, and no request was handed over.
  pub early_error_leaves_message :
      (id : ℕ) (world : World) (e : DispatchError)
      → (dispatch_outbound_message show met ws id world).0 ≡ err e
      → is_early e ≡ true
      → (dispatch_outbound_message show met ws id world).1
        ≡ record world { buckets = (dispatch_outbound_message show met ws id world).1.buckets }
  early_error_leaves_message id world e same early =
      read_Unsent world (dispatch_outbound_message show met ws id world) e
        (dispatch-Unsent id world) same early
