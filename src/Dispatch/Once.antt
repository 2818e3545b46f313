-- ===== src/Dispatch/Once.antt =====
-- A message goes out once, over every sequence of attempts and delivery reports.
use Prim.Native.String.{String}
use whatsapp_os.Prelude.{
  ℕ, ◌≤◌, ◌≡◌, refl, Bool, true, false, inl, inr, List, [], ◌∷◌, none, some, arith, all, find,
  Option-cases,
}
use whatsapp_os.Prelude.Table.{find_holds}
use whatsapp_os.Messages.{MessageRow, is_message, find_message_by_id, find_message_by_provider_id}
use whatsapp_os.Messages.Channel.{find_conversation_by_id}
use whatsapp_os.Dispatch.{World, Surroundings}
use whatsapp_os.Dispatch.Outbound.{
  settled_row, dispatch_outbound_message, InboundStatusUpdate, process_status_update,
}
use whatsapp_os.Dispatch.Guard.{is_guarded, rows_guard, rows_guard-update_message_status}
use whatsapp_os.Dispatch.Send.{is_recorded, taken, IsSafe, Same-IsSafe, Ready, deliver-IsSafe}

-- What happens to the messages of all workspaces: attempts to send one, and delivery reports.
pub data Event : Type 0 where
  attempt : Surroundings → ℕ → ℕ → Event
  report : ℕ → InboundStatusUpdate → ℕ → Event

abbrev pub is_recorded_event : Event → Bool
is_recorded_event (attempt met workspace_id message_id) = is_recorded met
is_recorded_event (report workspace_id update now) = true

abbrev pub after_report : ℕ → InboundStatusUpdate → ℕ → World → World
after_report workspace_id update now world = record world {
  messages = (process_status_update workspace_id update now world.messages).1;
}

unsettled_is_free :
    (ws id : ℕ) (row : MessageRow) (world : World)
    → settled_row ws id row world ≡ none
    → is_guarded row ≡ false
unfolding settled_row
unsettled_is_free ws id row world free = ground arith

module _ (show : ℕ → String) where
  abbrev pub after_event : Event → World → World
  after_event (attempt met workspace_id message_id) world =
      (dispatch_outbound_message show met workspace_id message_id world).1
  after_event (report workspace_id update now) world = after_report workspace_id update now world

  abbrev pub after_events : List Event → World → World
  after_events [] world = world
  after_events (event ∷ events) world = after_events events (after_event event world)

  module _ (ws id : ℕ) where
    found-Ready :
        (ws' id' : ℕ) (row : MessageRow) (world : World)
        → find (is_message ws' id') world.messages ≡ some row
        → settled_row ws' id' row world ≡ none
        → IsSafe show ws id world
        → Ready show ws id ws' row.id world
    found-Ready ws' id' row world found free safe =
        let own = find_holds (is_message ws' id') world.messages found in
        let open_row = unsettled_is_free ws' id' row world free in
        (
          safe,
          λ hit. elim safe [
            | inl fresh ↦ fresh
            | inr (once, held) ↦
                let own_workspace : ws ≡ ws' = ground arith in
                let own_message : id ≡ id' = ground arith in
                let here : find (is_message ws id) world.messages ≡ some row =
                  rw (own_workspace, own_message) found in
                ground (arith, here, held, open_row)
          ],
        )

    dispatch-IsSafe :
        (met : Surroundings) (ws' id' : ℕ) (world : World)
        → is_recorded met ≡ true
        → IsSafe show ws id world
        → IsSafe show ws id (dispatch_outbound_message show met ws' id' world).1
    unfolding dispatch_outbound_message find_message_by_id
    dispatch-IsSafe met ws' id' world good safe =
        elim (Option-cases (find (is_message ws' id') world.messages)) [
          | inl missing ↦ rw (dispatch_outbound_message, missing) safe
          | inr (row, found) ↦ elim (Option-cases (settled_row ws' id' row world)) [
            | inr (settled, e) ↦ rw (dispatch_outbound_message, found) (rw e safe)
            | inl free ↦
                elim (Option-cases
                  (find_conversation_by_id ws' row.conversation_id world.conversations)) [
                    | inl silent ↦ rw (dispatch_outbound_message, found) (rw free (rw silent safe))
                    | inr (conversation, spoken) ↦
                        rw (dispatch_outbound_message, found)
                          (rw free (
                            rw spoken (
                              deliver-IsSafe show ws id met good ws' row conversation world
                                (found-Ready ws' id' row world found free safe))))
                  ]
          ]
        ]

    rows_guard-report :
        (ws' : ℕ) (update : InboundStatusUpdate) (now : ℕ) (rows : List MessageRow)
        → rows_guard ws id rows ≡ true
        → rows_guard ws id (process_status_update ws' update now rows).1 ≡ true
    unfolding process_status_update
    rows_guard-report ws' update now rows held =
        elim (Option-cases (find_message_by_provider_id ws' update.provider_message_id rows)) [
          | inl missing ↦ rw (process_status_update, missing) held
          | inr (row, found) ↦
              rw (process_status_update, found)
                (rows_guard-update_message_status ws id ws' row.id update.status
                  (record {
                    occurred_at = some update.occurred_at;
                    error_code = update.error_code;
                    error_message = update.error_message;
                  })
                  now rows held)
        ]

    report-IsSafe :
        (ws' : ℕ) (update : InboundStatusUpdate) (now : ℕ) (world : World)
        → IsSafe show ws id world
        → IsSafe show ws id (after_report ws' update now world)
    report-IsSafe ws' update now world safe =
        Same-IsSafe show ws id world (after_report ws' update now world)
          ((refl, rows_guard-report ws' update now world.messages)) safe

    events-IsSafe :
        (events : List Event) (world : World)
        → all is_recorded_event events ≡ true
        → IsSafe show ws id world
        → IsSafe show ws id (after_events events world)
    events-IsSafe [] world good safe = safe
    events-IsSafe (attempt met ws' id' ∷ events) world good safe =
        events-IsSafe events _ (ground arith)
          (dispatch-IsSafe met ws' id' world (ground arith) safe)
    events-IsSafe (report ws' update now ∷ events) world good safe =
        events-IsSafe events _ good (report-IsSafe ws' update now world safe)

    -- However often a message is dispatched, whatever the provider answers or throws and whichever
    -- writes are refused, and whatever reports come between: at most one request for it may have
    -- reached the customer, if there was none before. Each attempt is asked to write down its
    -- failure, and an answer to name the message.
    pub taken_at_most_once :
        (events : List Event) (world : World)
        → all is_recorded_event events ≡ true
        → taken show ws id world ≡ 0
        → taken show ws id (after_events events world) ≤ 1
    taken_at_most_once events world good fresh =
        let safe = events-IsSafe events world good (inl fresh) in ground arith
