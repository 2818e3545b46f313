-- ===== src/Dispatch/Guard.antt =====
-- Rows that no attempt sends again, and what each statement on messages keeps of them.
use Prim.Native.String.{String}
use whatsapp_os.Prelude.{
  ℕ, ◌≡◌, refl, Bool, true, ◌||◌, inl, inr, List, Option, none, some, is_some, arith, find,
  Bool-cases, Option-cases,
}
use whatsapp_os.Prelude.Table.{update_many, find-update_many, find_holds}
use whatsapp_os.Sending.{nonempty}
use whatsapp_os.Messages.{
  MessageRow, is_message, MessageStatus, StatusOptions, sent, delivered, seen, failed, queued,
  sending, received, status_data, is_held, update_message_status, ProviderSendResult, dispatched,
  record_message_dispatch, flagged, mark_delivery_uncertain,
}
use whatsapp_os.Messages.Progress.{status_data-is_message}

-- A row that no attempt sends again: its id is known, or a send may have reached the customer.
abbrev pub is_guarded : MessageRow → Bool
is_guarded row = nonempty row.provider_message_id || is_some row.delivery_uncertain_at

abbrev guarded_option : Option MessageRow → Bool
guarded_option none = true
guarded_option (some row) = is_guarded row

status_data-is_guarded :
    (status : MessageStatus) (options : StatusOptions) (now : ℕ) (row : MessageRow)
    → is_guarded (status_data status options now row) ≡ is_guarded row
unfolding status_data
status_data-is_guarded queued options now row = refl
status_data-is_guarded sending options now row = refl
status_data-is_guarded sent options now row = refl
status_data-is_guarded delivered options now row = refl
status_data-is_guarded seen options now row = refl
status_data-is_guarded failed options now row = refl
status_data-is_guarded received options now row = refl

-- The message whose requests are counted.
module _ (ws id : ℕ) where
  abbrev pub rows_guard : List MessageRow → Bool
  rows_guard rows = guarded_option (find (is_message ws id) rows)

  -- A guard survives an update that keeps it on each row.
  rows_guard-update_many :
      (p : MessageRow → Bool) (f : MessageRow → MessageRow) (rows : List MessageRow)
      → ((row : MessageRow) → is_message ws id (f row) ≡ is_message ws id row)
      → ((row : MessageRow) → is_guarded row ≡ true → is_guarded (f row) ≡ true)
      → rows_guard rows ≡ true
      → rows_guard (update_many p f rows) ≡ true
  rows_guard-update_many p f rows same keeps held =
      rw (find-update_many (is_message ws id) p f rows same)
        (elim (Option-cases (find (is_message ws id) rows)) [
          | inl missing ↦ rw missing refl
          | inr (row, found) ↦ ground (arith, keeps row, found)
        ])

  -- An update that guards every row guards the rows that it writes.
  rows_guard-update_own :
      (f : MessageRow → MessageRow) (rows : List MessageRow)
      → ((row : MessageRow) → is_message ws id (f row) ≡ is_message ws id row)
      → ((row : MessageRow) → is_guarded (f row) ≡ true)
      → rows_guard (update_many (is_message ws id) f rows) ≡ true
  rows_guard-update_own f rows same guards =
      rw (find-update_many (is_message ws id) (is_message ws id) f rows same)
        (elim (Option-cases (find (is_message ws id) rows)) [
          | inl missing ↦ rw missing refl
          | inr (row, found) ↦ rw (found, find_holds (is_message ws id) rows found) (guards row)
        ])

  pub rows_guard-update_message_status :
      (ws' id' : ℕ) (status : MessageStatus) (options : StatusOptions) (now : ℕ)
      (rows : List MessageRow)
      → rows_guard rows ≡ true
      → rows_guard (update_message_status ws' id' status options now rows).1 ≡ true
  unfolding update_message_status
  rows_guard-update_message_status ws' id' status options now rows held =
      elim (Option-cases (find (is_message ws' id') rows)) [
        | inl missing ↦ rw (update_message_status, missing) held
        | inr (row, found) ↦ elim (Bool-cases (is_held row.status status)) [
          | inl stays ↦ rw (update_message_status, found) (rw stays held)
          | inr moves ↦
              rw (update_message_status, found)
                (rw moves (
                  rows_guard-update_many (is_message ws' id') (status_data status options now) rows
                    (status_data-is_message status options now ws id)
                    (λ row safe. rw (status_data-is_guarded status options now row) safe) held))
        ]
      ]

  pub rows_guard-mark_delivery_uncertain :
      (ws' id' : ℕ) (code message : String) (now : ℕ) (rows : List MessageRow)
      → rows_guard rows ≡ true
      → rows_guard (mark_delivery_uncertain ws' id' code message now rows) ≡ true
  unfolding mark_delivery_uncertain
  rows_guard-mark_delivery_uncertain ws' id' code message now rows held =
      rows_guard-update_many (is_message ws' id') (flagged code message now) rows (λ row. refl)
        (λ row safe. ground arith) held

  pub mark_delivery_uncertain_guards :
      (code message : String) (now : ℕ) (rows : List MessageRow)
      → rows_guard (mark_delivery_uncertain ws id code message now rows) ≡ true
  unfolding mark_delivery_uncertain
  mark_delivery_uncertain_guards code message now rows =
      rows_guard-update_own (flagged code message now) rows (λ row. refl) (λ row. ground arith)

  module _ (result : ProviderSendResult)
      (named : nonempty (some result.provider_message_id) ≡ true) where
    pub rows_guard-record_message_dispatch :
        (ws' id' : ℕ) (rows : List MessageRow)
        → rows_guard rows ≡ true
        → rows_guard (record_message_dispatch ws' id' result rows).1 ≡ true
    unfolding record_message_dispatch
    rows_guard-record_message_dispatch ws' id' rows held =
        rows_guard-update_many (is_message ws' id') (dispatched result) rows (λ row. refl)
          (λ row safe. rw named refl) held

    pub record_message_dispatch_guards :
        (rows : List MessageRow) → rows_guard (record_message_dispatch ws id result rows).1 ≡ true
    unfolding record_message_dispatch
    record_message_dispatch_guards rows =
        rows_guard-update_own (dispatched result) rows (λ row. refl) (λ row. rw named refl)
