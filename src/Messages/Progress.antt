-- ===== src/Messages/Progress.antt =====
-- The status of a message under `updateMessageStatus` never goes back.
use whatsapp_os.Prelude.{
  ℕ, ◌≡◌, refl, false, List, [], ◌∷◌, some, arith, find, Bool-cases, inl, inr, if◌then◌else◌, ◌∙◌,
}
use whatsapp_os.Prelude.Table.{find-update_many, find_holds}
use whatsapp_os.Messages.{
  MessageStatus, queued, sending, sent, delivered, seen, failed, received, status_rank, MessageRow,
  is_message, StatusOptions, status_data, is_held, update_message_status,
}

pub status_data-status :
    (status : MessageStatus) (options : StatusOptions) (now : ℕ) (row : MessageRow)
    → (status_data status options now row).status ≡ status
unfolding status_data
status_data-status queued options now row = refl
status_data-status sending options now row = refl
status_data-status sent options now row = refl
status_data-status delivered options now row = refl
status_data-status seen options now row = refl
status_data-status failed options now row = refl
status_data-status received options now row = refl

pub status_data-is_message :
    (status : MessageStatus) (options : StatusOptions) (now ws id : ℕ) (row : MessageRow)
    → is_message ws id (status_data status options now row) ≡ is_message ws id row
unfolding status_data
status_data-is_message queued options now ws id row = refl
status_data-is_message sending options now ws id row = refl
status_data-is_message sent options now ws id row = refl
status_data-is_message delivered options now ws id row = refl
status_data-is_message seen options now ws id row = refl
status_data-is_message failed options now ws id row = refl
status_data-is_message received options now ws id row = refl

-- One step of a message: it is sent, arrives and is read, or it is taken in; and it may fail at any
-- stage, also after it was read.
pub data Next : MessageStatus → MessageStatus → Type 0 where
  taken_up : Next queued sending
  passed_on : Next sending sent
  taken_in : Next sending received
  arrived : Next sent delivered
  answered_for : Next received delivered
  read_by : Next delivered seen
  broken : {old : MessageStatus} → Next old failed

pub data Advances (old : MessageStatus) : MessageStatus → Type 0 where
  unchanged : Advances old old
  on : {middle new : MessageStatus} → Advances old middle → Next middle new → Advances old new

Advances-trans : {a b c : MessageStatus} → Advances a b → Advances b c → Advances a c
Advances-trans first unchanged = first
Advances-trans first (on later step) = on (Advances-trans first later) step

-- What is not held back is some steps on.
free_is_advance : (old new : MessageStatus) → is_held old new ≡ false → Advances old new
unfolding status_rank is_held
free_is_advance queued queued free = cc
free_is_advance queued sending free = on unchanged taken_up
free_is_advance queued sent free = on (on unchanged taken_up) passed_on
free_is_advance queued delivered free = on (on (on unchanged taken_up) passed_on) arrived
free_is_advance queued seen free = on (on (on (on unchanged taken_up) passed_on) arrived) read_by
free_is_advance queued failed free = on unchanged broken
free_is_advance queued received free = on (on unchanged taken_up) taken_in
free_is_advance sending queued free = cc
free_is_advance sending sending free = cc
free_is_advance sending sent free = on unchanged passed_on
free_is_advance sending delivered free = on (on unchanged passed_on) arrived
free_is_advance sending seen free = on (on (on unchanged passed_on) arrived) read_by
free_is_advance sending failed free = on unchanged broken
free_is_advance sending received free = on unchanged taken_in
free_is_advance sent queued free = cc
free_is_advance sent sending free = cc
free_is_advance sent sent free = cc
free_is_advance sent delivered free = on unchanged arrived
free_is_advance sent seen free = on (on unchanged arrived) read_by
free_is_advance sent failed free = on unchanged broken
free_is_advance sent received free = cc
free_is_advance delivered queued free = cc
free_is_advance delivered sending free = cc
free_is_advance delivered sent free = cc
free_is_advance delivered delivered free = cc
free_is_advance delivered seen free = on unchanged read_by
free_is_advance delivered failed free = on unchanged broken
free_is_advance delivered received free = cc
free_is_advance seen queued free = cc
free_is_advance seen sending free = cc
free_is_advance seen sent free = cc
free_is_advance seen delivered free = cc
free_is_advance seen seen free = cc
free_is_advance seen failed free = on unchanged broken
free_is_advance seen received free = cc
free_is_advance failed queued free = cc
free_is_advance failed sending free = cc
free_is_advance failed sent free = cc
free_is_advance failed delivered free = cc
free_is_advance failed seen free = cc
free_is_advance failed failed free = unchanged
free_is_advance failed received free = cc
free_is_advance received queued free = cc
free_is_advance received sending free = cc
free_is_advance received sent free = cc
free_is_advance received delivered free = on unchanged answered_for
free_is_advance received seen free = on (on unchanged answered_for) read_by
free_is_advance received failed free = on unchanged broken
free_is_advance received received free = cc

pub record StatusUpdate : Type 0 where
  pub status : MessageStatus
  pub options : StatusOptions
  pub now : ℕ

module _ (ws id : ℕ) where
  abbrev pub after_updates : List StatusUpdate → List MessageRow → List MessageRow
  after_updates [] rows = rows
  after_updates (update ∷ updates) rows =
      after_updates updates
        (update_message_status ws id update.status update.options update.now rows).1

  -- The row that is found after one update: as it was, if the new status is held back, and else
  -- with the new status.
  pub find-update_message_status :
      (new : MessageStatus) (options : StatusOptions) (now : ℕ) (rows : List MessageRow)
      → (row : MessageRow) → find (is_message ws id) rows ≡ some row
      → find (is_message ws id) (update_message_status ws id new options now rows).1
        ≡ some (if is_held row.status new then row else status_data new options now row)
  unfolding update_message_status
  find-update_message_status new options now rows row found =
      elim (Bool-cases (is_held row.status new)) [
        | inl stays ↦ rw (update_message_status, found) (rw stays found)
        | inr moves ↦
            rw (update_message_status, found)
              (rw moves (
                find-update_many (is_message ws id) (is_message ws id) (status_data new options now)
                  rows (status_data-is_message new options now ws id)
                ∙ ground (arith, found, find_holds (is_message ws id) rows found)))
      ]

  advance_if :
      (new : MessageStatus) (options : StatusOptions) (now : ℕ) (row : MessageRow)
      → Advances row.status
          (if is_held row.status new then row else status_data new options now row).status
  advance_if new options now row = elim (Bool-cases (is_held row.status new)) [
    | inl held ↦ rw held unchanged
    | inr moves ↦
        rw moves
          (rw (status_data-status new options now row) (free_is_advance row.status new moves))
  ]

  -- Whatever statuses arrive for a message, in whatever order: the message is still there, and its
  -- status is as it was or some steps on, where a failure is a step from anywhere.
  pub after_updates_advance :
      (updates : List StatusUpdate) (rows : List MessageRow) (row : MessageRow)
      → find (is_message ws id) rows ≡ some row
      → (end : MessageRow) × (find (is_message ws id) (after_updates updates rows) ≡ some end)
        × Advances row.status end.status
  after_updates_advance [] rows row found = (row, found, unchanged)
  after_updates_advance (update ∷ updates) rows row found =
      let next =
        if is_held row.status update.status
        then row
        else status_data update.status update.options update.now row in
      let here =
        find-update_message_status update.status update.options update.now rows row found in
      let up = advance_if update.status update.options update.now row in
      let (end, reached, further) = after_updates_advance updates _ next here in
      (end, reached, Advances-trans up further)
