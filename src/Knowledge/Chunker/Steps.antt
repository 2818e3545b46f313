-- ===== src/Knowledge/Chunker/Steps.antt =====
-- The two ends of a piece: where it is cut, where the next one begins, and where the last one does.
use whatsapp_os.Prelude.{
  ℕ, zero, suc, ◌+◌, ◌-◌, ◌≤◌, ◌<◌, ◌≡◌, min, max, true, ◌⊎◌, inl, inr, some, length, leb, arith,
  Bool-cases, Option-cases,
}
use whatsapp_os.Knowledge.{Text, Unicode, Budget}
use whatsapp_os.Knowledge.Boundary.{is_safe_boundary, safe_boundary}
use whatsapp_os.Knowledge.Boundary.Nearest.{IsSolid, safe_boundary_lem, safe_boundary_least}
use whatsapp_os.Knowledge.Cuts.{find_cut}
use whatsapp_os.Knowledge.Cuts.Closest.{find_cut_window}
use whatsapp_os.Knowledge.Chunker.{word_after, word_before, next_start, final_start, end_of}

-- A budget with which the walk advances.
pub record IsSound (budget : Budget) : Type 0 where
  pub advances : 0 < budget.min_chars
  pub fits : budget.min_chars ≤ budget.max_chars

module _ (unicode : Unicode) (text : Text) where
  word_after_lem :
      (rounds index word : ℕ)
      → word_after unicode text rounds index ≡ some word
      → (index ≤ word) × (word < rounds + index) × (is_safe_boundary unicode text word ≡ true)
  unfolding word_after
  word_after_lem zero index word found = cc
  word_after_lem (suc rounds) index word found =
      ground (arith, word_after_lem rounds (suc index) word)

  word_before_lem :
      (floor index word : ℕ)
      → word_before unicode text floor index ≡ some word
      → (floor < word) × (word ≤ index) × (is_safe_boundary unicode text word ≡ true)
  unfolding word_before
  word_before_lem floor zero word found = cc
  word_before_lem floor (suc index) word found = ground (arith, word_before_lem floor index word)

  module _ (budget : Budget) (sound : IsSound budget) where
    pub end_of_lem :
        (start : ℕ)
        → start + budget.max_chars < length text
        → (start < end_of unicode text budget start)
          × (end_of unicode text budget start ≤ length text)
          × (is_safe_boundary unicode text (end_of unicode text budget start) ≡ true)
          × ((end_of unicode text budget start ≤ start + budget.max_chars)
              ⊎ IsSolid unicode text (start + 1) (start + budget.max_chars))
    unfolding end_of
    end_of_lem start more =
        let advances = sound.advances in
        let fits = sound.fits in
        let (safe, low, high, near) =
          safe_boundary_lem unicode text (start + budget.max_chars) (start + 1) (omega arith)
            (omega arith) in
        elim (Option-cases (find_cut unicode text budget start)) [
          | inl nothing ↦ rw nothing ((omega arith, high, safe, near))
          | inr (cut, found) ↦
              let (above, below, whole) =
                find_cut_window unicode text budget start cut (omega arith) found in
              rw found ((omega arith, omega arith, whole, inl (omega arith)))
        ]

    pub next_start_lem :
        (start end : ℕ)
        → start < end
        → end ≤ length text
        → is_safe_boundary unicode text end ≡ true
        → (start < next_start unicode text budget start end)
          × (next_start unicode text budget start end ≤ end)
          × (is_safe_boundary unicode text (next_start unicode text budget start end) ≡ true)
    unfolding next_start
    next_start_lem start end ahead inside safe_end =
        let advances = sound.advances in
        let floor = start + min budget.min_chars (end - start) in
        let desired = max (end - budget.overlap_chars) floor in
        elim (Bool-cases (leb end desired)) [
          | inl past ↦ rw past ((ahead, omega arith, safe_end))
          | inr before ↦
              let room : desired < end = ground arith in
              rw before (elim (Option-cases (word_after unicode text (end - desired) desired)) [
                | inr (word, found) ↦
                    let (above, below, safe) = word_after_lem (end - desired) desired word found in
                    rw found ((omega arith, omega arith, safe))
                | inl nothing ↦
                    let (safe, low, high, near) =
                      safe_boundary_lem unicode text desired floor (omega arith) (omega arith) in
                    let least =
                      safe_boundary_least unicode text desired floor end (omega arith) (omega arith)
                        (omega arith) safe_end in
                    let same : min (safe_boundary unicode text desired floor) end
                        ≡ safe_boundary unicode text desired floor =
                      omega arith in
                    rw nothing (rw same ((omega arith, least, safe)))
              ])
        ]

    pub final_start_lem :
        (start : ℕ)
        → start < length text
        → budget.max_chars < length text
        → is_safe_boundary unicode text start ≡ true
        → (final_start unicode text budget start ≤ start)
          × (is_safe_boundary unicode text (final_start unicode text budget start) ≡ true)
          × (length text - final_start unicode text budget start
              ≤ max (length text - start) (budget.min_chars + budget.min_chars))
    unfolding final_start
    final_start_lem start inside long safe_start =
        let advances = sound.advances in
        let fits = sound.fits in
        let wanted = length text - budget.min_chars in
        let floor = length text - (budget.min_chars + budget.min_chars) in
        elim (Bool-cases (leb budget.min_chars (length text - start))) [
          | inl enough ↦ rw enough ((omega arith, safe_start, omega arith))
          | inr few ↦
              let short : length text - start < budget.min_chars = ground arith in
              rw few (elim (Option-cases (word_before unicode text floor wanted)) [
                | inr (word, found) ↦
                    let (above, below, safe) = word_before_lem floor wanted word found in
                    rw found ((omega arith, safe, omega arith))
                | inl nothing ↦
                    let (safe, low, high, near) =
                      safe_boundary_lem unicode text wanted floor (omega arith) (omega arith) in
                    let least =
                      safe_boundary_least unicode text wanted floor start (omega arith)
                        (omega arith) (omega arith) safe_start in
                    rw nothing ((least, safe, omega arith))
              ])
        ]
