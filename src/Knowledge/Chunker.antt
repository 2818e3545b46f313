-- ===== src/Knowledge/Chunker.antt =====
-- The walk over a source, and the pieces of the two kinds of source.
pub mod Steps
pub mod Walk
pub mod Pieces
use whatsapp_os.Prelude.{
  ℕ, zero, suc, ◌+◌, ◌-◌, ◌/◌, min, max, Bool, true, false, not, ◌&&◌, List, [], ◌∷◌, ◌++◌, Option,
  none, some, map, length, leb, ltb, ◌==◌, if◌then◌else◌, or_else,
}
use mathlib.Core.List.{reverse}
use whatsapp_os.Prelude.Result.{Result, ok, err, ◌>>=◌, ◌>>◌, throw_if}
use whatsapp_os.Knowledge.{
  Text, Unicode, Budget, Span, ChunkSource, KnowledgeChunkDraft, KnowledgeFailure, content_empty,
  content_too_large, estimate_tokens,
}
use whatsapp_os.Knowledge.Boundary.{is_safe_boundary, safe_boundary}
use whatsapp_os.Knowledge.Cuts.{is_word_cut, find_cut}

abbrev pub text_budget : Budget
text_budget = record { target_chars = 900; max_chars = 1200; overlap_chars = 150; min_chars = 80 }

-- "Q: ", the question, "\nA: " and the answer.
unfoldable pub faq_unit : Text → Text → Text
faq_unit question answer = 81 ∷ 58 ∷ 32 ∷ (question ++ (10 ∷ 65 ∷ 58 ∷ 32 ∷ answer))

-- The budget of an answer, each piece of which carries the question.
abbrev pub faq_budget : ℕ → Budget
faq_budget room = record {
  target_chars = room;
  max_chars = room;
  overlap_chars = min 150 (room / 2);
  min_chars = min 80 room;
}

abbrev pub slice_to : ℕ → Text → Text
slice_to zero text = []
slice_to (suc n) [] = []
slice_to (suc n) (c ∷ cs) = c ∷ slice_to n cs

abbrev pub slice_from : ℕ → Text → Text
slice_from zero text = text
slice_from (suc n) [] = []
slice_from (suc n) (c ∷ cs) = slice_from n cs

abbrev pub numbered : ℕ → List Text → List KnowledgeChunkDraft
numbered position [] = []
numbered position (piece ∷ pieces) =
    record { position = position; content = piece; token_count = estimate_tokens piece }
    ∷ numbered (suc position) pieces

module _ (unicode : Unicode) where
  abbrev pub is_word_start : Text → ℕ → Bool
  is_word_start text index = is_word_cut unicode text index && is_safe_boundary unicode text index

  -- The first word start of so many positions, and the last one above a floor.
  unfoldable pub word_after : Text → ℕ → ℕ → Option ℕ
  word_after text zero index = none
  word_after text (suc rounds) index =
      let further = word_after text rounds (suc index) in
      if is_word_start text index then some index else further

  unfoldable pub word_before : Text → ℕ → ℕ → Option ℕ
  word_before text floor zero = none
  word_before text floor (suc index) =
      let further = word_before text floor index in
      if ltb floor (suc index)
      then (if is_word_start text (suc index) then some (suc index) else further)
      else none

  unfoldable pub next_start : Text → Budget → ℕ → ℕ → ℕ
  next_start text budget start end =
      let floor = start + min budget.min_chars (end - start) in
      let desired = max (end - budget.overlap_chars) floor in
      if leb end desired then end else elim (word_after text (end - desired) desired) [
        | some index ↦ index
        | none ↦ min (safe_boundary unicode text desired floor) end
      ]

  -- Only of a text that is longer than the ceiling, and so than `min_chars`.
  unfoldable pub final_start : Text → Budget → ℕ → ℕ
  final_start text budget start =
      let wanted = length text - budget.min_chars in
      let floor = length text - (budget.min_chars + budget.min_chars) in
      if leb budget.min_chars (length text - start)
      then start
      else elim (word_before text floor wanted) [
        | some index ↦ index
        | none ↦ safe_boundary unicode text wanted floor
      ]

  unfoldable pub end_of : Text → Budget → ℕ → ℕ
  end_of text budget start =
      or_else (find_cut unicode text budget start)
        (safe_boundary unicode text (start + budget.max_chars) (start + 1))

  -- The loop; `none` is a loop that has not ended within its rounds.
  unfoldable pub cut_from : Text → Budget → ℕ → ℕ → Option (List Span)
  cut_from text budget zero start = none
  cut_from text budget (suc rounds) start =
      let end = end_of text budget start in
      let further = cut_from text budget rounds (next_start text budget start end) in
      if leb (length text) start
      then some []
      else if leb (length text - start) budget.max_chars
      then some (record { start = final_start text budget start; end = length text } ∷ [])
      else elim further [
        | none ↦ none
        | some spans ↦ some (record { start = start; end = end } ∷ spans)
      ]

  unfoldable pub cut_spans : Text → Budget → Option (List Span)
  cut_spans text budget =
      if length text == 0
      then some []
      else if leb (length text) budget.max_chars
      then some (record { start = 0; end = length text } ∷ [])
      else cut_from text budget (suc (length text)) 0

  -- `trim`
  abbrev pub trim_start : Text → Text
  trim_start [] = []
  trim_start (c ∷ cs) = if unicode.is_space c then trim_start cs else c ∷ cs

  unfoldable pub trim : Text → Text
  trim text = reverse (trim_start (reverse (trim_start text)))

  unfoldable pub slice_spans : Text → List Span → List Text
  slice_spans text [] = []
  slice_spans text (span ∷ spans) =
      let piece = trim (slice_to (span.end - span.start) (slice_from span.start text)) in
      let pieces = slice_spans text spans in if ltb 0 (length piece) then piece ∷ pieces else pieces

  unfoldable pub text_pieces : Text → Option (List Text)
  text_pieces content = elim (cut_spans content text_budget) [
    | none ↦ none
    | some spans ↦ some (slice_spans content spans)
  ]

  unfoldable pub faq_pieces : Text → Text → Option (Result KnowledgeFailure (List Text))
  faq_pieces question answer =
      let whole = faq_unit question answer in
      let taken = length (faq_unit question []) in
      if leb (length whole) 1200
      then some (ok (whole ∷ []))
      else if ltb 1200 (taken + 80)
      then some (err content_too_large)
      else elim (cut_spans answer (faq_budget (1200 - taken))) [
        | none ↦ none
        | some spans ↦ some (ok (map (faq_unit question) (slice_spans answer spans)))
      ]

  -- The refusals, and the positions.
  unfoldable pub drafts : List Text → Result KnowledgeFailure (List KnowledgeChunkDraft)
  drafts pieces = do
    throw_if (length pieces == 0) content_empty
    throw_if (ltb 400 (length pieces)) content_too_large
    ok (numbered 0 pieces)

  unfoldable pub chunk_knowledge_source :
      ChunkSource → Option (Result KnowledgeFailure (List KnowledgeChunkDraft))
  chunk_knowledge_source (ChunkSource.text content) = elim (text_pieces content) [
    | none ↦ none
    | some pieces ↦ some (drafts pieces)
  ]
  chunk_knowledge_source (ChunkSource.faq question answer) = elim (faq_pieces question answer) [
    | none ↦ none
    | some pieces ↦ some (pieces >>= drafts)
  ]
