-- ===== src/Knowledge/Chunker/Pieces.antt =====
-- The pieces of a source: chunking ends, and what it gives when it accepts the source.
use whatsapp_os.Prelude.{ℕ, ◌+◌, ◌-◌, ◌≤◌, ◌<◌, ◌⊎◌, List, [], ◌∷◌, length}
use whatsapp_os.Knowledge.{Text, Unicode, ChunkSource}
use whatsapp_os.Knowledge.Boundary.Nearest.{IsSolid}

abbrev pub All : (Text → Type 0) → List Text → Type 0
All P [] = Unit {0}
All P (piece ∷ pieces) = P piece × All P pieces

module _ (unicode : Unicode) where
  -- A piece with text that is within a limit, unless no position of that length of the source may be
  -- cut.
  abbrev pub IsSized : Text → ℕ → ℕ → Text → Type 0
  IsSized source window limit piece =
      (0 < length piece)
      × ((length piece ≤ limit)
          ⊎ ((start : ℕ) × IsSolid unicode source (start + 1) (start + window)))

  -- The text that is cut, the ceiling of its pieces, and the bound on a question.
  abbrev pub body : ChunkSource → Text
  body (ChunkSource.text content) = content
  body (ChunkSource.faq question answer) = answer

  abbrev pub window : ChunkSource → ℕ
  window (ChunkSource.text content) = 1200
  window (ChunkSource.faq question answer) = 1193 - length question

  abbrev pub IsAccepted : ChunkSource → Type 0
  IsAccepted (ChunkSource.text content) = Unit {0}
  IsAccepted (ChunkSource.faq question answer) = length question ≤ 500
