-- ===== src/Knowledge.antt =====
-- server/services/knowledge/chunker.ts: cutting a document into the pieces that are embedded. A text
-- is the list of its code units; which code points are marks and which are white space is a parameter.
pub mod Boundary
pub mod Cuts
pub mod Chunker
mod Tests
use whatsapp_os.Prelude.{
  ℕ, zero, suc, ◌+◌, ◌-◌, ◌*◌, ◌/◌, Bool, true, false, ◌&&◌, ◌||◌, List, [], ◌∷◌, Option, none,
  some, length, leb, if◌then◌else◌,
}

abbrev pub Text : Type 0
Text = List ℕ

-- `\p{M}` and `\s`, as the runtime has them.
pub record Unicode : Type 0 where
  pub is_mark : ℕ → Bool
  pub is_space : ℕ → Bool

pub record Budget : Type 0 where
  pub target_chars : ℕ
  pub max_chars : ℕ
  pub overlap_chars : ℕ
  pub min_chars : ℕ

pub record Span : Type 0 where
  pub start : ℕ
  pub end : ℕ

pub record KnowledgeChunkDraft : Type 0 where
  pub position : ℕ
  pub content : Text
  pub token_count : ℕ

pub data KnowledgeFailure : Type 0 where
  content_empty : KnowledgeFailure
  content_too_large : KnowledgeFailure

-- `text[index]`
abbrev pub unit_at : Text → ℕ → Option ℕ
unit_at [] index = none
unit_at (c ∷ cs) zero = some c
unit_at (c ∷ cs) (suc index) = unit_at cs index

-- `text[index - 1]`
abbrev pub unit_before : Text → ℕ → Option ℕ
unit_before text zero = none
unit_before text (suc index) = unit_at text index

abbrev pub passes : (ℕ → Bool) → Option ℕ → Bool
passes test none = false
passes test (some c) = test c

abbrev pub is_in_range : ℕ → ℕ → ℕ → Bool
is_in_range first last code_point = leb first code_point && leb code_point last

abbrev pub is_leading : ℕ → Bool
is_leading = is_in_range 0xd800 0xdbff

abbrev pub is_trailing : ℕ → Bool
is_trailing = is_in_range 0xdc00 0xdfff

abbrev pub joined : ℕ → ℕ → ℕ
joined leading trailing = (leading - 0xd800) * 0x400 + (trailing - 0xdc00) + 0x10000

-- `charCodeAt` gives no number only past the end, where nothing asks.
unfoldable pub code_point_before : Text → ℕ → Option ℕ
code_point_before text index = elim (unit_before text index) [
  | none ↦ none
  | some trailing ↦ elim (unit_before text (index - 1)) [
    | none ↦ some trailing
    | some leading ↦
        if is_trailing trailing && is_leading leading
        then some (joined leading trailing)
        else some trailing
  ]
]

-- `text.codePointAt(index)`
unfoldable pub code_point_at : Text → ℕ → Option ℕ
code_point_at text index = elim (unit_at text index) [
  | none ↦ none
  | some leading ↦ elim (unit_at text (suc index)) [
    | none ↦ some leading
    | some trailing ↦
        if is_leading leading && is_trailing trailing
        then some (joined leading trailing)
        else some leading
  ]
]

-- `Math.ceil(text.length / APPROX_CHARS_PER_TOKEN)`
unfoldable pub estimate_tokens : Text → ℕ
estimate_tokens text = (length text + 3) / 4

pub data ChunkSource : Type 0 where
  text : Text → ChunkSource
  faq : Text → Text → ChunkSource
