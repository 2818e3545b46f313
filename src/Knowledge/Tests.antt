-- ===== src/Knowledge/Tests.antt =====
-- Short texts cut under small budgets, and the theorems at concrete sources.
use whatsapp_os.Prelude.{
  ℕ, zero, suc, ◌+◌, ◌≤◌, ◌≡◌, refl, min, ◌&&◌, ◌||◌, List, [], ◌∷◌, ◌++◌, some, length, leb, ◌==◌,
  arith,
}
use whatsapp_os.Knowledge.{
  Text, Unicode, Budget, Span, ChunkSource, code_point_before, code_point_at,
}
use whatsapp_os.Knowledge.Boundary.{
  indicators_before, splits_flag, is_safe_boundary, last_safe, first_safe, safe_boundary,
}
use whatsapp_os.Knowledge.Cuts.{
  is_paragraph_cut, is_line_cut, is_sentence_cut, is_word_cut, separator_ladder, best_from,
  first_rung, find_cut,
}
use whatsapp_os.Knowledge.Cuts.Closest.{IsFound, find_cut-IsFound}
use whatsapp_os.Knowledge.Chunker.{
  word_after, word_before, next_start, final_start, end_of, cut_from, cut_spans,
}
use whatsapp_os.Knowledge.Chunker.Steps.{IsSound}
use whatsapp_os.Knowledge.Chunker.Walk.{IsWalk, cut_spans-IsWalk}

abbrev latin : Unicode
latin = record { is_mark = λ c. leb 0x300 c && leb c 0x36f; is_space = λ c. c == 32 || c == 10 }

abbrev small : Budget
small = record { target_chars = 12; max_chars = 16; overlap_chars = 6; min_chars = 2 }

abbrev repeated : ℕ → ℕ → Text
repeated zero c = []
repeated (suc n) c = c ∷ repeated n c

-- Three words, a blank line, and three words of eight letters.
abbrev paragraphs : Text
paragraphs =
    (repeated 4 97 ++ (32 ∷ (repeated 4 97 ++ (32 ∷ []))))
    ++ (repeated 3 97
        ++ (10 ∷ 10 ∷ (repeated 9 98 ++ (32 ∷ (repeated 9 98 ++ (32 ∷ repeated 9 98))))))

-- The first paragraph ends at 13. Its last three units are a piece again, and its last one with a
-- line feed is the piece after that.
paragraph_end_repeats :
    cut_spans latin paragraphs small
    ≡ some (
        record { start = 0; end = 13 }
        ∷ record { start = 10; end = 13 }
        ∷ record { start = 12; end = 14 }
        ∷ record { start = 14; end = 25 }
        ∷ record { start = 19; end = 35 }
        ∷ record { start = 29; end = 44 }
        ∷ [])
unfolding cut_spans cut_from end_of next_start final_start word_after word_before find_cut
    first_rung best_from separator_ladder is_paragraph_cut is_line_cut is_sentence_cut is_word_cut
    safe_boundary last_safe first_safe is_safe_boundary splits_flag indicators_before
    code_point_before code_point_at
paragraph_end_repeats = refl

small-IsSound : IsSound small
small-IsSound = record { advances = omega arith; fits = omega arith }

cut_spans-IsWalk_example :
    (spans : List Span) × (cut_spans latin paragraphs small ≡ some spans)
    × IsWalk latin paragraphs small 0 spans
    × (length spans ≤ length paragraphs)
cut_spans-IsWalk_example = cut_spans-IsWalk latin paragraphs small small-IsSound

find_cut-IsFound_example :
    IsFound latin paragraphs
      (separator_ladder latin)
      (10 + 12)
      (10 + 2)
      (min (10 + 16) (length paragraphs))
      (find_cut latin paragraphs small 10)
find_cut-IsFound_example = find_cut-IsFound latin paragraphs small 10 (omega arith)

-- "aaa…" cannot be cut at a word.
abbrev unspaced : ChunkSource
unspaced = ChunkSource.faq (repeated 20 113) (repeated 1300 97)
