-- ===== src/Knowledge/Cuts.antt =====
-- The ladder of separators, and the cut that it finds for a piece.
pub mod Closest
use whatsapp_os.Prelude.{
  ℕ, zero, suc, ◌+◌, ◌-◌, min, Bool, true, false, not, ◌&&◌, ◌||◌, List, [], ◌∷◌, Option, none,
  some, length, leb, ltb, ◌==◌, if◌then◌else◌,
}
use whatsapp_os.Knowledge.{Text, Unicode, Budget, unit_at, unit_before, passes}
use whatsapp_os.Knowledge.Boundary.{is_safe_boundary}

abbrev pub CutTest : Type 0
CutTest = Text → ℕ → Bool

abbrev pub is_line_feed : ℕ → Bool
is_line_feed c = c == 10

-- A full stop, a question mark, an exclamation mark, and the Urdu full stop and question mark.
abbrev pub is_sentence_ender : ℕ → Bool
is_sentence_ender c = c == 46 || (c == 63 || (c == 33 || (c == 0x06d4 || c == 0x061f)))

unfoldable pub is_paragraph_cut : CutTest
is_paragraph_cut text index =
    passes is_line_feed (unit_at text index) && passes is_line_feed (unit_at text (suc index))

unfoldable pub is_line_cut : CutTest
is_line_cut text index = passes is_line_feed (unit_at text index)

-- The best candidate so far, and how far it is from the target.
pub record Candidate : Type 0 where
  pub index : ℕ
  pub distance : ℕ

-- `Math.abs(index - target)`
abbrev pub distance_to : ℕ → ℕ → ℕ
distance_to target index = (index - target) + (target - index)

-- `distance <= bestDistance`, which is infinite before there is one.
abbrev pub is_no_further : ℕ → Option Candidate → Bool
is_no_further distance none = true
is_no_further distance (some best) = leb distance best.distance

module _ (unicode : Unicode) where
  unfoldable pub is_sentence_cut : CutTest
  is_sentence_cut text index =
      passes is_sentence_ender (unit_before text index)
      && passes unicode.is_space (unit_at text index)

  unfoldable pub is_word_cut : CutTest
  is_word_cut text index =
      passes unicode.is_space (unit_before text index)
      && passes (λ c. not (unicode.is_space c)) (unit_at text index)

  unfoldable pub separator_ladder : List CutTest
  separator_ladder = is_paragraph_cut ∷ is_line_cut ∷ is_sentence_cut ∷ is_word_cut ∷ []

  -- One round at each index from the lowest to the highest.
  unfoldable pub best_from : CutTest → Text → ℕ → ℕ → ℕ → Option Candidate → Option Candidate
  best_from test text target zero index best = best
  best_from test text target (suc rounds) index best =
      let distance = distance_to target index in
      best_from test text target rounds (suc index) (
        if (test text index && is_safe_boundary unicode text index) && is_no_further distance best
        then some (record { index = index; distance = distance })
        else best)

  unfoldable pub first_rung : List CutTest → Text → ℕ → ℕ → ℕ → Option ℕ
  first_rung [] text target rounds lowest = none
  first_rung (test ∷ tests) text target rounds lowest =
      elim (best_from test text target rounds lowest none) [
        | none ↦ first_rung tests text target rounds lowest
        | some best ↦ some best.index
      ]

  unfoldable pub find_cut : Text → Budget → ℕ → Option ℕ
  find_cut text budget start =
      let lowest = start + budget.min_chars in
      let highest = min (start + budget.max_chars) (length text) in
      first_rung separator_ladder text (start + budget.target_chars) (highest + 1 - lowest) lowest
