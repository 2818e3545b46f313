-- ===== src/Knowledge/Chunker/Walk.antt =====
-- The walk over a source: it ends, and its spans cover the source without splitting a character.
use whatsapp_os.Prelude.{
  ℕ, zero, suc, ◌+◌, ◌-◌, ◌≤◌, ◌<◌, ◌≡◌, refl, max, true, ◌⊎◌, inl, inr, List, [], ◌∷◌, some,
  length, leb, ◌==◌, arith, Bool-cases,
}
use whatsapp_os.Knowledge.{Text, Unicode, Budget, Span}
use whatsapp_os.Knowledge.Boundary.{is_safe_boundary}
use whatsapp_os.Knowledge.Boundary.Nearest.{IsSolid, safe_at_end, safe_at_start}
use whatsapp_os.Knowledge.Chunker.{next_start, final_start, end_of, cut_from, cut_spans}
use whatsapp_os.Knowledge.Chunker.Steps.{IsSound, end_of_lem, next_start_lem, final_start_lem}

module _ (unicode : Unicode) (text : Text) (budget : Budget) where
  -- The ceiling, which the last piece may pass only if it is below twice the minimum.
  abbrev pub ceiling : ℕ
  ceiling = max budget.max_chars (budget.min_chars + budget.min_chars)

  -- A piece of the text that starts and ends between characters. It is longer than the ceiling only
  -- where no position of the ceiling's length lies between characters.
  pub record IsPiece (span : Span) : Type 0 where
    pub has_text : span.start < span.end
    pub inside : span.end ≤ length text
    pub safe_start : is_safe_boundary unicode text span.start ≡ true
    pub safe_end : is_safe_boundary unicode text span.end ≡ true
    pub sized :
        (span.end ≤ span.start + ceiling)
        ⊎ IsSolid unicode text (span.start + 1) (span.start + budget.max_chars)

  -- Each piece starts no later than the one before it ends, and the last one ends the text.
  abbrev pub IsWalk : ℕ → List Span → Type 0
  IsWalk reached [] = length text ≤ reached
  IsWalk reached (span ∷ spans) = (span.start ≤ reached) × IsPiece span × IsWalk span.end spans

  module _ (sound : IsSound budget) (long : budget.max_chars < length text) where
    cut_from-IsWalk :
        (rounds start reached : ℕ)
        → start ≤ length text
        → start ≤ reached
        → is_safe_boundary unicode text start ≡ true
        → length text - start < rounds
        → (spans : List Span) × (cut_from unicode text budget rounds start ≡ some spans)
          × IsWalk reached spans
          × (length spans ≤ length text - start)
    unfolding cut_from
    cut_from-IsWalk zero start reached inside behind safe enough = absurd (omega arith)
    cut_from-IsWalk (suc rounds) start reached inside behind safe enough =
        elim (Bool-cases (leb (length text) start)) [
          | inl finished ↦ rw finished (([], refl, ground arith, omega arith))
          | inr going ↦
              let more : start < length text = ground arith in
              rw going (elim (Bool-cases (leb (length text - start) budget.max_chars)) [
                | inl last ↦
                    let advances = sound.advances in
                    let short : length text - start ≤ budget.max_chars = ground arith in
                    let (early, safe_final, sized) =
                      final_start_lem unicode text budget sound start more long safe in
                    rw last (
                      (
                        record { start = final_start unicode text budget start; end = length text }
                            ∷ [],
                        refl,
                        (
                          omega arith,
                          record {
                            has_text = omega arith;
                            inside = omega arith;
                            safe_start = safe_final;
                            safe_end = safe_at_end unicode text (length text) (omega arith);
                            sized = inl (omega arith);
                          },
                          omega arith,
                        ),
                        omega arith,
                      ))
                | inr further ↦
                    let far : start + budget.max_chars < length text = ground arith in
                    let (ahead, within, safe_end, sized) =
                      end_of_lem unicode text budget sound start far in
                    let end = end_of unicode text budget start in
                    let (later, behind', safe_next) =
                      next_start_lem unicode text budget sound start end ahead within safe_end in
                    let (spans, run, walk, few) =
                      cut_from-IsWalk rounds (next_start unicode text budget start end) end
                        (omega arith) behind' safe_next (omega arith) in
                    rw (further, run)
                      ((
                        record { start = start; end = end } ∷ spans,
                        refl,
                        (
                          behind,
                          record {
                            has_text = ahead;
                            inside = within;
                            safe_start = safe;
                            safe_end = safe_end;
                            sized = elim sized [
                              | inl small ↦ inl (omega arith)
                              | inr solid ↦ inr solid
                            ];
                          },
                          walk,
                        ),
                        omega arith,
                      ))
              ])
        ]

  -- Cutting a text ends, with no more pieces than there are code units. The pieces cover the text from
  -- its start to its end, each beginning no later than the one before it ends; none splits a
  -- character; and none is longer than the ceiling, unless no position of that length may be cut.
  pub cut_spans-IsWalk :
      IsSound budget
      → (spans : List Span) × (cut_spans unicode text budget ≡ some spans)
        × IsWalk 0 spans
        × (length spans ≤ length text)
  unfolding cut_spans
  cut_spans-IsWalk sound = elim (Bool-cases (length text == 0)) [
    | inl empty ↦ rw empty (([], refl, ground arith, omega arith))
    | inr full ↦
        let has_text : 0 < length text = ground arith in
        rw full (elim (Bool-cases (leb (length text) budget.max_chars)) [
          | inl fits ↦
              let small : length text ≤ budget.max_chars = ground arith in
              rw fits (
                (
                  record { start = 0; end = length text } ∷ [],
                  refl,
                  (
                    omega arith,
                    record {
                      has_text = has_text;
                      inside = omega arith;
                      safe_start = safe_at_start unicode text;
                      safe_end = safe_at_end unicode text (length text) (omega arith);
                      sized = inl (omega arith);
                    },
                    omega arith,
                  ),
                  has_text,
                ))
          | inr long ↦
              let far : budget.max_chars < length text = ground arith in
              let (spans, run, walk, few) =
                cut_from-IsWalk sound far (suc (length text)) 0 0 (omega arith) (omega arith)
                  (safe_at_start unicode text) (omega arith) in
              rw long ((spans, run, walk, omega arith))
        ])
  ]
