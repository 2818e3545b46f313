-- ===== src/Knowledge/Boundary.antt =====
-- Boundaries at which no character is split, and the nearest one to a position.
pub mod Nearest
use whatsapp_os.Prelude.{
  ℕ, zero, suc, ◌+◌, ◌-◌, ◌%◌, min, Bool, true, false, not, ◌&&◌, ◌||◌, Option, none, some, length,
  leb, ltb, ◌==◌, if◌then◌else◌,
}
use whatsapp_os.Knowledge.{
  Text, Unicode, unit_at, unit_before, passes, is_in_range, is_leading, is_trailing,
  code_point_before, code_point_at,
}

abbrev pub is_indicator : ℕ → Bool
is_indicator = is_in_range 0x1f1e6 0x1f1ff

-- The regional indicators right before `scan`, which moves back by two for each.
unfoldable pub indicators_before : Text → ℕ → ℕ
indicators_before text zero = zero
indicators_before text (suc zero) =
    if passes is_indicator (code_point_before text (suc zero)) then 1 else 0
indicators_before text (suc (suc scan)) =
    let before = suc (indicators_before text scan) in
    if passes is_indicator (code_point_before text (suc (suc scan))) then before else 0

unfoldable pub splits_flag : Text → ℕ → ℕ → Bool
splits_flag text index following =
    if is_indicator following then indicators_before text index % 2 == 1 else false

module _ (unicode : Unicode) where
  -- What joins a code point to the one before it.
  abbrev pub joins : ℕ → ℕ → Bool
  joins preceding following =
      unicode.is_mark following
      || ((following == 0x200d || preceding == 0x200d)
          || ((following == 0x200c || preceding == 0x200c)
              || is_in_range 0x1f3fb 0x1f3ff following))

  unfoldable pub is_safe_boundary : Text → ℕ → Bool
  is_safe_boundary text index =
      if index == 0 || leb (length text) index
      then true
      else if passes is_leading (unit_before text index) && passes is_trailing (unit_at text index)
      then false
      else elim (code_point_at text index) [
        | none ↦ true
        | some following ↦ elim (code_point_before text index) [
          | none ↦ true
          | some preceding ↦
              if joins preceding following then false else not (splits_flag text index following)
        ]
      ]

  -- `while (candidate > floor && !isSafeBoundary(text, candidate)) candidate -= 1`
  unfoldable pub last_safe : Text → ℕ → ℕ → ℕ
  last_safe text floor zero = zero
  last_safe text floor (suc candidate) =
      let further = last_safe text floor candidate in
      if ltb floor (suc candidate) && not (is_safe_boundary text (suc candidate))
      then further
      else suc candidate

  -- `while (forward < text.length && !isSafeBoundary(text, forward)) forward += 1`, which has as many
  -- rounds as there are positions up to the end.
  unfoldable pub first_safe : Text → ℕ → ℕ → ℕ
  first_safe text zero forward = forward
  first_safe text (suc rounds) forward =
      let further = first_safe text rounds (suc forward) in
      if not (is_safe_boundary text forward) then further else forward

  unfoldable pub safe_boundary : Text → ℕ → ℕ → ℕ
  safe_boundary text index floor =
      let candidate = last_safe text floor (min index (length text)) in
      if is_safe_boundary text candidate
      then candidate
      else first_safe text (length text - index) index
