-- ===== src/Knowledge/Boundary/Nearest.antt =====
-- Where the nearest safe boundary lies.
use whatsapp_os.Prelude.{
  ℕ, zero, suc, ◌+◌, ◌-◌, ◌≤◌, ◌≡◌, refl, min, true, false, ◌||◌, ◌⊎◌, inl, inr, length, leb, ltb,
  ◌==◌, arith, Bool-cases, ap, sym, ◌∙◌,
}
use whatsapp_os.Knowledge.{Text, Unicode}
use whatsapp_os.Knowledge.Boundary.{is_safe_boundary, last_safe, first_safe, safe_boundary}

-- Whether no position of a range is a boundary.
abbrev pub IsSolid : Unicode → Text → ℕ → ℕ → Type 0
IsSolid unicode text from to =
    (index : ℕ) → from ≤ index → index ≤ to → is_safe_boundary unicode text index ≡ false

module _ (unicode : Unicode) (text : Text) where
  pub safe_at_end : (index : ℕ) → length text ≤ index → is_safe_boundary unicode text index ≡ true
  unfolding is_safe_boundary
  safe_at_end index past =
      let reached : leb (length text) index ≡ true = ground arith in
      let some_end : (index == 0 || leb (length text) index) ≡ true = ground arith in
      rw some_end refl

  pub safe_at_start : is_safe_boundary unicode text 0 ≡ true
  unfolding is_safe_boundary
  safe_at_start = refl

  last_safe_bounds :
      (floor candidate : ℕ)
      → floor ≤ candidate
      → (floor ≤ last_safe unicode text floor candidate)
        × (last_safe unicode text floor candidate ≤ candidate)
  unfolding last_safe
  last_safe_bounds floor zero low = ground arith
  last_safe_bounds floor (suc candidate) low = ground (arith, last_safe_bounds floor candidate)

  -- If it is no boundary, there is none down to the floor.
  last_safe-IsSolid :
      (floor candidate : ℕ)
      → is_safe_boundary unicode text (last_safe unicode text floor candidate) ≡ false
      → IsSolid unicode text floor candidate
  unfolding last_safe
  last_safe-IsSolid floor zero bad index low high =
      let here : index ≡ 0 = omega arith in rw here bad
  last_safe-IsSolid floor (suc candidate) bad index low high =
      elim (Bool-cases (is_safe_boundary unicode text (suc candidate))) [
        | inl safe ↦ ground (arith, safe, bad)
        | inr unsafe ↦ elim (Bool-cases (index == suc candidate)) [
          | inl same ↦ let here : index ≡ suc candidate = ground arith in rw here unsafe
          | inr other ↦
              let below : index ≤ candidate = ground arith in
              let more : ltb floor (suc candidate) ≡ true = ground arith in
              let further : last_safe unicode text floor (suc candidate)
                  ≡ last_safe unicode text floor candidate =
                rw (last_safe, more, unsafe) refl in
              last_safe-IsSolid floor candidate
                (ap (is_safe_boundary unicode text) (sym further) ∙ bad) index low below
        ]
      ]

  first_safe_lem :
      (rounds forward : ℕ)
      → length text ≤ rounds + forward
      → (is_safe_boundary unicode text (first_safe unicode text rounds forward) ≡ true)
        × (forward ≤ first_safe unicode text rounds forward)
        × (first_safe unicode text rounds forward ≤ rounds + forward)
  unfolding first_safe
  first_safe_lem zero forward enough = (safe_at_end forward (omega arith), omega arith, omega arith)
  first_safe_lem (suc rounds) forward enough = ground (arith, first_safe_lem rounds (suc forward))

  -- No boundary is passed on the way.
  first_safe_least :
      (rounds forward boundary : ℕ)
      → length text ≤ rounds + forward
      → forward ≤ boundary
      → is_safe_boundary unicode text boundary ≡ true
      → first_safe unicode text rounds forward ≤ boundary
  unfolding first_safe
  first_safe_least zero forward boundary enough low safe = omega arith
  first_safe_least (suc rounds) forward boundary enough low safe =
      elim (Bool-cases (forward == boundary)) [
        | inl same ↦ let here : forward ≡ boundary = ground arith in rw here (ground (arith, safe))
        | inr other ↦ ground (arith, first_safe_least rounds (suc forward) boundary)
      ]

  -- It is a boundary of the text, at or above the floor and not behind a boundary at or behind the
  -- position that was asked for; and it is behind that position only if there is none from the floor on.
  pub safe_boundary_lem :
      (index floor : ℕ)
      → floor ≤ index
      → index ≤ length text
      → (is_safe_boundary unicode text (safe_boundary unicode text index floor) ≡ true)
        × (floor ≤ safe_boundary unicode text index floor)
        × (safe_boundary unicode text index floor ≤ length text)
        × ((safe_boundary unicode text index floor ≤ index) ⊎ IsSolid unicode text floor index)
  unfolding safe_boundary
  safe_boundary_lem index floor low high =
      let at_index : min index (length text) ≡ index = omega arith in
      let bounds = last_safe_bounds floor index low in
      let ahead = first_safe_lem (length text - index) index (omega arith) in
      rw at_index
        (elim (Bool-cases (is_safe_boundary unicode text (last_safe unicode text floor index))) [
          | inl safe ↦ rw safe ((safe, bounds.0, omega arith, inl (bounds.1)))
          | inr unsafe ↦
              rw unsafe
                ((ahead.0, omega arith, omega arith, inr (last_safe-IsSolid floor index unsafe)))
        ])

  pub safe_boundary_least :
      (index floor boundary : ℕ)
      → floor ≤ index
      → index ≤ length text
      → index ≤ boundary
      → is_safe_boundary unicode text boundary ≡ true
      → safe_boundary unicode text index floor ≤ boundary
  unfolding safe_boundary
  safe_boundary_least index floor boundary low high behind safe_there =
      let at_index : min index (length text) ≡ index = omega arith in
      let bounds = last_safe_bounds floor index low in
      let ahead =
        first_safe_least (length text - index) index boundary (omega arith) behind safe_there in
      rw at_index
        (elim (Bool-cases (is_safe_boundary unicode text (last_safe unicode text floor index))) [
          | inl safe ↦ rw safe (omega arith)
          | inr unsafe ↦ rw unsafe ahead
        ])
