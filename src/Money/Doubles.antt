-- ===== src/Money/Doubles.antt =====
-- Rounding in doubles, for lib/money.ts and server/domain/order-totals.ts.
use native.Mathlib.Nat.{div-lt_iff_lt-mul, le-div_iff_mul-le, mul-le-mul_left, mul-le-mul_right}
use whatsapp_os.Prelude.{
  ℕ, zero, suc, ◌+◌, ◌-◌, ◌*◌, ◌/◌, ◌^◌, ◌==◌, ◌≤◌, ◌≡◌, true, Bool-cases, inl, inr, arith, ltb,
  leb, if◌then◌else◌,
}
use whatsapp_os.Prelude.Int.{ℤ, pos, negsuc, magnitude, ◌*ℤ◌, ◌≤ℤ◌}
use whatsapp_os.Money.{
  round_scaled, round_half_even, spacing, resolution, rounded_quotient, double_product,
}

abbrev rounded : ℕ → ℕ → ℕ → ℕ
rounded q rest d =
    if ltb (2 * rest) d then q else if ltb d (2 * rest) then q + 1 else 2 * ((q + 1) / 2)

rounded_le : (q rest d : ℕ) → rounded q rest d ≤ q + 1
rounded_le q rest d = ground arith

rounded_exact : (q d : ℕ) → 1 ≤ d → rounded q 0 d ≡ q
rounded_exact q d h = ground arith

twice_below : (unit n : ℕ) → leb (2 ^ 53 * unit) n ≡ true → 2 * unit ≤ n
twice_below unit n h = ground arith

spacing_le : (rounds unit n : ℕ) → unit ≤ n → spacing rounds unit n ≤ n
spacing_le zero unit n h = h
spacing_le (suc rounds) unit n h = elim (Bool-cases (leb (2 ^ 53 * unit) n)) [
  | inl more ↦ rw (spacing, more) (spacing_le rounds (2 * unit) n (twice_below unit n more))
  | inr enough ↦ rw (spacing, enough) h
]

spacing_pos : (rounds unit n : ℕ) → 1 ≤ unit → 1 ≤ spacing rounds unit n
spacing_pos zero unit n h = h
spacing_pos (suc rounds) unit n h = elim (Bool-cases (leb (2 ^ 53 * unit) n)) [
  | inl more ↦ rw (spacing, more) (spacing_pos rounds (2 * unit) n (omega arith))
  | inr enough ↦ rw (spacing, enough) h
]

resolution_pos : (rounds scale n d : ℕ) → 1 ≤ scale → 1 ≤ resolution rounds scale n d
resolution_pos zero scale n d h = h
resolution_pos (suc rounds) scale n d h = elim (Bool-cases (ltb (n * (2 * scale)) (2 ^ 53 * d))) [
  | inl more ↦ rw (resolution, more) (resolution_pos rounds (2 * scale) n d (omega arith))
  | inr enough ↦ rw (resolution, enough) h
]

quotient_le : (n d k : ℕ) → 1 ≤ d → n ≤ k * d → n / d ≤ k
quotient_le n d k h e =
    let below = (div-lt_iff_lt-mul {k = d} {x = n} {y = k + 1} (omega arith)).1 (omega arith) in
    omega arith

quotient-times_le : (n d : ℕ) → 1 ≤ d → n / d * d ≤ n
quotient-times_le n d h =
    (le-div_iff_mul-le {k = d} {x = n / d} {y = n} (omega arith)).0 (omega arith)

rounded_within : (q rest d k : ℕ) → 1 ≤ d → q ≤ k → (q ≡ k → rest ≡ 0) → rounded q rest d ≤ k
rounded_within q rest d k h within none_left = elim (Bool-cases (q == k)) [
  | inl same ↦ let e : q ≡ k = ground arith in rw (none_left e) (rw (rounded_exact q d h) within)
  | inr other ↦ let below : q + 1 ≤ k = ground arith in omega (arith, rounded_le q rest d)
]

nothing_left : (n d k q : ℕ) → n ≤ k * d → q ≡ k → n - q * d ≡ 0
nothing_left n d k q h e = rw e (omega arith)

-- What rounds is not above a whole bound.
round_half_even_le : (n d k : ℕ) → 1 ≤ d → n ≤ k * d → round_half_even n d ≤ k
round_half_even_le n d k h e =
    rounded_within (n / d) (n - n / d * d) d k h (quotient_le n d k h e)
      (nothing_left n d k (n / d) e)

round_half_even_twice : (n d : ℕ) → 1 ≤ d → d ≤ n → round_half_even n d * d ≤ 2 * n
round_half_even_twice n d h e =
    let above = mul-le-mul_right d (rounded_le (n / d) (n - n / d * d) d) in
    let whole = quotient-times_le n d h in omega arith

double_le : (rounds n : ℕ) → round_half_even n (spacing rounds 1 n) * spacing rounds 1 n ≤ 2 * n
double_le rounds zero =
    let unit = spacing rounds 1 0 in
    let none_left =
      round_half_even_le 0 unit 0 (spacing_pos rounds 1 0 (omega arith)) (omega arith) in
    let times = mul-le-mul_right unit none_left in omega arith
double_le rounds (suc n) =
    round_half_even_twice (suc n) (spacing rounds 1 (suc n))
      (spacing_pos rounds 1 (suc n) (omega arith)) (spacing_le rounds 1 (suc n) (omega arith))

double_product_le : (n : ℕ) → double_product n ≤ 2 * n
unfolding double_product
double_product_le n = double_le 971 n

scaled_le : (n s d b : ℕ) → 1 ≤ d → n ≤ b * d → round_half_even (n * s) d ≤ b * s
scaled_le n s d b h e =
    let larger = mul-le-mul_right s e in round_half_even_le (n * s) d (b * s) h (omega arith)

rounded_scaled_le :
    (n s d b : ℕ) → 1 ≤ s → 1 ≤ d → n ≤ b * d → (2 * round_half_even (n * s) d + s) / (2 * s) ≤ b
rounded_scaled_le n s d b k h e =
    let within = scaled_le n s d b h e in
    let below =
      (div-lt_iff_lt-mul {k = 2 * s} {x = 2 * round_half_even (n * s) d + s} {y = b + 1}
          (omega arith)).1
        (omega arith) in
    omega arith

-- A quotient that is not above a whole number does not round above it.
rounded_quotient_le : (n d b : ℕ) → 1 ≤ d → n ≤ b * d → rounded_quotient n d ≤ b
unfolding rounded_quotient
rounded_quotient_le n d b h e =
    rounded_scaled_le n (resolution 53 1 n d) d b (resolution_pos 53 1 n d (omega arith)) h e

-- A tax contained in `b` at `r` basis points, rounded, is not above `b`.
contained_le :
    (b r d : ℕ) → d ≡ 10000 + r → r ≤ 10000 → rounded_quotient (double_product (b * r)) d ≤ b
contained_le b r d e h =
    let product = mul-le-mul_left b h in
    let divisor : 2 * (b * r) ≤ b * d = rw e (omega arith) in
    rounded_quotient_le (double_product (b * r)) d b (omega arith)
      (omega (arith, double_product_le (b * r)))

pos-*ℤ : (a b : ℕ) → pos a *ℤ pos b ≡ pos (a * b)
unfolding ◌*ℤ◌
pos-*ℤ a b = ground arith

pub round_scaled_contained :
    (b r : ℤ)
    → pos 0 ≤ℤ b
    → pos 0 ≤ℤ r
    → magnitude r ≤ 10000
    → let t = round_scaled (b *ℤ r) (10000 + magnitude r) in (pos 0 ≤ℤ t) × (t ≤ℤ b)
unfolding round_scaled
round_scaled_contained (pos b) (pos r) h k l = rw (pos-*ℤ b r) (
  omega arith,
  omega (arith, contained_le b r (10000 + magnitude (pos r)) (omega arith) (omega arith)),
)
round_scaled_contained a (negsuc b) h k l = absurd (omega arith)
round_scaled_contained (negsuc a) b h k l = absurd (omega arith)
