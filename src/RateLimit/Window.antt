-- ===== src/RateLimit/Window.antt =====
-- How many attempts under one key a window lets through.
use Prim.Native.String.{String}
use text.Mathlib.TextEquality.{eq_iff}
use native.Mathlib.Nat.{div-mul-le_self, lt-div-mul-add}
use whatsapp_os.Prelude.{
  ℕ, zero, suc, ◌+◌, ◌-◌, ◌*◌, ◌/◌, ◌≤◌, ◌<◌, ◌≡◌, refl, ap, ◌∙◌, Bool, true, false, List, [], ◌∷◌,
  ◌++◌, Option, none, some, ◌⊎◌, inl, inr, arith, length, min, max, leb, ◌==◌, find, if◌then◌else◌,
  Bool-cases, Option-cases,
}
use whatsapp_os.Prelude.Table.{update_many, find_holds}
use whatsapp_os.RateLimit.{
  RateLimitRule, RateLimitDecision, Bucket, has_bucket_key, window_start, window_end, evaluate,
  next_bucket, increment_bucket, consume_key,
}

-- A moment lies in its window.
pub window_start_bounds :
    (now window_seconds start : ℕ)
    → window_start now window_seconds ≡ some start
    → (start ≤ now) × (now < start + window_seconds * 1000)
unfolding window_start
window_start_bounds now zero start h = cc
window_start_bounds now (suc w) start h =
    let low = div-mul-le_self now (suc w * 1000) in
    let positive : 0 < suc w * 1000 = omega arith in
    let high = lt-div-mul-add {a = now} positive in
    let positive_w : (suc w == 0) ≡ false = ground arith in
    let found : start ≡ now / (suc w * 1000) * (suc w * 1000) = ground (arith, positive_w) in
    rw found ((low, high))

find-append_new :
    (p : Bucket → Bool) (buckets : List Bucket) (new : Bucket)
    → find p buckets ≡ none
    → p new ≡ true
    → find p (buckets ++ (new ∷ [])) ≡ some new
find-append_new p [] new h g = ground arith
find-append_new p (bucket ∷ rest) new h g = ground (arith, find-append_new p rest new)

find-overwritten :
    (p : Bucket → Bool) (buckets : List Bucket) (new old : Bucket)
    → find p buckets ≡ some old
    → p new ≡ true
    → find p (update_many p (λ bucket. new) buckets) ≡ some new
find-overwritten p [] new old h g = cc
find-overwritten p (bucket ∷ rest) new old h g = ground (arith, find-overwritten p rest new old)

next_bucket_held :
    (key : String) (reset_at clock : ℕ) (old : Bucket)
    → has_bucket_key key old ≡ true
    → has_bucket_key key (next_bucket key reset_at clock (some old)) ≡ true
unfolding next_bucket
next_bucket_held key reset_at clock old held = elim (Bool-cases (leb old.reset_at clock)) [
  | inl elapsed ↦ rw (next_bucket, elapsed) held
  | inr current ↦ rw (next_bucket, current) held
]

increment_bucket_found :
    (key : String) (reset_at clock : ℕ) (buckets : List Bucket)
    → find (has_bucket_key key) (increment_bucket key reset_at clock buckets).1
      ≡ some (next_bucket key reset_at clock (find (has_bucket_key key) buckets))
unfolding increment_bucket next_bucket
increment_bucket_found key reset_at clock buckets =
    elim (Option-cases (find (has_bucket_key key) buckets)) [
      | inl missing ↦
          rw (increment_bucket, missing)
            (rw missing (find-append_new _ buckets _ missing ((eq_iff key key).1 refl)))
      | inr (old, found) ↦
          let held = find_holds (has_bucket_key key) buckets found in
          rw (increment_bucket, found)
            (rw found (
              find-overwritten _ buckets _ old found
                (next_bucket_held key reset_at clock old held)))
    ]

-- The stored row ended before the window, or ends with it: windows do not overlap.
abbrev pub Fits : ℕ → ℕ → Option Bucket → Type 0
Fits start end none = Unit
Fits start end (some bucket) = (bucket.reset_at ≤ start) ⊎ (bucket.reset_at ≡ end)

-- The attempts that the window has counted already.
abbrev pub spent : ℕ → Option Bucket → ℕ
spent start none = 0
spent start (some bucket) = if leb bucket.reset_at start then 0 else bucket.count

-- How many of some attempts are let through, the clocks of the process and the database agreeing.
pub allowed_count : RateLimitRule → String → List ℕ → List Bucket → ℕ
allowed_count rule key [] buckets = 0
allowed_count rule key (now ∷ later) buckets = elim (consume_key rule key now now buckets) [
  | none ↦ 0
  | some (decision, after) ↦
      let rest = allowed_count rule key later after in if decision.allowed then suc rest else rest
]

abbrev pub AllWithin : ℕ → ℕ → List ℕ → Type 0
AllWithin start window_seconds [] = Unit
AllWithin start window_seconds (now ∷ later) =
    (window_start now window_seconds ≡ some start) × AllWithin start window_seconds later

module _ (start end now : ℕ) (low : start ≤ now) (high : now < end) (key : String) where
  next_bucket_count :
      (stored : Option Bucket)
      → Fits start end stored
      → ((next_bucket key end now stored).count ≡ suc (spent start stored))
        × ((next_bucket key end now stored).reset_at ≡ end)
  unfolding next_bucket
  next_bucket_count none fits = (refl, refl)
  next_bucket_count (some bucket) (inl early) =
      let gone : leb bucket.reset_at now ≡ true = ground arith in
      let before : leb bucket.reset_at start ≡ true = ground arith in
      rw (gone, before) ((refl, refl))
  next_bucket_count (some bucket) (inr ends) =
      let current : leb bucket.reset_at now ≡ false = ground arith in
      let inside : leb bucket.reset_at start ≡ false = ground arith in
      rw (current, inside) ((refl, ends))

increment_bucket_row :
    (key : String) (reset_at clock : ℕ) (buckets : List Bucket)
    → (increment_bucket key reset_at clock buckets).0
      ≡ next_bucket key reset_at clock (find (has_bucket_key key) buckets)
unfolding increment_bucket
increment_bucket_row key reset_at clock buckets =
    elim (Option-cases (find (has_bucket_key key) buckets)) [
      | inl missing ↦ rw (increment_bucket, missing) (rw missing refl)
      | inr (old, found) ↦ rw (increment_bucket, found) (rw found refl)
    ]

count_step :
    (n limit spent : ℕ)
    → (if leb (suc spent) limit then suc (min n (limit - suc spent)) else min n (limit - suc spent))
      ≡ min (suc n) (limit - spent)
count_step n limit spent = ground arith

module _ (rule : RateLimitRule) (key : String) (start : ℕ) where
  abbrev stored_in : List Bucket → Option Bucket
  stored_in buckets = find (has_bucket_key key) buckets

  abbrev end_of_window : ℕ
  end_of_window = start + rule.window_seconds * 1000

  -- The decision on an attempt of the window after which the count is `count`.
  abbrev judged : ℕ → ℕ → RateLimitDecision
  judged count now = record {
    allowed = leb count rule.limit;
    limit = rule.limit;
    remaining = rule.limit - count;
    reset_at = end_of_window;
    retry_after_seconds = max 1 ((end_of_window - now + 999) / 1000);
  }

  evaluate_within :
      (count now : ℕ)
      → window_start now rule.window_seconds ≡ some start
      → evaluate count rule now ≡ some (judged count now)
  unfolding evaluate window_end
  evaluate_within count now within = rw (evaluate, window_end, within) refl

  consume_key_within :
      (now : ℕ) (buckets : List Bucket)
      → window_start now rule.window_seconds ≡ some start
      → Fits start end_of_window (stored_in buckets)
      → consume_key rule key now now buckets
        ≡ some (
          judged (suc (spent start (stored_in buckets))) now,
          (increment_bucket key end_of_window now buckets).1,
        )
  unfolding consume_key window_end
  consume_key_within now buckets within fits =
      let (low, high) = window_start_bounds now rule.window_seconds start within in
      let counted =
        next_bucket_count start end_of_window now low high key (stored_in buckets) fits in
      let row = increment_bucket_row key end_of_window now buckets in
      let after = (increment_bucket key end_of_window now buckets).1 in
      rw (consume_key, window_end, within)
        (rw (evaluate_within (increment_bucket key end_of_window now buckets).0.count now within) (
          ap (λ count. some (judged count now, after))
            (ap (λ bucket. bucket.count) row ∙ counted.0)))

  -- From a window's attempts, exactly the limit is let through, less what was spent before: the
  -- first ones, and no more however many there are.
  pub allowed_count_within :
      (times : List ℕ) (buckets : List Bucket)
      → AllWithin start rule.window_seconds times
      → Fits start end_of_window (stored_in buckets)
      → allowed_count rule key times buckets
        ≡ min (length times) (rule.limit - spent start (stored_in buckets))
  unfolding allowed_count
  allowed_count_within [] buckets within fits = omega arith
  allowed_count_within (now ∷ later) buckets (here, rest) fits =
      let done = consume_key_within now buckets here fits in
      let (low, high) = window_start_bounds now rule.window_seconds start here in
      let counted =
        next_bucket_count start end_of_window now low high key (stored_in buckets) fits in
      let after = (increment_bucket key end_of_window now buckets).1 in
      let next = next_bucket key end_of_window now (stored_in buckets) in
      let found : find (has_bucket_key key) after ≡ some next =
        increment_bucket_found key end_of_window now buckets in
      let more = allowed_count_within later after rest (rw found (inr (counted.1))) in
      let fresh : leb next.reset_at start ≡ false = rw (counted.1) (ground arith) in
      let spent_after : spent start (find (has_bucket_key key) after)
          ≡ suc (spent start (stored_in buckets)) =
        rw found (rw fresh (counted.0)) in
      let left : allowed_count rule key later after
          ≡ min (length later) (rule.limit - suc (spent start (stored_in buckets))) =
        more ∙ ap (λ n. min (length later) (rule.limit - n)) spent_after in
      rw (allowed_count, done)
        (rw left (count_step (length later) rule.limit (spent start (stored_in buckets))))
