-- ===== src/Jobs/Backoff.antt =====
-- server/jobs/backoff.ts: when a failed job is tried again. Delays and times are whole
-- milliseconds; the jitter in [0, 1) is a number of millionths.
use whatsapp_os.Prelude.{
  ℕ, zero, suc, ◌+◌, ◌-◌, ◌*◌, ◌/◌, ◌^◌, ◌≤◌, ◌≡◌, Bool, min, max, arith, leb,
}
use native.Mathlib.Numerals.{unary_clauses}

pub record BackoffConfig : Type 0 where
  pub base_delay_ms : ℕ
  pub max_delay_ms : ℕ
  pub factor : ℕ

abbrev pub default_backoff : BackoffConfig
default_backoff = record { base_delay_ms = 5000; max_delay_ms = 1800000; factor = 3 }

-- A growth past the largest double is Infinity in the source, which gives the ceiling, as here.
unfoldable pub backoff_delay_ms : ℕ → BackoffConfig → ℕ
backoff_delay_ms attempt config =
    let safe_attempt = max 1 attempt in
    min (config.base_delay_ms * config.factor ^ (safe_attempt - 1)) config.max_delay_ms

abbrev pub jitter_scale : ℕ
jitter_scale = 1000000

-- The jitter is not negative here, so only its upper clamp is left.
unfoldable pub apply_jitter : ℕ → ℕ → ℕ
apply_jitter delay_ms jitter =
    let clamped = min jitter 999999 in
    (2 * (delay_ms * clamped) + jitter_scale) / (2 * jitter_scale)

unfoldable pub next_run_at : ℕ → ℕ → ℕ → BackoffConfig → ℕ
next_run_at now attempt jitter config = now + apply_jitter (backoff_delay_ms attempt config) jitter

unfoldable pub is_exhausted : ℕ → ℕ → Bool
is_exhausted attempts max_attempts = leb max_attempts attempts

abbrev pub lock_timeout_ms : ℕ
lock_timeout_ms = 300000

-- A time before the epoch's first five minutes would be negative in the source.
unfoldable pub lock_expired_before : ℕ → ℕ → ℕ
lock_expired_before now lock_timeout = now - lock_timeout

jittered_mono : (delay clamped : ℕ) → clamped ≤ 999999 → delay * clamped ≤ delay * 1000000
jittered_mono delay clamped h = grind arith

-- A jittered delay is at most the delay.
apply_jitter_bound : (delay jitter : ℕ) → apply_jitter delay jitter ≤ delay
unfolding apply_jitter
apply_jitter_bound delay jitter =
    let bound = jittered_mono delay (min jitter 999999) (omega arith) in omega arith

-- A retry is never scheduled in the past, nor later than the ceiling from now.
pub next_run_at_bounds :
    (now attempt jitter : ℕ) (config : BackoffConfig)
    → (now ≤ next_run_at now attempt jitter config)
      × (next_run_at now attempt jitter config ≤ now + config.max_delay_ms)
unfolding next_run_at backoff_delay_ms
next_run_at_bounds now attempt jitter config =
    let bound = apply_jitter_bound (backoff_delay_ms attempt config) jitter in
    (omega arith, omega arith)

times_grows : (a f : ℕ) → 1 ≤ f → a ≤ a * f
times_grows a f h = grind arith

-- Each further failure waits at least as long, before jitter, if the factor is at least one.
pub backoff_delay_ms_grows :
    (attempt : ℕ) (config : BackoffConfig)
    → 1 ≤ config.factor
    → backoff_delay_ms attempt config ≤ backoff_delay_ms (suc attempt) config
unfolding backoff_delay_ms
backoff_delay_ms_grows zero config h = omega arith
backoff_delay_ms_grows (suc n) config h =
    let first : max 1 (suc n) - 1 ≡ n = omega arith in
    let second : max 1 (suc (suc n)) - 1 ≡ suc n = omega arith in
    let grown = times_grows (config.base_delay_ms * config.factor ^ n) config.factor h in
    let power : config.factor ^ suc n ≡ config.factor ^ n * config.factor = simp unary_clauses in
    let larger : config.base_delay_ms * config.factor ^ n
        ≤ config.base_delay_ms * config.factor ^ suc n =
      rw power (grind (arith, grown)) in
    rw first (rw second (omega arith))
