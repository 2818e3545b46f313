-- ===== src/RateLimit.antt =====
-- server/ratelimit/window.ts, server/ratelimit/limiter.ts and server/repositories/rate-limit.repository.ts:
-- the fixed-window limiter. Times are milliseconds since the epoch.
pub mod Window
mod Tests
use Prim.Native.String.{String, ◌++◌ as join}
use text.Mathlib.Text.{◌==◌ as str_eq}
use whatsapp_os.Prelude.{
  ℕ, zero, suc, ◌+◌, ◌-◌, ◌*◌, ◌/◌, Bool, true, false, not, ◌&&◌, List, [], ◌∷◌, ◌++◌, Option, none,
  some, max, ltb, leb, ◌==◌, find, filter, if◌then◌else◌,
}
use whatsapp_os.Prelude.Table.{update_many, count_where}

pub record RateLimitRule : Type 0 where
  pub limit : ℕ
  pub window_seconds : ℕ

pub data RateLimitKey : Type 0 where
  login signup password_reset member_invite ai_request_per_user ai_request_per_workspace
        message_send message_dispatch file_upload public_api webhook webhook_rejected :
      RateLimitKey

unfoldable pub rate_limits : RateLimitKey → RateLimitRule
rate_limits login = record { limit = 8; window_seconds = 300 }
rate_limits signup = record { limit = 5; window_seconds = 3600 }
rate_limits password_reset = record { limit = 5; window_seconds = 3600 }
rate_limits member_invite = record { limit = 20; window_seconds = 3600 }
rate_limits ai_request_per_user = record { limit = 60; window_seconds = 60 }
rate_limits ai_request_per_workspace = record { limit = 300; window_seconds = 60 }
rate_limits message_send = record { limit = 120; window_seconds = 60 }
rate_limits message_dispatch = record { limit = 600; window_seconds = 60 }
rate_limits file_upload = record { limit = 30; window_seconds = 300 }
rate_limits public_api = record { limit = 100; window_seconds = 60 }
rate_limits webhook = record { limit = 2000; window_seconds = 60 }
rate_limits webhook_rejected = record { limit = 60; window_seconds = 60 }

abbrev pub action_name : RateLimitKey → String
action_name login = "login"
action_name signup = "signup"
action_name password_reset = "passwordReset"
action_name member_invite = "memberInvite"
action_name ai_request_per_user = "aiRequestPerUser"
action_name ai_request_per_workspace = "aiRequestPerWorkspace"
action_name message_send = "messageSend"
action_name message_dispatch = "messageDispatch"
action_name file_upload = "fileUpload"
action_name public_api = "publicApi"
action_name webhook = "webhook"
action_name webhook_rejected = "webhookRejected"

pub record RateLimitDecision : Type 0 where
  pub allowed : Bool
  pub limit : ℕ
  pub remaining : ℕ
  pub reset_at : ℕ
  pub retry_after_seconds : ℕ

-- None where the source throws: a window of no seconds.
unfoldable pub window_start : ℕ → ℕ → Option ℕ
window_start now window_seconds =
    let window_ms = window_seconds * 1000 in
    if window_seconds == 0 then none else some (now / window_ms * window_ms)

unfoldable pub window_end : ℕ → ℕ → Option ℕ
window_end now window_seconds = elim (window_start now window_seconds) [
  | none ↦ none
  | some start ↦ some (start + window_seconds * 1000)
]

unfoldable pub evaluate : ℕ → RateLimitRule → ℕ → Option RateLimitDecision
evaluate count rule now = elim (window_end now rule.window_seconds) [
  | none ↦ none
  | some reset_at ↦ some (record {
    allowed = leb count rule.limit;
    limit = rule.limit;
    remaining = rule.limit - count;
    reset_at = reset_at;
    retry_after_seconds = max 1 ((reset_at - now + 999) / 1000);
  })
]

unfoldable pub bucket_key : RateLimitKey → String → String
bucket_key action identifier = join (action_name action) (join ":" identifier)

pub record Bucket : Type 0 where
  pub key : String
  pub count : ℕ
  pub reset_at : ℕ

abbrev pub has_bucket_key : String → Bucket → Bool
has_bucket_key key bucket = str_eq bucket.key key

-- The row after the upsert; `clock` is the database's own time.
unfoldable pub next_bucket : String → ℕ → ℕ → Option Bucket → Bucket
next_bucket key reset_at clock none = record { key = key; count = 1; reset_at = reset_at }
next_bucket key reset_at clock (some stored) =
    if leb stored.reset_at clock
    then record stored { count = 1; reset_at = reset_at }
    else record stored { count = suc stored.count }

unfoldable pub increment_bucket : String → ℕ → ℕ → List Bucket → Bucket × List Bucket
increment_bucket key reset_at clock buckets =
    let stored = find (has_bucket_key key) buckets in
    let next = next_bucket key reset_at clock stored in
    elim stored [
      | none ↦ (next, buckets ++ (next ∷ []))
      | some old ↦ (next, update_many (has_bucket_key key) (λ bucket. next) buckets)
    ]

abbrev pub is_elapsed : ℕ → Bucket → Bool
is_elapsed now bucket = leb bucket.reset_at now

unfoldable pub delete_elapsed_buckets : ℕ → List Bucket → ℕ × List Bucket
delete_elapsed_buckets now buckets =
    (count_where (is_elapsed now) buckets, filter (λ bucket. not (is_elapsed now bucket)) buckets)

-- An attempt under a rule and a key: recorded, then judged.
unfoldable pub consume_key :
    RateLimitRule → String → ℕ → ℕ → List Bucket → Option (RateLimitDecision × List Bucket)
consume_key rule key now clock buckets = elim (window_end now rule.window_seconds) [
  | none ↦ none
  | some reset_at ↦
      let written = increment_bucket key reset_at clock buckets in
      elim (evaluate written.0.count rule now) [
        | none ↦ none
        | some decision ↦ some (decision, written.1)
      ]
]

unfoldable pub consume :
    RateLimitKey → String → ℕ → ℕ → List Bucket → Option (RateLimitDecision × List Bucket)
consume action identifier = consume_key (rate_limits action) (bucket_key action identifier)

-- The step of consumeDual's reduction.
unfoldable pub stricter : RateLimitDecision → RateLimitDecision → RateLimitDecision
stricter strictest current =
    if not current.allowed && strictest.allowed
    then current
    else if not (if current.allowed then strictest.allowed else not strictest.allowed)
    then strictest
    else if ltb current.remaining strictest.remaining
    then current
    else strictest

-- `email` stands for the trimmed text in lower case; an empty one is absent, like null.
unfoldable pub consume_dual :
    RateLimitKey
    → Option String
    → Option String
    → ℕ
    → ℕ
    → List Bucket
    → Option (RateLimitDecision × List Bucket)
consume_dual action none none now clock buckets = consume action "anonymous" now clock buckets
consume_dual action (some email) none now clock buckets =
    consume action (join "email:" email) now clock buckets
consume_dual action none (some ip) now clock buckets =
    consume action (join "ip:" ip) now clock buckets
consume_dual action (some email) (some ip) now clock buckets =
    elim (consume action (join "email:" email) now clock buckets) [
      | none ↦ none
      | some (first, between) ↦ elim (consume action (join "ip:" ip) now clock between) [
        | none ↦ none
        | some (second, after) ↦ some (stricter first second, after)
      ]
    ]
