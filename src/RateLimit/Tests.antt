-- ===== src/RateLimit/Tests.antt =====
-- The login limit of eight attempts in five minutes.
use whatsapp_os.Prelude.{◌≡◌, refl, ◌-◌, List, [], ◌∷◌, min, inr}
use whatsapp_os.RateLimit.{RateLimitRule, login, rate_limits, Bucket, window_start}
use whatsapp_os.RateLimit.Window.{allowed_count, allowed_count_within}

abbrev login_rule : RateLimitRule
login_rule = record { limit = 8; window_seconds = 300 }

rule_run : rate_limits login ≡ login_rule
unfolding rate_limits
rule_run = refl

-- Seven attempts were counted in the window from 300000 to 600000; one more is let through.
abbrev seven : List Bucket
seven = record { key = "login:a"; count = 7; reset_at = 600000 } ∷ []

allowed_count_within_example :
    allowed_count login_rule "login:a" (310000 ∷ 320000 ∷ 330000 ∷ []) seven ≡ min 3 (8 - 7)
unfolding window_start
allowed_count_within_example =
    allowed_count_within login_rule "login:a" 300000 (310000 ∷ 320000 ∷ 330000 ∷ []) seven
      (refl, (refl, (refl, tt))) (inr refl)
