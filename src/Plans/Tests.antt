-- ===== src/Plans/Tests.antt =====
-- A workspace on the starter plan, and the theorems at it.
use whatsapp_os.Prelude.{ℕ, ◌≡◌, refl, ◌↔◌, ◌⊎◌, true, false, [], ◌∷◌, none, some, arith}
use whatsapp_os.Prelude.Result.{ok}
use whatsapp_os.Authz.{owner, role_has_permission, subscription_manage, subscription_read}
use whatsapp_os.Members.{allowed, deny, seats_full, can_add_seat}
use whatsapp_os.Plans.{
  free, starter, pro, LimitName, PlanFeature, check_of, team_members, plan_limit, get_plan_key,
  check_limit, plan_has_feature,
}
use whatsapp_os.Plans.Subscription.{
  ensure_workspace_subscription, active, SubscriptionRecord, effective_of,
  resolve_effective_plan_key, find_subscription, Overview, resume_subscription,
}
use whatsapp_os.Plans.Quota.{
  Tables, get_current_limit_usage, get_effective_plan_key, assert_within_plan_limit,
}
use whatsapp_os.Plans.Laws.{higher_plan_gives_more}
use whatsapp_os.Plans.Team.{can_invite, list_members, list_pending_invites}
use whatsapp_os.Plans.Seats.{is_ok, seat_guard_agrees}
use whatsapp_os.Plans.Lifecycle.{effective_plan_over_time, resume_subscription_restores}

-- Cancelled in its period, which ended at 5000.
abbrev ended : SubscriptionRecord
ended = record {
  workspace_id = 1;
  plan_key = "starter";
  status = active;
  current_period_start = 1000;
  current_period_end = 5000;
  trial_ends_at = none;
  cancel_at_period_end = true;
  canceled_at = some 2000;
}

abbrev tables : Tables
tables = record {
  phone_numbers = [];
  members = record { workspace_id = 1; is_active = true } ∷ [];
  invites =
      record { workspace_id = 1; expires_at = 9000; accepted_at = none; revoked_at = none } ∷ [];
  contacts = [];
  products = [];
  automations = [];
  documents = [];
  counters = [];
}

ended_is_free : effective_of ended 6000 ≡ free
unfolding effective_of
ended_is_free = refl

higher_plan_gives_more_example :
    ((name : LimitName) (used requested : ℕ)
      → (check_limit starter name used requested).allowed ≡ true
      → (check_limit pro name used requested).allowed ≡ true)
    × ((feature : PlanFeature)
        → plan_has_feature starter feature ≡ true
        → plan_has_feature pro feature ≡ true)
higher_plan_gives_more_example = higher_plan_gives_more starter pro (omega arith)

seat_guard_agrees_example :
    (is_ok (assert_within_plan_limit 1 team_members 1 2000 "2026-01" (ended ∷ []) tables) ≡ true)
    ↔ (can_invite 1 2000 (ended ∷ []) tables ≡ allowed)
seat_guard_agrees_example = seat_guard_agrees 1 2000 "2026-01" (ended ∷ []) tables refl

-- The one seat of the free plan is held by a suspended member: the page is full, the guard is not.
abbrev suspended_only : Tables
suspended_only = record tables {
  members = record { workspace_id = 1; is_active = false } ∷ [];
  invites = [];
}

suspended_divide :
    (can_invite 1 6000 (ended ∷ []) suspended_only ≡ deny seats_full)
    × (is_ok (assert_within_plan_limit 1 team_members 1 6000 "2026-01" (ended ∷ []) suspended_only)
        ≡ true)
unfolding can_invite can_add_seat list_members list_pending_invites assert_within_plan_limit
    get_current_limit_usage check_limit check_of get_effective_plan_key effective_of plan_limit
    ensure_workspace_subscription find_subscription
suspended_divide = (refl, refl)

effective_plan_over_time_example :
    (resolve_effective_plan_key (some ended) 6000 ≡ resolve_effective_plan_key (some ended) 4000)
    ⊎ (resolve_effective_plan_key (some ended) 6000 ≡ free)
effective_plan_over_time_example = effective_plan_over_time (some ended) 4000 6000 (omega arith)

not_found : find_subscription 2 (ended ∷ []) ≡ none
unfolding find_subscription
not_found = refl

ended_is_found : find_subscription 1 (ended ∷ []) ≡ some ended
unfolding find_subscription
ended_is_found = refl

owner_manages : role_has_permission owner subscription_manage ≡ true
unfolding role_has_permission
owner_manages = refl

owner_reads : role_has_permission owner subscription_read ≡ true
unfolding role_has_permission
owner_reads = refl

resume_subscription_restores_example :
    (overview : Overview) × ((resume_subscription owner 1 6000 (ended ∷ [])).0 ≡ ok overview)
    × (overview.effective_plan_key ≡ get_plan_key "starter")
resume_subscription_restores_example =
    resume_subscription_restores owner 1 6000 (ended ∷ []) ended owner_manages owner_reads
      ended_is_found refl
