-- ===== src/Plans/Subscription.antt =====
-- server/repositories/subscription.repository.ts and server/services/subscription/subscription.service.ts:
-- the subscription of a workspace and the plan that it gives.
use Prim.Native.String.{String}
use whatsapp_os.Prelude.{
  ℕ, ◌+◌, ◌-◌, ◌*◌, ◌/◌, Bool, true, false, not, ◌&&◌, List, [], ◌∷◌, ◌++◌, Option, none, some, ltb,
  ◌==◌, find, if◌then◌else◌,
}
use text.Mathlib.Text.{◌==◌ as str_eq}
use whatsapp_os.Prelude.Result.{Result, ok, err}
use whatsapp_os.Prelude.Table.{update_many}
use whatsapp_os.Authz.{Role, role_has_permission, subscription_read, subscription_manage}
use whatsapp_os.Plans.{PlanKey, free, trial_days, default_trial_plan_key, get_plan_key}

pub data SubscriptionStatus : Type 0 where
  trial active past_due canceled expired : SubscriptionStatus

pub record SubscriptionRecord : Type 0 where
  pub workspace_id : ℕ
  pub plan_key : String
  pub status : SubscriptionStatus
  pub current_period_start : ℕ
  pub current_period_end : ℕ
  pub trial_ends_at : Option ℕ
  pub cancel_at_period_end : Bool
  pub canceled_at : Option ℕ

abbrev is_past : Option ℕ → ℕ → Bool
is_past none now = false
is_past (some time) now = ltb time now

-- `resolveEffectivePlanKey` of a subscription that is there.
unfoldable pub effective_of : SubscriptionRecord → ℕ → PlanKey
effective_of sub now = elim sub.status [
  | expired ↦ free
  | trial ↦ if is_past sub.trial_ends_at now then free else get_plan_key sub.plan_key
  | canceled ↦ if ltb sub.current_period_end now then free else get_plan_key sub.plan_key
  | _ ↦
      if sub.cancel_at_period_end && ltb sub.current_period_end now
      then free
      else get_plan_key sub.plan_key
]

unfoldable pub resolve_effective_plan_key : Option SubscriptionRecord → ℕ → PlanKey
resolve_effective_plan_key none now = free
resolve_effective_plan_key (some sub) now = effective_of sub now

abbrev pub is_of : ℕ → SubscriptionRecord → Bool
is_of workspace_id sub = sub.workspace_id == workspace_id

unfoldable pub find_subscription : ℕ → List SubscriptionRecord → Option SubscriptionRecord
find_subscription workspace_id = find (is_of workspace_id)

abbrev pub day_ms : ℕ
day_ms = 86400000

abbrev pub default_trial : ℕ → ℕ → SubscriptionRecord
default_trial workspace_id now =
    let period_end = now + trial_days default_trial_plan_key * day_ms in
    record {
      workspace_id = workspace_id;
      plan_key = "business";
      status = trial;
      current_period_start = now;
      current_period_end = period_end;
      trial_ends_at = some period_end;
      cancel_at_period_end = false;
      canceled_at = none;
    }

-- The subscription, and the table with it: a workspace without one starts the default trial.
unfoldable pub ensure_workspace_subscription :
    ℕ → ℕ → List SubscriptionRecord → SubscriptionRecord × List SubscriptionRecord
ensure_workspace_subscription workspace_id now subs =
    let created = default_trial workspace_id now in
    elim (find_subscription workspace_id subs) [
      | some existing ↦ (existing, subs)
      | none ↦ (created, subs ++ (created ∷ []))
    ]

abbrev pub with_plan : String → ℕ → SubscriptionRecord → SubscriptionRecord
with_plan plan_key now sub = record sub {
  plan_key = plan_key;
  status = active;
  current_period_start = now;
  current_period_end = now + 30 * day_ms;
  trial_ends_at = none;
  cancel_at_period_end = false;
  canceled_at = none;
}

abbrev pub with_cancellation : Bool → ℕ → SubscriptionRecord → SubscriptionRecord
with_cancellation cancel now sub = record sub {
  cancel_at_period_end = cancel;
  canceled_at = if cancel then some now else none;
}

pub data SubscriptionError : Type 0 where
  forbidden free_plan_cannot_be_canceled : SubscriptionError

-- The part of the overview that is computed.
pub record Overview : Type 0 where
  pub subscription : SubscriptionRecord
  pub effective_plan_key : PlanKey
  pub is_trial : Bool
  pub is_trial_expired : Bool
  pub trial_days_remaining : Option ℕ

abbrev is_trial_status : SubscriptionStatus → Bool
is_trial_status trial = true
is_trial_status _ = false

unfoldable pub overview_of : SubscriptionRecord → ℕ → Overview
overview_of sub now = record {
  subscription = sub;
  effective_plan_key = effective_of sub now;
  is_trial = is_trial_status sub.status;
  is_trial_expired = is_trial_status sub.status && is_past sub.trial_ends_at now;
  trial_days_remaining =
      if is_trial_status sub.status
      then elim sub.trial_ends_at [
        | none ↦ none
        | some end ↦ some ((end - now + (day_ms - 1)) / day_ms)
      ]
      else none;
}

-- The rows after a service's write, and the overview of the workspace's own.
abbrev Answer : Type 0
Answer = Result SubscriptionError Overview × List SubscriptionRecord

unfoldable pub get_subscription_overview : Role → ℕ → ℕ → List SubscriptionRecord → Answer
get_subscription_overview role workspace_id now subs =
    let (sub, after) = ensure_workspace_subscription workspace_id now subs in
    if role_has_permission role subscription_read
    then (ok (overview_of sub now), after)
    else (err forbidden, subs)

unfoldable pub change_subscription_plan : Role → ℕ → String → ℕ → List SubscriptionRecord → Answer
change_subscription_plan role workspace_id plan_key now subs =
    let (sub, present) = ensure_workspace_subscription workspace_id now subs in
    if role_has_permission role subscription_manage
    then get_subscription_overview role workspace_id now
        (update_many (is_of workspace_id) (with_plan plan_key now) present)
    else (err forbidden, subs)

unfoldable pub cancel_subscription : Role → ℕ → ℕ → List SubscriptionRecord → Answer
cancel_subscription role workspace_id now subs =
    let (sub, present) = ensure_workspace_subscription workspace_id now subs in
    if not (role_has_permission role subscription_manage)
    then (err forbidden, subs)
    else if str_eq sub.plan_key "free"
    then (err free_plan_cannot_be_canceled, present)
    else get_subscription_overview role workspace_id now
        (update_many (is_of workspace_id) (with_cancellation true now) present)

unfoldable pub resume_subscription : Role → ℕ → ℕ → List SubscriptionRecord → Answer
resume_subscription role workspace_id now subs =
    let (sub, present) = ensure_workspace_subscription workspace_id now subs in
    if role_has_permission role subscription_manage
    then get_subscription_overview role workspace_id now
        (update_many (is_of workspace_id) (with_cancellation false now) present)
    else (err forbidden, subs)
