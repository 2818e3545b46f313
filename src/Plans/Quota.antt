-- ===== src/Plans/Quota.antt =====
-- server/services/billing/limit-guard.service.ts: what a workspace has used of its plan, and the guard on
-- making more.
use Prim.Native.String.{String}
use text.Mathlib.Text.{◌==◌ as str_eq}
use whatsapp_os.Prelude.{
  ℕ, ◌+◌, ◌/◌, Bool, not, ◌&&◌, List, Option, none, some, ltb, ◌==◌, is_some, or_else, find,
  if◌then◌else◌,
}
use whatsapp_os.Prelude.Result.{Result, ok, err}
use whatsapp_os.Prelude.Table.{count_where}
use whatsapp_os.Plans.{
  PlanKey, LimitName, whatsapp_numbers, team_members, contacts, products, ai_requests_per_month,
  messages_per_month, knowledge_documents, storage_megabytes, automations, campaigns_per_month,
  PlanFeature, plan_has_feature, LimitCheck, check_limit,
}
use whatsapp_os.Plans.Subscription.{SubscriptionRecord, effective_of, ensure_workspace_subscription}

-- A row that a quota counts; only contacts and products are ever marked deleted.
pub record OwnedRow : Type 0 where
  pub workspace_id : ℕ
  pub deleted_at : Option ℕ

pub record MemberRow : Type 0 where
  pub workspace_id : ℕ
  pub is_active : Bool

pub record InviteRow : Type 0 where
  pub workspace_id : ℕ
  pub expires_at : ℕ
  pub accepted_at : Option ℕ
  pub revoked_at : Option ℕ

pub data UsageMetric : Type 0 where
  ai_request whatsapp_message_sent storage_bytes campaign_message : UsageMetric

abbrev metric_index : UsageMetric → ℕ
metric_index ai_request = 0
metric_index whatsapp_message_sent = 1
metric_index storage_bytes = 2
metric_index campaign_message = 3

pub record UsageCounter : Type 0 where
  pub workspace_id : ℕ
  pub metric : UsageMetric
  pub period_key : String
  pub quantity : ℕ

pub record Tables : Type 0 where
  pub phone_numbers : List OwnedRow
  pub members : List MemberRow
  pub invites : List InviteRow
  pub contacts : List OwnedRow
  pub products : List OwnedRow
  pub automations : List OwnedRow
  pub documents : List OwnedRow
  pub counters : List UsageCounter

abbrev owned : ℕ → OwnedRow → Bool
owned workspace_id row = row.workspace_id == workspace_id

abbrev kept : ℕ → OwnedRow → Bool
kept workspace_id row = row.workspace_id == workspace_id && not (is_some row.deleted_at)

abbrev pub is_active_member : ℕ → MemberRow → Bool
is_active_member workspace_id row = row.workspace_id == workspace_id && row.is_active

abbrev pub is_pending_invite : ℕ → ℕ → InviteRow → Bool
is_pending_invite workspace_id now row =
    row.workspace_id == workspace_id
    && (ltb now row.expires_at && (not (is_some row.accepted_at) && not (is_some row.revoked_at)))

unfoldable pub counter_quantity : ℕ → UsageMetric → String → List UsageCounter → ℕ
counter_quantity workspace_id metric period_key counters =
    elim (find
      (λ row.
        row.workspace_id == workspace_id
        && (metric_index row.metric == metric_index metric && str_eq row.period_key period_key))
      counters) [ none ↦ 0 | some counter ↦ counter.quantity ]

-- `period_key` stands for the month of `now`, as `formatPeriodKey` prints it.
unfoldable pub get_current_limit_usage : ℕ → LimitName → ℕ → String → Tables → ℕ
get_current_limit_usage ws whatsapp_numbers now period_key tables =
    count_where (owned ws) tables.phone_numbers
get_current_limit_usage ws team_members now period_key tables =
    count_where (is_active_member ws) tables.members
    + count_where (is_pending_invite ws now) tables.invites
get_current_limit_usage ws contacts now period_key tables = count_where (kept ws) tables.contacts
get_current_limit_usage ws products now period_key tables = count_where (kept ws) tables.products
get_current_limit_usage ws automations now period_key tables =
    count_where (owned ws) tables.automations
get_current_limit_usage ws ai_requests_per_month now period_key tables =
    counter_quantity ws ai_request period_key tables.counters
get_current_limit_usage ws messages_per_month now period_key tables =
    counter_quantity ws whatsapp_message_sent period_key tables.counters
get_current_limit_usage ws knowledge_documents now period_key tables =
    count_where (owned ws) tables.documents
get_current_limit_usage ws storage_megabytes now period_key tables =
    (counter_quantity ws storage_bytes "total" tables.counters + 1048575) / 1048576
get_current_limit_usage ws campaigns_per_month now period_key tables =
    counter_quantity ws campaign_message period_key tables.counters

-- `getEffectivePlanKey`, without the row that it may add.
unfoldable pub get_effective_plan_key : ℕ → ℕ → List SubscriptionRecord → PlanKey
get_effective_plan_key workspace_id now subs =
    effective_of (ensure_workspace_subscription workspace_id now subs).0 now

pub data GuardError : Type 0 where
  limit_exceeded : LimitName → ℕ → GuardError
  feature_not_included : PlanFeature → GuardError

unfoldable pub assert_within_plan_limit :
    ℕ → LimitName → ℕ → ℕ → String → List SubscriptionRecord → Tables → Result GuardError LimitCheck
assert_within_plan_limit workspace_id limit_name requested now period_key subs tables =
    let used = get_current_limit_usage workspace_id limit_name now period_key tables in
    let check =
      check_limit (get_effective_plan_key workspace_id now subs) limit_name used requested in
    if not check.allowed then err (limit_exceeded limit_name (or_else check.limit 0)) else ok check

unfoldable pub assert_plan_has_feature :
    ℕ → PlanFeature → ℕ → List SubscriptionRecord → Result GuardError (Unit {0})
assert_plan_has_feature workspace_id feature now subs =
    if plan_has_feature (get_effective_plan_key workspace_id now subs) feature
    then ok tt
    else err (feature_not_included feature)
