-- ===== src/Plans.antt =====
-- config/plans.ts: the plans, their limits and features, and the check of a limit.
pub mod Subscription
pub mod Quota
pub mod Laws
pub mod Team
pub mod Seats
pub mod Lifecycle
mod Tests
use Prim.Native.String.{String}
use text.Mathlib.Text.{◌==◌ as str_eq}
use whatsapp_os.Prelude.{
  ℕ, ◌+◌, ◌-◌, ◌*◌, Bool, true, false, List, [], ◌∷◌, Option, none, some, any, leb, ◌==◌,
  if◌then◌else◌,
}

pub data PlanKey : Type 0 where
  free starter business pro : PlanKey

pub data LimitName : Type 0 where
  whatsapp_numbers team_members contacts products ai_requests_per_month messages_per_month
        knowledge_documents storage_megabytes automations campaigns_per_month :
      LimitName

pub data PlanFeature : Type 0 where
  ai_agent knowledge_base human_handoff automation analytics advanced_analytics multiple_numbers
        campaigns appointments api_access priority_support audit_log_export :
      PlanFeature

abbrev feature_index : PlanFeature → ℕ
feature_index ai_agent = 0
feature_index knowledge_base = 1
feature_index human_handoff = 2
feature_index automation = 3
feature_index analytics = 4
feature_index advanced_analytics = 5
feature_index multiple_numbers = 6
feature_index campaigns = 7
feature_index appointments = 8
feature_index api_access = 9
feature_index priority_support = 10
feature_index audit_log_export = 11

-- The limits of each plan; none is unmetered.
unfoldable pub plan_limit : PlanKey → LimitName → Option ℕ
plan_limit free whatsapp_numbers = some 1
plan_limit free team_members = some 1
plan_limit free contacts = some 100
plan_limit free products = some 20
plan_limit free ai_requests_per_month = some 100
plan_limit free messages_per_month = some 300
plan_limit free knowledge_documents = some 5
plan_limit free storage_megabytes = some 50
plan_limit free automations = some 1
plan_limit free campaigns_per_month = some 0
plan_limit starter whatsapp_numbers = some 1
plan_limit starter team_members = some 3
plan_limit starter contacts = some 2000
plan_limit starter products = some 200
plan_limit starter ai_requests_per_month = some 2000
plan_limit starter messages_per_month = some 5000
plan_limit starter knowledge_documents = some 25
plan_limit starter storage_megabytes = some 500
plan_limit starter automations = some 5
plan_limit starter campaigns_per_month = some 2
plan_limit business whatsapp_numbers = some 2
plan_limit business team_members = some 10
plan_limit business contacts = some 15000
plan_limit business products = some 2000
plan_limit business ai_requests_per_month = some 12000
plan_limit business messages_per_month = some 30000
plan_limit business knowledge_documents = some 150
plan_limit business storage_megabytes = some 5000
plan_limit business automations = some 25
plan_limit business campaigns_per_month = some 10
plan_limit pro whatsapp_numbers = some 10
plan_limit pro storage_megabytes = some 50000
plan_limit pro _ = none

abbrev free_features : List PlanFeature
free_features = ai_agent ∷ knowledge_base ∷ human_handoff ∷ []

unfoldable pub plan_features : PlanKey → List PlanFeature
plan_features free = free_features
plan_features starter = ai_agent ∷ knowledge_base ∷ human_handoff ∷ automation ∷ analytics ∷ []
plan_features business =
    ai_agent ∷ knowledge_base ∷ human_handoff ∷ automation ∷ analytics ∷ advanced_analytics
    ∷ multiple_numbers ∷ campaigns ∷ appointments ∷ []
plan_features pro =
    ai_agent ∷ knowledge_base ∷ human_handoff ∷ automation ∷ analytics ∷ advanced_analytics
    ∷ multiple_numbers ∷ campaigns ∷ appointments ∷ api_access ∷ priority_support ∷ audit_log_export
    ∷ []

abbrev pub trial_days : PlanKey → ℕ
trial_days free = 0
trial_days _ = 14

-- `position`.
abbrev pub position : PlanKey → ℕ
position free = 0
position starter = 1
position business = 2
position pro = 3

abbrev pub default_trial_plan_key : PlanKey
default_trial_plan_key = business

-- The plan that a stored key names; a key that names none falls back to the free plan.
unfoldable pub get_plan_key : String → PlanKey
get_plan_key key =
    if str_eq key "starter"
    then starter
    else if str_eq key "business"
    then business
    else if str_eq key "pro"
    then pro
    else free

unfoldable pub plan_has_feature : PlanKey → PlanFeature → Bool
plan_has_feature plan feature =
    any (λ held. feature_index held == feature_index feature) (plan_features plan)

-- A share of a limit: `part / whole`.
pub record Ratio : Type 0 where
  pub part : ℕ
  pub whole : ℕ

pub record LimitCheck : Type 0 where
  pub allowed : Bool
  pub limit : Option ℕ
  pub used : ℕ
  pub remaining : Option ℕ
  pub ratio : Ratio
  pub near_limit : Bool

-- `limit === 0 ? 1 : Math.min(1, used / limit)`.
unfoldable pub used_ratio : ℕ → ℕ → Ratio
used_ratio limit used =
    if limit == 0
    then record { part = 1; whole = 1 }
    else if leb limit used
    then record { part = 1; whole = 1 }
    else record { part = used; whole = limit }

-- At least 0.8.
abbrev pub is_near : Ratio → Bool
is_near ratio = leb (4 * ratio.whole) (5 * ratio.part)

unfoldable pub check_of : Option ℕ → ℕ → ℕ → LimitCheck
check_of none used requested = record {
  allowed = true;
  limit = none;
  used = used;
  remaining = none;
  ratio = record { part = 0; whole = 1 };
  near_limit = false;
}
check_of (some limit) used requested = record {
  allowed = leb (used + requested) limit;
  limit = some limit;
  used = used;
  remaining = some (limit - used);
  ratio = used_ratio limit used;
  near_limit = is_near (used_ratio limit used);
}

unfoldable pub check_limit : PlanKey → LimitName → ℕ → ℕ → LimitCheck
check_limit plan limit_name = check_of (plan_limit plan limit_name)
