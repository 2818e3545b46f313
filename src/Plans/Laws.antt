-- ===== src/Plans/Laws.antt =====
-- What the plans promise: a check is the comparison with the limit, and a higher plan gives no less.
use whatsapp_os.Prelude.{
  ℕ, ◌+◌, ◌*◌, ◌≤◌, ◌≡◌, refl, ◌↔◌, Bool, true, false, not, ◌&&◌, ◌||◌, List, [], ◌∷◌, Option, none,
  some, arith, leb, all,
}
use whatsapp_os.Plans.{
  PlanKey, free, starter, business, pro, LimitName, whatsapp_numbers, team_members, contacts,
  products, ai_requests_per_month, messages_per_month, knowledge_documents, storage_megabytes,
  automations, campaigns_per_month, PlanFeature, ai_agent, knowledge_base, human_handoff,
  automation, analytics, advanced_analytics, multiple_numbers, campaigns, appointments, api_access,
  priority_support, audit_log_export, plan_limit, plan_features, plan_has_feature, position,
  used_ratio, check_of, check_limit,
}

-- Under a limit: allowed exactly if what is used and asked for fits, near exactly from four fifths
-- on or where the limit is zero, and a request in two parts is judged as one for their sum.
pub check_of_limit :
    (limit used first second : ℕ)
    → (((check_of (some limit) used first).allowed ≡ true) ↔ (used + first ≤ limit))
      × (((check_of (some limit) used first).near_limit ≡ true) ↔ (4 * limit ≤ 5 * used))
      × ((check_of (some limit) used (first + second)).allowed ≡ (
          (check_of (some limit) used first).allowed
          && (check_of (some limit) (used + first) second).allowed))
unfolding check_of used_ratio
check_of_limit limit used first second = (ground arith, ground arith, ground arith)

abbrev limit_names : List LimitName
limit_names =
    whatsapp_numbers ∷ team_members ∷ contacts ∷ products ∷ ai_requests_per_month
    ∷ messages_per_month ∷ knowledge_documents ∷ storage_megabytes ∷ automations
    ∷ campaigns_per_month ∷ []

each_limit : (p : LimitName → Bool) → all p limit_names ≡ true → (name : LimitName) → p name ≡ true
each_limit p h whatsapp_numbers = ground arith
each_limit p h team_members = ground arith
each_limit p h contacts = ground arith
each_limit p h products = ground arith
each_limit p h ai_requests_per_month = ground arith
each_limit p h messages_per_month = ground arith
each_limit p h knowledge_documents = ground arith
each_limit p h storage_megabytes = ground arith
each_limit p h automations = ground arith
each_limit p h campaigns_per_month = ground arith

abbrev features : List PlanFeature
features =
    ai_agent ∷ knowledge_base ∷ human_handoff ∷ automation ∷ analytics ∷ advanced_analytics
    ∷ multiple_numbers ∷ campaigns ∷ appointments ∷ api_access ∷ priority_support ∷ audit_log_export
    ∷ []

each_feature :
    (p : PlanFeature → Bool) → all p features ≡ true → (feature : PlanFeature) → p feature ≡ true
each_feature p h ai_agent = ground arith
each_feature p h knowledge_base = ground arith
each_feature p h human_handoff = ground arith
each_feature p h automation = ground arith
each_feature p h analytics = ground arith
each_feature p h advanced_analytics = ground arith
each_feature p h multiple_numbers = ground arith
each_feature p h campaigns = ground arith
each_feature p h appointments = ground arith
each_feature p h api_access = ground arith
each_feature p h priority_support = ground arith
each_feature p h audit_log_export = ground arith

-- A limit that is no lower; unmetered is the highest.
abbrev no_lower : Option ℕ → Option ℕ → Bool
no_lower old none = true
no_lower none (some new) = false
no_lower (some old) (some new) = leb old new

abbrev gives_no_less : PlanKey → PlanKey → Bool
gives_no_less old new =
    all (λ name. no_lower (plan_limit old name) (plan_limit new name)) limit_names
    && all (λ feature. not (plan_has_feature old feature) || plan_has_feature new feature) features

plans_rise :
    (old new : PlanKey) → (not (leb (position old) (position new)) || gives_no_less old new) ≡ true
unfolding plan_limit plan_has_feature plan_features
plans_rise free free = refl
plans_rise free starter = refl
plans_rise free business = refl
plans_rise free pro = refl
plans_rise starter free = refl
plans_rise starter starter = refl
plans_rise starter business = refl
plans_rise starter pro = refl
plans_rise business free = refl
plans_rise business starter = refl
plans_rise business business = refl
plans_rise business pro = refl
plans_rise pro free = refl
plans_rise pro starter = refl
plans_rise pro business = refl
plans_rise pro pro = refl

check_of_higher :
    (old new : Option ℕ) (used requested : ℕ)
    → no_lower old new ≡ true
    → (check_of old used requested).allowed ≡ true
    → (check_of new used requested).allowed ≡ true
unfolding check_of
check_of_higher old none used requested higher may = refl
check_of_higher none (some new) used requested higher may = cc
check_of_higher (some old) (some new) used requested higher may = ground arith

implied : (a b : Bool) → (not a || b) ≡ true → a ≡ true → b ≡ true
implied true b h holds = h
implied false b h holds = cc

both : (a b : Bool) → (a && b) ≡ true → (a ≡ true) × (b ≡ true)
both true b h = (refl, h)
both false b h = cc

le→leb : {a b : ℕ} → a ≤ b → leb a b ≡ true
le→leb h = ground arith

-- A plan further up the list allows whatever a lower one allows, of every limit, and has its
-- features.
pub higher_plan_gives_more :
    (old new : PlanKey)
    → position old ≤ position new
    → ((name : LimitName) (used requested : ℕ)
        → (check_limit old name used requested).allowed ≡ true
        → (check_limit new name used requested).allowed ≡ true)
      × ((feature : PlanFeature)
          → plan_has_feature old feature ≡ true
          → plan_has_feature new feature ≡ true)
unfolding check_limit
higher_plan_gives_more old new up =
    let rise =
      implied (leb (position old) (position new)) (gives_no_less old new) (plans_rise old new)
        (le→leb up) in
    let (limits, held) =
      both (all (λ name. no_lower (plan_limit old name) (plan_limit new name)) limit_names) _
        rise in
    (
      λ name used requested.
          check_of_higher (plan_limit old name) (plan_limit new name) used requested
            (each_limit (λ name. no_lower (plan_limit old name) (plan_limit new name)) limits name),
      λ feature. implied (plan_has_feature old feature) (plan_has_feature new feature) (
          each_feature
            (λ feature. not (plan_has_feature old feature) || plan_has_feature new feature) held
            feature),
    )
