-- ===== src/Plans/Lifecycle.antt =====
-- The plan of a workspace over time: the trial, the end of a period, and the owner's changes.
use whatsapp_os.Prelude.{
  ℕ, ◌+◌, ◌*◌, ◌≤◌, ◌≡◌, refl, ◌⊎◌, true, false, List, Option, none, some, arith, leb, ltb,
  if◌then◌else◌, inl, ◌∙◌,
}
use whatsapp_os.Prelude.Result.{ok}
use whatsapp_os.Prelude.Table.{update_many, find-update_many, find_holds}
use whatsapp_os.Authz.{Role, role_has_permission, subscription_read, subscription_manage}
use whatsapp_os.Plans.{free, business, get_plan_key}
use whatsapp_os.Plans.Subscription.{
  active, SubscriptionRecord, effective_of, resolve_effective_plan_key, is_of, find_subscription,
  day_ms, default_trial, ensure_workspace_subscription, with_cancellation, Overview, overview_of,
  get_subscription_overview, resume_subscription,
}

-- While the subscription is not written, time leaves the plan as it is or brings it down to the free
-- one, and never back up.
pub effective_plan_over_time :
    (sub : Option SubscriptionRecord) (now later : ℕ)
    → now ≤ later
    → ((resolve_effective_plan_key sub later ≡ resolve_effective_plan_key sub now)
        ⊎ (resolve_effective_plan_key sub later ≡ free))
unfolding resolve_effective_plan_key effective_of
effective_plan_over_time none now later after = inl refl
effective_plan_over_time (some sub) now later after = ground arith

trial_plan :
    (ws start now : ℕ)
    → effective_of (default_trial ws start) now
      ≡ (if ltb (start + 14 * day_ms) now then free else business)
unfolding effective_of get_plan_key
trial_plan ws start now = refl

-- A workspace without a subscription gets the business plan for fourteen days from the first time
-- it is asked for, and the free plan after them.
pub default_trial_lasts :
    (ws start now : ℕ) (subs : List SubscriptionRecord)
    → find_subscription ws subs ≡ none
    → effective_of (ensure_workspace_subscription ws start subs).0 now
      ≡ (if leb now (start + 14 * 86400000) then business else free)
unfolding ensure_workspace_subscription effective_of get_plan_key
default_trial_lasts ws start now subs missing =
    let started : (ensure_workspace_subscription ws start subs).0 ≡ default_trial ws start =
      rw (ensure_workspace_subscription, missing) refl in
    rw started (ground (arith, trial_plan ws start now))

found-written :
    (ws : ℕ) (f : SubscriptionRecord → SubscriptionRecord) (subs : List SubscriptionRecord)
    → ((sub : SubscriptionRecord) → (f sub).workspace_id ≡ sub.workspace_id)
    → (sub : SubscriptionRecord) → find_subscription ws subs ≡ some sub
    → find_subscription ws (update_many (is_of ws) f subs) ≡ some (f sub)
unfolding find_subscription
found-written ws f subs same sub found =
    find-update_many (is_of ws) (is_of ws) f subs (λ row. rw (same row) refl)
    ∙ ground (arith, found, find_holds (is_of ws) subs found)

ensure_found :
    (ws now : ℕ) (subs : List SubscriptionRecord) (sub : SubscriptionRecord)
    → find_subscription ws subs ≡ some sub
    → ensure_workspace_subscription ws now subs ≡ (sub, subs)
unfolding ensure_workspace_subscription
ensure_found ws now subs sub found = rw (ensure_workspace_subscription, found) refl

running_plan :
    (sub : SubscriptionRecord) (now : ℕ)
    → sub.status ≡ active
    → effective_of (with_cancellation false now sub) now ≡ get_plan_key sub.plan_key
unfolding effective_of
running_plan sub now running = rw running refl

-- Whoever may manage and read the subscription and resumes an active one has its plan again, even
-- if it was cancelled and its period has ended.
pub resume_subscription_restores :
    (role : Role) (ws now : ℕ) (subs : List SubscriptionRecord) (sub : SubscriptionRecord)
    → role_has_permission role subscription_manage ≡ true
    → role_has_permission role subscription_read ≡ true
    → find_subscription ws subs ≡ some sub
    → sub.status ≡ active
    → (overview : Overview) × ((resume_subscription role ws now subs).0 ≡ ok overview)
      × (overview.effective_plan_key ≡ get_plan_key sub.plan_key)
unfolding resume_subscription get_subscription_overview overview_of
resume_subscription_restores role ws now subs sub may_manage may_read found running =
    let again = with_cancellation false now sub in
    let written = found-written ws (with_cancellation false now) subs (λ row. refl) sub found in
    (
      overview_of again now,
      rw (resume_subscription, ensure_found ws now subs sub found)
          (rw may_manage (
            rw (get_subscription_overview, ensure_found ws now _ again written)
              (rw may_read refl))),
      running_plan sub now running,
    )
