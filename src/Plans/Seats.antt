-- ===== src/Plans/Seats.antt =====
-- The guard on seats and the members' page.
use Prim.Native.String.{String}
use whatsapp_os.Prelude.{
  ℕ, ◌+◌, ◌≤◌, ◌≡◌, ◌↔◌, refl, Bool, true, false, not, ◌||◌, List, [], ◌∷◌, Option, none, some, all,
  filter, length, ltb, or_else, arith, ◌==◌, if◌then◌else◌, sym,
}
use whatsapp_os.Prelude.Result.{Result, ok, err}
use whatsapp_os.Prelude.Table.{count_where}
use whatsapp_os.Members.{allowed, can_add_seat}
use whatsapp_os.Plans.{team_members, plan_limit, check_of, check_limit}
use whatsapp_os.Plans.Subscription.{SubscriptionRecord}
use whatsapp_os.Plans.Quota.{
  limit_exceeded, Tables, MemberRow, InviteRow, is_active_member, is_pending_invite,
  get_current_limit_usage, get_effective_plan_key, assert_within_plan_limit,
}
use whatsapp_os.Plans.Team.{list_members, list_pending_invites, can_invite}

abbrev pub is_ok {ℓ} : {E A : Type ℓ} → Result E A → Bool
is_ok (ok a) = true
is_ok (err e) = false

-- The workspace has no member that is suspended.
abbrev pub has_none_suspended : ℕ → List MemberRow → Bool
has_none_suspended ws = all (λ (row : MemberRow). not (row.workspace_id == ws) || row.is_active)

active_are_members :
    (ws : ℕ) (rows : List MemberRow)
    → count_where (is_active_member ws) rows ≤ length (list_members ws rows)
unfolding list_members
active_are_members ws [] = omega arith
active_are_members ws (row ∷ rows) = ground (arith, active_are_members ws rows)

members_are_active :
    (ws : ℕ) (rows : List MemberRow)
    → has_none_suspended ws rows ≡ true
    → count_where (is_active_member ws) rows ≡ length (list_members ws rows)
unfolding list_members
members_are_active ws [] none_suspended = refl
members_are_active ws (row ∷ rows) none_suspended = ground (arith, members_are_active ws rows)

invites_agree :
    (ws now : ℕ) (rows : List InviteRow)
    → count_where (is_pending_invite ws now) rows
      ≡ length (filter (λ (row : InviteRow). ltb now row.expires_at) (list_pending_invites ws rows))
unfolding list_pending_invites
invites_agree ws now [] = refl
invites_agree ws now (row ∷ rows) = ground (arith, invites_agree ws now rows)

abbrev guarded : Option ℕ → ℕ → Bool
guarded limit used = is_ok (
    if not (check_of limit used 1).allowed
    then err (limit_exceeded team_members (or_else (check_of limit used 1).limit 0))
    else ok (check_of limit used 1))

more_seats :
    (limit : Option ℕ) (active members pending : ℕ)
    → active ≤ members
    → can_add_seat members pending limit ≡ allowed
    → guarded limit (active + pending) ≡ true
unfolding check_of can_add_seat
more_seats none active members pending fewer free = refl
more_seats (some limit) active members pending fewer free = ground arith

same_seats :
    (limit : Option ℕ) (members pending : ℕ)
    → guarded limit (members + pending) ≡ true
    → can_add_seat members pending limit ≡ allowed
unfolding check_of can_add_seat
same_seats none members pending free = refl
same_seats (some limit) members pending free = ground arith

-- The guard counts no suspended member, and the page does: it offers another invite only where the
-- guard lets it through.
pub offered_is_let_through :
    (ws now : ℕ) (period_key : String) (subs : List SubscriptionRecord) (tables : Tables)
    → can_invite ws now subs tables ≡ allowed
    → is_ok (assert_within_plan_limit ws team_members 1 now period_key subs tables) ≡ true
unfolding assert_within_plan_limit get_current_limit_usage check_limit can_invite
offered_is_let_through ws now period_key subs tables =
    let limit = plan_limit (get_effective_plan_key ws now subs) team_members in
    rw (sym (invites_agree ws now tables.invites))
      (more_seats limit _ _ _ (active_are_members ws tables.members))

-- In a workspace with no suspended member, the guard on a new member or invite lets one more through
-- exactly where the members' page offers another invite.
pub seat_guard_agrees :
    (ws now : ℕ) (period_key : String) (subs : List SubscriptionRecord) (tables : Tables)
    → has_none_suspended ws tables.members ≡ true
    → (is_ok (assert_within_plan_limit ws team_members 1 now period_key subs tables) ≡ true)
      ↔ (can_invite ws now subs tables ≡ allowed)
unfolding assert_within_plan_limit get_current_limit_usage check_limit can_invite
seat_guard_agrees ws now period_key subs tables none_suspended =
    let limit = plan_limit (get_effective_plan_key ws now subs) team_members in
    let same =
      same_seats limit (length (list_members ws tables.members))
        (count_where (is_pending_invite ws now) tables.invites) in
    (
      λ let_through.
          rw (sym (invites_agree ws now tables.invites))
            (same (rw (sym (members_are_active ws tables.members none_suspended)) let_through)),
      offered_is_let_through ws now period_key subs tables,
    )
