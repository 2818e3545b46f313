-- ===== src/Members.antt =====
-- server/domain/member-rules.ts: what one member may do to another, seats, and invites.
-- Ids are numbers, moments are milliseconds, and a refusal names its message.
pub mod Laws
mod Tests
use whatsapp_os.Prelude.{
  ℕ, ◌+◌, Bool, true, false, not, ◌&&◌, List, [], Option, none, some, ltb, leb, ◌==◌, length,
  filter, is_some, if◌then◌else◌,
}
use whatsapp_os.Authz.{
  Role, owner, ◌is◌, role_has_permission, member_update_role, member_remove,
  workspace_transfer_ownership, outranks, can_assign_role, can_remove_member, assignable_roles,
}

-- The refusals, one for each message of the source.
pub data Reason : Type 0 where
  cannot_change_roles own_role ownership_separate last_owner owner_role_fixed : Reason
  role_not_below already_their_role role_too_high : Reason
  cannot_remove_members yourself owner_not_removable not_below : Reason
  owner_only already_yours suspended_member : Reason
  only_owner seats_full : Reason

pub data RuleResult : Type 0 where
  allowed : RuleResult
  deny : Reason → RuleResult

abbrev pub is_allowed : RuleResult → Bool
is_allowed allowed = true
is_allowed (deny reason) = false

-- `ActorFacts` and `TargetFacts`, which have the same fields.
pub record Facts : Type 0 where
  pub role : Role
  pub membership_id : ℕ

pub data Status : Type 0 where
  active suspended : Status

abbrev pub is_active : Status → Bool
is_active active = true
is_active suspended = false

unfoldable pub can_change_role : Facts → Facts → Role → ℕ → RuleResult
unfolding role_has_permission outranks can_assign_role
can_change_role actor target next active_owner_count =
    if not (role_has_permission actor.role member_update_role)
    then deny cannot_change_roles
    else if actor.membership_id == target.membership_id
    then deny own_role
    else if next is owner
    then deny ownership_separate
    else if target.role is owner
    then (if leb active_owner_count 1 then deny last_owner else deny owner_role_fixed)
    else if not (outranks actor.role target.role)
    then deny role_not_below
    else if target.role is next
    then deny already_their_role
    else if not (can_assign_role actor.role next)
    then deny role_too_high
    else allowed

unfoldable pub can_remove : Facts → Facts → RuleResult
unfolding role_has_permission can_remove_member
can_remove actor target =
    if not (role_has_permission actor.role member_remove)
    then deny cannot_remove_members
    else if actor.membership_id == target.membership_id
    then deny yourself
    else if target.role is owner
    then deny owner_not_removable
    else if not (can_remove_member actor.role target.role)
    then deny not_below
    else allowed

unfoldable pub can_transfer_ownership : Facts → Facts → Status → RuleResult
unfolding role_has_permission
can_transfer_ownership actor target status =
    if not (role_has_permission actor.role workspace_transfer_ownership)
    then deny owner_only
    else if actor.membership_id == target.membership_id
    then deny already_yours
    else if not (is_active status)
    then deny suspended_member
    else allowed

unfoldable pub can_leave : Facts → ℕ → RuleResult
can_leave actor active_owner_count =
    if (actor.role is owner) && leb active_owner_count 1 then deny only_owner else allowed

pub record MemberCapabilities : Type 0 where
  pub change_role : Bool
  pub suspend : Bool
  pub remove : Bool
  pub transfer_ownership : Bool
  pub assignable : List Role

unfoldable pub capabilities_for : Facts → Facts → Status → ℕ → MemberCapabilities
unfolding assignable_roles can_change_role can_remove can_transfer_ownership
capabilities_for actor target status owners =
    let roles =
      filter (λ role. is_allowed (can_change_role actor target role owners)) assignable_roles in
    let removable = is_allowed (can_remove actor target) in
    record {
      change_role = ltb 0 (length roles);
      suspend = removable;
      remove = removable;
      transfer_ownership = is_allowed (can_transfer_ownership actor target status);
      assignable = roles;
    }

-- `none` is the source's null: no limit.
unfoldable pub can_add_seat : ℕ → ℕ → Option ℕ → RuleResult
can_add_seat member_count pending_invite_count none = allowed
can_add_seat member_count pending_invite_count (some max_seats) =
    let used = member_count + pending_invite_count in
    if leb max_seats used then deny seats_full else allowed

pub data InviteState : Type 0 where
  valid expired accepted revoked : InviteState

pub record Invite : Type 0 where
  pub expires_at : ℕ
  pub accepted_at : Option ℕ
  pub revoked_at : Option ℕ

unfoldable pub classify_invite : Invite → ℕ → InviteState
classify_invite invite now =
    if is_some invite.revoked_at
    then revoked
    else if is_some invite.accepted_at
    then accepted
    else if leb invite.expires_at now
    then expired
    else valid
