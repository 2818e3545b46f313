-- ===== src/Members/Laws.antt =====
-- The rules of server/domain/member-rules.ts, each against an independent description.
use whatsapp_os.Prelude.{
  ℕ, ◌+◌, ◌≤◌, ◌<◌, ◌≡◌, ◌≢◌, ◌↔◌, refl, true, false, ◌||◌, any, filter, ltb, length, Bool, none,
  some, arith,
}
use whatsapp_os.Authz.{Role, owner, admin, workspace_roles, assignable_roles, ◌is◌, display_index}
use whatsapp_os.Members.{
  allowed, deny, is_allowed, Facts, Status, can_change_role, can_remove, can_transfer_ownership,
  can_leave, capabilities_for, can_add_seat, only_owner, valid, revoked, Invite, classify_invite,
}

abbrev pub Manages : Role → Role → Type 0
Manages a b = ((a is owner || a is admin) ≡ true) × (display_index a < display_index b)

-- A role may be changed exactly when an owner or an admin acts on somebody else, strictly below
-- them before and after the change, and the role is a new one; the owner count never allows it.
pub can_change_role_iff :
    (actor target : Facts) (next : Role) (owners : ℕ)
    → (can_change_role actor target next owners ≡ allowed) ↔ (
        Manages actor.role target.role
        × Manages actor.role next
        × (actor.membership_id ≢ target.membership_id)
        × ((target.role is next) ≡ false))
unfolding can_change_role
can_change_role_iff actor target next owners = ground arith

-- A member may be removed exactly when an owner or an admin acts on somebody else strictly below.
pub can_remove_iff :
    (actor target : Facts)
    → (can_remove actor target ≡ allowed)
      ↔ (Manages actor.role target.role × (actor.membership_id ≢ target.membership_id))
unfolding can_remove
can_remove_iff actor target = ground arith

-- No detour: whoever may change a member's role and then remove the member in the new role could
-- have removed them at once.
pub no_demote_then_remove :
    (actor target : Facts) (next : Role) (owners : ℕ)
    → can_change_role actor target next owners ≡ allowed
    → can_remove actor (record target { role = next }) ≡ allowed
    → can_remove actor target ≡ allowed
no_demote_then_remove actor target next owners change removal =
    let (below, _, other, _) = (can_change_role_iff actor target next owners).0 change in
    (can_remove_iff actor target).1 (below, other)

-- The last owner cannot leave, and anybody else can.
pub can_leave_iff :
    (actor : Facts) (owners : ℕ)
    → (can_leave actor owners ≡ deny only_owner) ↔ ((actor.role ≡ owner) × (owners ≤ 1))
unfolding can_leave
can_leave_iff actor owners = ground arith

module _ (may : Role → Bool) (not_owner : may owner ≡ false) where
  any-filter_role :
      (next : Role) → any (λ role. role is next) (filter may assignable_roles) ≡ may next
  unfolding assignable_roles
  any-filter_role owner = ground arith
  any-filter_role _ = ground arith

  some_role_iff : ltb 0 (length (filter may assignable_roles)) ≡ any may workspace_roles
  unfolding assignable_roles
  some_role_iff = ground arith

owner_never_set :
    (actor target : Facts) (owners : ℕ)
    → is_allowed (can_change_role actor target owner owners) ≡ false
unfolding can_change_role
owner_never_set actor target owners = ground arith

-- The role list offered for a member, and each flag, agree with the rule that is enforced: a role
-- is in the list exactly when it may be set, `change_role` says whether there is one, and the
-- other flags are the rules asked in advance.
pub capabilities_agree :
    (actor target : Facts) (status : Status) (owners : ℕ) (next : Role)
    → let can = capabilities_for actor target status owners in
      (any (λ role. role is next) can.assignable
        ≡ is_allowed (can_change_role actor target next owners))
      × (can.change_role
          ≡ any (λ role. is_allowed (can_change_role actor target role owners)) workspace_roles)
      × (can.remove ≡ is_allowed (can_remove actor target))
      × (can.suspend ≡ can.remove)
      × (can.transfer_ownership ≡ is_allowed (can_transfer_ownership actor target status))
unfolding capabilities_for
capabilities_agree actor target status owners next =
    let may = λ (role : Role). is_allowed (can_change_role actor target role owners) in
    let no_owner = owner_never_set actor target owners in
    (any-filter_role may no_owner next, some_role_iff may no_owner, refl, refl, refl)

-- With a limit, a seat is free exactly while members and pending invites together are fewer.
pub can_add_seat_iff :
    (members pending seats : ℕ)
    → (can_add_seat members pending (some seats) ≡ allowed) ↔ (members + pending < seats)
unfolding can_add_seat
can_add_seat_iff members pending seats = ground arith

-- An invite is usable exactly when it is neither revoked nor accepted and has not expired, and a
-- revoked one reports revoked whatever else holds.
pub classify_invite_iff :
    (invite : Invite) (now : ℕ)
    → ((classify_invite invite now ≡ valid)
        ↔ ((invite.revoked_at ≡ none) × (invite.accepted_at ≡ none) × (now < invite.expires_at)))
      × ((classify_invite invite now ≡ revoked) ↔ (invite.revoked_at ≢ none))
unfolding classify_invite
classify_invite_iff invite now = ground arith
