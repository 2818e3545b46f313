-- ===== src/Authz/Matrix.antt =====
-- What the role matrix of server/authz/permissions.ts grants.
use whatsapp_os.Prelude.{◌≡◌, ◌↔◌, refl, true, false, not, ◌||◌, List, [], ◌∷◌, arith}
use whatsapp_os.Authz.{
  Role, owner, admin, manager, agent, viewer, ◌is◌, Permission, workspace_read, workspace_delete,
  workspace_transfer_ownership, subscription_manage, order_delete, audit_log_export, has,
  role_has_permission, outranks, can_assign_role, can_remove_member,
}

-- OWNER holds every permission of the catalogue.
pub owner_holds_all : (p : Permission) → role_has_permission owner p ≡ true
unfolding role_has_permission
owner_holds_all workspace_read = refl
owner_holds_all _ = refl

abbrev pub owner_only : List Permission
owner_only =
    workspace_delete ∷ workspace_transfer_ownership ∷ subscription_manage ∷ order_delete
    ∷ audit_log_export ∷ []

-- ADMIN holds exactly the permissions outside five: deleting the workspace, transferring it,
-- managing the subscription, deleting an order, and exporting the audit log.
pub admin_lacks_owner_only : (p : Permission) → role_has_permission admin p ≡ not (has owner_only p)
unfolding role_has_permission
admin_lacks_owner_only workspace_read = refl
admin_lacks_owner_only _ = refl

manager_of_agent :
    (p : Permission) → role_has_permission agent p ≡ true → role_has_permission manager p ≡ true
unfolding role_has_permission
manager_of_agent workspace_read h = refl
manager_of_agent _ h = ground arith

manager_of_viewer :
    (p : Permission) → role_has_permission viewer p ≡ true → role_has_permission manager p ≡ true
unfolding role_has_permission
manager_of_viewer workspace_read h = refl
manager_of_viewer _ h = ground arith

admin_of_manager :
    (p : Permission) → role_has_permission manager p ≡ true → role_has_permission admin p ≡ true
unfolding role_has_permission
admin_of_manager workspace_read h = refl
admin_of_manager _ h = ground arith

-- A role that outranks another holds all that the other holds, unless the higher role is AGENT.
pub outranks_holds_more :
    (a b : Role) (p : Permission)
    → outranks a b ≡ true
    → (a is agent) ≡ false
    → role_has_permission b p ≡ true
    → role_has_permission a p ≡ true
unfolding outranks
outranks_holds_more owner b p above h held = owner_holds_all p
outranks_holds_more admin manager p above h held = admin_of_manager p held
outranks_holds_more admin agent p above h held = admin_of_manager p (manager_of_agent p held)
outranks_holds_more admin viewer p above h held = admin_of_manager p (manager_of_viewer p held)
outranks_holds_more manager agent p above h held = manager_of_agent p held
outranks_holds_more manager viewer p above h held = manager_of_viewer p held
outranks_holds_more _ _ p above h held = absurd (ground arith)

-- A role may be granted, and a member of it removed, by an owner or an admin that outranks it, and
-- by nobody else; so OWNER is never granted and an owner never removed.
pub can_assign_iff :
    (actor target : Role)
    → ((can_assign_role actor target ≡ true)
        ↔ (((actor is owner || actor is admin) ≡ true) × (outranks actor target ≡ true)))
      × ((can_remove_member actor target ≡ true)
          ↔ (((actor is owner || actor is admin) ≡ true) × (outranks actor target ≡ true)))
unfolding can_assign_role can_remove_member
can_assign_iff actor target = ground arith
