-- ===== src/Authz.antt =====
-- server/authz/permissions.ts: which role holds which permission, and which role may act on which.
mod Catalogue
pub mod Matrix
mod Tests
unfoldable pub use Catalogue.*
use whatsapp_os.Prelude.{
  Bool, true, false, List, [], ◌∷◌, not, ltb, filter, all, any, if◌then◌else◌,
}

-- The source's guard for a role that is not in the table has no counterpart: every role is.
unfoldable pub role_has_permission : Role → Permission → Bool
unfolding has role_permissions
role_has_permission role permission = has (role_permissions role) permission

unfoldable pub role_has_all_permissions : Role → List Permission → Bool
unfolding role_has_permission
role_has_all_permissions role = all (role_has_permission role)

unfoldable pub role_has_any_permission : Role → List Permission → Bool
unfolding role_has_permission
role_has_any_permission role = any (role_has_permission role)

-- The source also guards against `indexOf` being -1, which no role of the union gives.
unfoldable pub outranks : Role → Role → Bool
outranks actor target = ltb (display_index actor) (display_index target)

unfoldable pub can_assign_role : Role → Role → Bool
unfolding role_has_permission outranks
can_assign_role actor target =
    if target is owner
    then false
    else if not (role_has_permission actor member_update_role)
    then false
    else outranks actor target

unfoldable pub can_remove_member : Role → Role → Bool
unfolding role_has_permission outranks
can_remove_member actor target =
    if target is owner
    then false
    else if not (role_has_permission actor member_remove)
    then false
    else outranks actor target

abbrev pub workspace_roles : List Role
workspace_roles = owner ∷ admin ∷ manager ∷ agent ∷ viewer ∷ []

unfoldable pub assignable_roles : List Role
assignable_roles = filter (λ role. not (role is owner)) workspace_roles
