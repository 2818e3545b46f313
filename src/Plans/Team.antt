-- ===== src/Plans/Team.antt =====
-- server/services/member/member.service.ts: whether the members' page offers another invite, with the
-- lists of server/repositories/member.repository.ts.
use whatsapp_os.Prelude.{ℕ, not, ◌&&◌, List, filter, ltb, ◌==◌, is_some, length}
use whatsapp_os.Members.{RuleResult, can_add_seat}
use whatsapp_os.Plans.{team_members, plan_limit}
use whatsapp_os.Plans.Subscription.{SubscriptionRecord}
use whatsapp_os.Plans.Quota.{Tables, MemberRow, InviteRow, get_effective_plan_key}

-- Whatever their status.
unfoldable pub list_members : ℕ → List MemberRow → List MemberRow
list_members workspace_id = filter (λ (row : MemberRow). row.workspace_id == workspace_id)

unfoldable pub list_pending_invites : ℕ → List InviteRow → List InviteRow
list_pending_invites workspace_id = filter (λ (row : InviteRow).
    row.workspace_id == workspace_id
    && (not (is_some row.accepted_at) && not (is_some row.revoked_at)))

-- `canInvite` of `getTeam`.
unfoldable pub can_invite : ℕ → ℕ → List SubscriptionRecord → Tables → RuleResult
can_invite workspace_id now subs tables =
    can_add_seat (length (list_members workspace_id tables.members))
      (length (
        filter (λ (row : InviteRow). ltb now row.expires_at)
          (list_pending_invites workspace_id tables.invites)))
      (plan_limit (get_effective_plan_key workspace_id now subs) team_members)
