-- ===== src/Authz/Catalogue.antt =====
-- The permission catalogue of server/authz/permissions.ts: roles, permissions, and the list that
-- each role holds. A permission is a constructor for each string of the source's union.
use whatsapp_os.Prelude.{ℕ, Bool, List, [], ◌∷◌, ◌++◌, any, ◌==◌}

pub data Role : Type 0 where
  owner admin manager agent viewer : Role

-- The place of a role in `ROLE_DISPLAY_ORDER`, the most privileged first: `indexOf` of the source.
abbrev pub display_index : Role → ℕ
display_index owner = 0
display_index admin = 1
display_index manager = 2
display_index agent = 3
display_index viewer = 4

-- `a === b` on roles.
infix 50 ◌is◌
abbrev pub ◌is◌ : Role → Role → Bool
a is b = display_index a == display_index b

pub data Permission : Type 0 where
  workspace_read workspace_update workspace_delete workspace_transfer_ownership : Permission
  business_profile_read business_profile_update member_read member_invite member_update_role :
      Permission
  member_remove subscription_read subscription_manage usage_read whatsapp_read : Permission
  whatsapp_connect whatsapp_disconnect conversation_read conversation_read_all : Permission
  conversation_reply conversation_assign conversation_update_status conversation_toggle_ai :
      Permission
  conversation_delete contact_read contact_create contact_update contact_delete : Permission
  contact_export product_read product_create product_update product_delete inventory_read :
      Permission
  inventory_update order_read order_create order_update order_update_status order_cancel :
      Permission
  order_refund order_delete payment_read payment_verify payment_refund agent_read : Permission
  agent_update agent_test knowledge_read knowledge_create knowledge_update knowledge_delete :
      Permission
  automation_read automation_create automation_update automation_delete campaign_read : Permission
  campaign_create campaign_send template_read template_manage appointment_read : Permission
  appointment_create appointment_update appointment_cancel analytics_read : Permission
  analytics_read_advanced audit_log_read audit_log_export integration_read integration_manage :
      Permission

-- The place of a permission in `PERMISSIONS`, by which two are compared.
abbrev pub index : Permission → ℕ
index workspace_read = 0
index workspace_update = 1
index workspace_delete = 2
index workspace_transfer_ownership = 3
index business_profile_read = 4
index business_profile_update = 5
index member_read = 6
index member_invite = 7
index member_update_role = 8
index member_remove = 9
index subscription_read = 10
index subscription_manage = 11
index usage_read = 12
index whatsapp_read = 13
index whatsapp_connect = 14
index whatsapp_disconnect = 15
index conversation_read = 16
index conversation_read_all = 17
index conversation_reply = 18
index conversation_assign = 19
index conversation_update_status = 20
index conversation_toggle_ai = 21
index conversation_delete = 22
index contact_read = 23
index contact_create = 24
index contact_update = 25
index contact_delete = 26
index contact_export = 27
index product_read = 28
index product_create = 29
index product_update = 30
index product_delete = 31
index inventory_read = 32
index inventory_update = 33
index order_read = 34
index order_create = 35
index order_update = 36
index order_update_status = 37
index order_cancel = 38
index order_refund = 39
index order_delete = 40
index payment_read = 41
index payment_verify = 42
index payment_refund = 43
index agent_read = 44
index agent_update = 45
index agent_test = 46
index knowledge_read = 47
index knowledge_create = 48
index knowledge_update = 49
index knowledge_delete = 50
index automation_read = 51
index automation_create = 52
index automation_update = 53
index automation_delete = 54
index campaign_read = 55
index campaign_create = 56
index campaign_send = 57
index template_read = 58
index template_manage = 59
index appointment_read = 60
index appointment_create = 61
index appointment_update = 62
index appointment_cancel = 63
index analytics_read = 64
index analytics_read_advanced = 65
index audit_log_read = 66
index audit_log_export = 67
index integration_read = 68
index integration_manage = 69

unfoldable pub viewer_permissions : List Permission
viewer_permissions =
    workspace_read ∷ business_profile_read ∷ member_read ∷ whatsapp_read ∷ conversation_read
    ∷ conversation_read_all ∷ contact_read ∷ product_read ∷ inventory_read ∷ order_read
    ∷ payment_read ∷ agent_read ∷ knowledge_read ∷ automation_read ∷ campaign_read ∷ template_read
    ∷ appointment_read ∷ analytics_read ∷ []

unfoldable pub agent_permissions : List Permission
agent_permissions =
    workspace_read ∷ business_profile_read ∷ member_read ∷ whatsapp_read ∷ conversation_read
    ∷ conversation_reply ∷ conversation_update_status ∷ conversation_toggle_ai ∷ contact_read
    ∷ contact_create ∷ contact_update ∷ product_read ∷ inventory_read ∷ order_read ∷ order_create
    ∷ payment_read ∷ agent_read ∷ knowledge_read ∷ appointment_read ∷ appointment_create
    ∷ appointment_update ∷ []

unfoldable pub manager_permissions : List Permission
unfolding agent_permissions
manager_permissions =
    agent_permissions
    ++ (conversation_read_all ∷ conversation_assign ∷ contact_delete ∷ contact_export
        ∷ product_create ∷ product_update ∷ product_delete ∷ inventory_update ∷ order_update
        ∷ order_update_status ∷ order_cancel ∷ payment_verify ∷ agent_update ∷ agent_test
        ∷ knowledge_create ∷ knowledge_update ∷ knowledge_delete ∷ automation_read
        ∷ automation_create ∷ automation_update ∷ campaign_read ∷ campaign_create ∷ template_read
        ∷ analytics_read ∷ appointment_cancel ∷ [])

unfoldable pub admin_permissions : List Permission
unfolding manager_permissions
admin_permissions =
    manager_permissions
    ++ (workspace_update ∷ business_profile_update ∷ member_invite ∷ member_update_role
        ∷ member_remove ∷ subscription_read ∷ usage_read ∷ whatsapp_connect ∷ whatsapp_disconnect
        ∷ conversation_delete ∷ order_refund ∷ payment_refund ∷ automation_delete ∷ campaign_send
        ∷ template_manage ∷ analytics_read_advanced ∷ audit_log_read ∷ integration_read
        ∷ integration_manage ∷ [])

unfoldable pub owner_permissions : List Permission
unfolding admin_permissions
owner_permissions =
    admin_permissions
    ++ (workspace_delete ∷ workspace_transfer_ownership ∷ subscription_manage ∷ order_delete
        ∷ audit_log_export ∷ [])

-- `ROLE_PERMISSIONS[role]`.
unfoldable pub role_permissions : Role → List Permission
unfolding owner_permissions viewer_permissions
role_permissions owner = owner_permissions
role_permissions admin = admin_permissions
role_permissions manager = manager_permissions
role_permissions agent = agent_permissions
role_permissions viewer = viewer_permissions

-- `set.has(permission)`.
unfoldable pub has : List Permission → Permission → Bool
has granted p = any (λ q. index q == index p) granted
