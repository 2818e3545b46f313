-- ===== src/Members/Tests.antt =====
-- The member rules at concrete members.
use whatsapp_os.Authz.{admin, manager}
use whatsapp_os.Members.{Facts}

abbrev boss : Facts
boss = record { role = admin; membership_id = 1 }

abbrev worker : Facts
worker = record { role = manager; membership_id = 2 }
