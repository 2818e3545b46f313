-- ===== src/Authz/Tests.antt =====
-- The permission catalogue at concrete roles.
