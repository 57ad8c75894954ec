-- ===== src/Core.antt =====
-- catter/core: what the scripts that run in catter can call.
pub mod Files
