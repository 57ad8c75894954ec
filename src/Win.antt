-- ===== src/Win.antt =====
-- catter-hook/win: the hook on Windows.
pub mod Quote
pub mod Environment
pub mod Detour
pub mod Launch
