-- ===== src/Core.antt =====
-- src/ipe/core/: the code that no layer depends on.
pub mod Common
