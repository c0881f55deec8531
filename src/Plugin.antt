-- ===== src/Plugin.antt =====
-- Model-thread state of the plug-in side (ara2-bridge-plugin).
pub mod Keys
pub mod Analysis
pub mod Updates
