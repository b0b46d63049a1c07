-- ===== src/Agent.antt =====
-- The Lambda extension, package main of extension-go/.
pub mod Config
pub mod Tests
