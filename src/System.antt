-- ===== src/System.antt =====
-- core/system
pub mod Settings
pub mod Config
pub mod Grub
