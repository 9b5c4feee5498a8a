-- ===== src/Lvm.antt =====
-- core/lvm
pub mod Bits
pub mod Attrs
pub mod Types
pub mod Reports
pub mod Commands
pub mod Methods
