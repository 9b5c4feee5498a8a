-- ===== src/Disk.antt =====
-- core/disk
pub mod Types
pub mod Partition
pub mod Label
pub mod Filesystem
pub mod Fields
pub mod Images
pub mod Sectors
pub mod Table
