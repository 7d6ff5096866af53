-- ===== src/Mmu.antt =====
-- The page walk: `cpu_x86_handle_mmu_fault` of vx64/qemu/target-i386/helper.c.
pub mod Entry
pub mod Walk
pub use Entry.*
pub use Walk.*
