-- ===== src/Cpu.antt =====
-- `CPUX86State` of vx64/qemu/target-i386/cpu.h and `CPU_COMMON` of
-- vx64/qemu/include/exec/cpu-defs.h: the fields that the modelled functions read or write.
mod Consts
mod State
pub use Consts.*
pub use State.*
