-- ===== src/Api.antt =====
-- The interface of the library, vx64/vx64.c and vx64/vx64.h. `env` is the global CPU; each call
-- takes it and gives it back. The calls that only allocate and register memory regions are left
-- out.
pub mod Regs
pub mod Go
pub mod Points
pub use Regs.*
pub use Go.*
pub use Points.*
