-- ===== src/Tcg.antt =====
-- The intermediate code of vx64/qemu/tcg and its optimiser, tcg/optimize.c, for a host of 64 bits.
pub mod Op
pub mod Meaning
pub mod Fold
pub mod Temps
pub mod Optimize
pub mod Exec
pub use Op.*
pub use Meaning.*
pub use Fold.*
pub use Temps.*
pub use Optimize.*
pub use Exec.*
