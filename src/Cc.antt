-- ===== src/Cc.antt =====
-- The condition codes: vx64/qemu/target-i386/cc_helper.c and cc_helper_template.h, which compute the
-- flags from the operation that set them last, its result CC_DST and one operand CC_SRC.
pub mod Parity
pub mod Size
pub mod Compute
pub mod Saved
pub use Parity.*
pub use Size.*
pub use Compute.*
