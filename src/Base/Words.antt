-- ===== src/Base/Words.antt =====
-- 64-bit words: wrap-around sums, complements, and the page arithmetic of the emulator.
use Prim.Native.Nat.{ℕ, ◌+◌, ◌-◌, ◌*◌, ◌%◌, ◌<◌, bit_and}
use mathlib.Core.Path.{◌≡◌}
use native.Mathlib.Omega.{arith}
use fist_ame.Base.Bits.{bit_and_mask, bit_and_high, bit_and_flag, bit, bit_and-zero}

abbrev pub w64 : ℕ
w64 = 0x1_0000_0000_0000_0000

abbrev pub w32 : ℕ
w32 = 0x1_0000_0000

abbrev pub add64 : ℕ → ℕ → ℕ
add64 a b = (a + b) % w64

-- `a - b` on words below `w64`.
abbrev pub sub64 : ℕ → ℕ → ℕ
sub64 a b = (a + w64 - b) % w64

-- `~a` on words below `w64`.
abbrev pub not64 : ℕ → ℕ
not64 a = 0xffff_ffff_ffff_ffff - a

-- `(target_ulong)-1`
abbrev pub minus_one : ℕ
minus_one = 0xffff_ffff_ffff_ffff

abbrev pub target_page_bits : ℕ
target_page_bits = 12

abbrev pub target_page_size : ℕ
target_page_size = 0x1000

-- `~(TARGET_PAGE_SIZE - 1)`, extended to 64 bits.
abbrev pub target_page_mask : ℕ
target_page_mask = 0xffff_ffff_ffff_f000

pub page_mask_lem : (a : ℕ) → a < w64 → bit_and a target_page_mask ≡ a - a % 0x1000
page_mask_lem a h =
    omega (arith, bit_and_high 12 64 a 0 (omega arith) h (omega arith), bit_and-zero a)

-- The mask that a TLB comparator is read through: the page and the invalid bit.
pub page_invalid_mask_lem :
    (a : ℕ) → a < w64 → bit_and a 0xffff_ffff_ffff_f008 ≡ a - a % 0x1000 + bit a 3 * 8
page_invalid_mask_lem a h =
    omega (arith, bit_and_high 12 64 a 8 (omega arith) h (omega arith), bit_and_flag 3 a)

pub low_8_lem : (a : ℕ) → bit_and a 0xff ≡ a % 0x100
low_8_lem a = bit_and_mask 8 a
