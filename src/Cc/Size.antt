-- ===== src/Cc/Size.antt =====
-- The operand sizes of cc_helper_template.h, and the shift of vx64/qemu/target-i386/cpu.h.
use fist_ame.Base.{ℕ, ◌+◌, ◌-◌, ◌*◌, ◌/◌, ◌%◌, ◌^◌, ltb, if◌then◌else◌, w64}

-- SHIFT of 0, 1, 2 and 3.
pub data OpSize : Type 0 where
  byte word long quad : OpSize

abbrev pub data_bits : OpSize → ℕ
data_bits byte = 8
data_bits word = 16
data_bits long = 32
data_bits quad = 64

-- `DATA_MASK + 1`
abbrev pub data_size : OpSize → ℕ
data_size byte = 0x100
data_size word = 0x1_0000
data_size long = 0x1_0000_0000
data_size quad = 0x1_0000_0000_0000_0000

abbrev pub sign_mask : OpSize → ℕ
sign_mask byte = 0x80
sign_mask word = 0x8000
sign_mask long = 0x8000_0000
sign_mask quad = 0x8000_0000_0000_0000

-- `x << n` and `x >> n` of a `target_long`; the sign is shifted in.
abbrev pub shift_left : ℕ → ℕ → ℕ
shift_left x n = x * 2 ^ n % w64

abbrev pub shift_right : ℕ → ℕ → ℕ
shift_right x n =
    if ltb x 0x8000_0000_0000_0000 then x / 2 ^ n else x / 2 ^ n + (w64 - 2 ^ (64 - n))

-- `lshift(x, to - DATA_BITS)` for the two targets that the flags need, 8 and 12.
abbrev pub lshift_8 : OpSize → ℕ → ℕ
lshift_8 byte x = shift_left x 0
lshift_8 word x = shift_right x 8
lshift_8 long x = shift_right x 24
lshift_8 quad x = shift_right x 56

abbrev pub lshift_12 : OpSize → ℕ → ℕ
lshift_12 byte x = shift_left x 4
lshift_12 word x = shift_right x 4
lshift_12 long x = shift_right x 20
lshift_12 quad x = shift_right x 52
