-- ===== src/Tcg/Exec/Typed.antt =====
-- Operations that are well typed: their temporaries exist and have the types of the opcode.
use fist_ame.Base.{w64, ℕ, ◌+◌, ◌≤◌, ◌<◌, ◌≡◌, List, [], ◌∷◌}
use fist_ame.Tcg.Op.{
  Width, op_bits, Unary, Op, i64, op_ext32s, op_ext32u, nop, movi, mov, unary_op, binary_op,
  deposit, setcond, movcond, brcond, br, set_label, call, other,
}
use fist_ame.Tcg.Temps.{Context}

-- A temporary of a type.
pub record Has (s : Context) (w : Width) (x : ℕ) : Type 0 where
  pub lt : x < s.nb_temps
  pub type : s.type x ≡ w

-- A source that may be cut to 32 bits: of any type for a 32-bit operation.
pub record HasWord (s : Context) (w : Width) (x : ℕ) : Type 0 where
  pub lt : x < s.nb_temps
  pub type : w ≡ i64 → s.type x ≡ i64

-- The extensions of 32 bits read a temporary of any type, and give 64 bits.
abbrev pub HasSource : Context → Width → Unary → ℕ → Type 0
HasSource s w op_ext32s x = (w ≡ i64) × (x < s.nb_temps)
HasSource s w op_ext32u x = (w ≡ i64) × (x < s.nb_temps)
HasSource s w _ x = Has s w x

abbrev pub AllTemps : Context → List ℕ → Type 0
AllTemps s [] = Unit
AllTemps s (x ∷ xs) = (x < s.nb_temps) × AllTemps s xs

abbrev pub IsTyped : Context → Op → Type 0
IsTyped s nop = Unit
IsTyped s (movi w dst val) = Has s w dst × (val < w64)
IsTyped s (mov w dst src) = Has s w dst × HasWord s w src
IsTyped s (unary_op w f dst a) = Has s w dst × HasSource s w f a
IsTyped s (binary_op w f dst a b) = Has s w dst × Has s w a × Has s w b
IsTyped s (deposit w dst a b ofs len) =
    Has s w dst × Has s w a × Has s w b × (0 < len) × (ofs + len ≤ op_bits w)
IsTyped s (setcond w dst a b c) = Has s w dst × Has s w a × Has s w b
IsTyped s (movcond w dst a b v1 v2 c) =
    Has s w dst × Has s w a × Has s w b × Has s w v1 × Has s w v2
IsTyped s (brcond w a b c label) = Has s w a × Has s w b
IsTyped s (br label) = Unit
IsTyped s (set_label label) = Unit
IsTyped s (call outs ins flags cargs) = AllTemps s outs × AllTemps s ins
IsTyped s (other def outs ins cargs) = AllTemps s outs × AllTemps s ins
