-- ===== src/Tcg/Exec.antt =====
-- What running an operation of the intermediate code does to the temporaries, after tcg/README. Helpers
-- and the operations that the optimiser does not look into are a parameter, the world.
pub mod Order
pub mod Typed
use fist_ame.Base.{
  ◌==◌, false, nz, if◌then◌else◌, update, ℕ, zero, suc, ◌+◌, ◌*◌, ◌/◌, ◌%◌, ◌^◌, bit_and, Bool, not,
  List, [], ◌∷◌, map,
}
use fist_ame.Tcg.Op.{
  Width, Op, nop, movi, mov, unary_op, binary_op, deposit, setcond, movcond, brcond, br, set_label,
  call, other,
}
use fist_ame.Tcg.Meaning.{words, unary, binary, holds}
use fist_ame.Tcg.Temps.{Context}

-- What calls and other operations do with the values of their inputs and constants; the other operations
-- say too whether the block is left (exit_tb, goto_tb). A call also
-- reads the globals and may write them.
pub record World (M : Type 0) : Type 0 where
  pub run : ℕ → List ℕ → List ℕ → M → Bool × List ℕ × M
  pub run_call : List ℕ → List ℕ → (ℕ → ℕ) → M → (ℕ → ℕ) × List ℕ × M

pub data Outcome (M : Type 0) : Type 0 where
  next : (ℕ → ℕ) → M → Outcome M
  jump : ℕ → (ℕ → ℕ) → M → Outcome M
  leave : (ℕ → ℕ) → M → Outcome M

abbrev pub values : {M : Type 0} → Outcome M → ℕ → ℕ
values (next vals m) = vals
values (jump label vals m) = vals
values (leave vals m) = vals

-- Whether an operation is the place of a label.
abbrev pub is_label : ℕ → Op → Bool
is_label label (set_label k) = k == label
is_label label _ = false

-- The word that an operation of a width reads.
abbrev pub read : Width → (ℕ → ℕ) → ℕ → ℕ
read w vals a = vals a % words w

-- The outputs get their results, cut to the type; a result that is missing is 0.
unfoldable pub set_outs : Context → (ℕ → ℕ) → List ℕ → List ℕ → ℕ → ℕ
set_outs s vals [] rs = vals
set_outs s vals (o ∷ os) [] = set_outs s (update vals o 0) os []
set_outs s vals (o ∷ os) (r ∷ rs) = set_outs s (update vals o (r % words (s.type o))) os rs

-- A call that may write the globals leaves words in them.
unfoldable pub set_globals : Context → (ℕ → ℕ) → (ℕ → ℕ) → ℕ → ℕ → ℕ
set_globals s vals new zero = vals
set_globals s vals new (suc i) = update (set_globals s vals new i) i (new i % words (s.type i))

-- The low `len` bits of `y` in place of those of `x` from `ofs` on.
abbrev pub with_field : ℕ → ℕ → ℕ → ℕ → ℕ
with_field ofs len x y = x % 2 ^ ofs + y % 2 ^ len * 2 ^ ofs + x / 2 ^ (ofs + len) * 2 ^ (ofs + len)

module _ {M : Type 0} (world : World M) (s : Context) where
  unfoldable pub exec : Op → (ℕ → ℕ) → M → Outcome M
  unfolding unary binary holds
  exec nop vals m = next vals m
  exec (movi w dst val) vals m = next (update vals dst (val % words w)) m
  exec (mov w dst src) vals m = next (update vals dst (read w vals src)) m
  exec (unary_op w f dst a) vals m = next (update vals dst (unary w f (read w vals a))) m
  exec (binary_op w f dst a b) vals m =
      next (update vals dst (binary w f (read w vals a) (read w vals b))) m
  exec (deposit w dst a b ofs len) vals m =
      next (update vals dst (with_field ofs len (read w vals a) (read w vals b))) m
  exec (setcond w dst a b c) vals m =
      next (update vals dst (if holds w c (read w vals a) (read w vals b) then 1 else 0)) m
  exec (movcond w dst a b v1 v2 c) vals m =
      next
        (update vals dst
          (if holds w c (read w vals a) (read w vals b) then read w vals v1 else read w vals v2))
        m
  exec (brcond w a b c label) vals m =
      if holds w c (read w vals a) (read w vals b) then jump label vals m else next vals m
  exec (br label) vals m = jump label vals m
  exec (set_label label) vals m = next vals m
  exec (call outs ins flags cargs) vals m =
      let (new, rs, m') = world.run_call cargs (map vals ins) vals m in
      let globals = if nz (bit_and flags 0x30) then vals else set_globals s vals new s.nb_globals in
      next (set_outs s globals outs rs) m'
  exec (other def outs ins cargs) vals m =
      let (leaves, rs, m') = world.run def.opcode cargs (map vals ins) m in
      if leaves then leave (set_outs s vals outs rs) m' else next (set_outs s vals outs rs) m'
