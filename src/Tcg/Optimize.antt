-- ===== src/Tcg/Optimize.antt =====
-- `tcg_constant_folding` of tcg/optimize.c for one operation: copies, the order of the arguments, and
-- the simplifications, in the order of the code. none is a failed assertion, an abort, or a shift
-- that C does not define.
pub mod Simplify
pub mod Tables
pub mod Copies
pub mod Turned
pub mod Moves
pub mod Simulation
use fist_ame.Base.{
  ◌==◌, if◌then◌else◌, minus_one, ℕ, Bool, true, false, not, ◌&&◌, Option, none, some, map,
}
use fist_ame.Tcg.Op.{
  Width, Binary, Cond, tcg_invert_cond, tcg_swap_cond, Op, op_add, op_mul, op_and, op_or, op_xor,
  op_eqv, op_nand, op_nor, nop, movi, mov, unary_op, binary_op, deposit, setcond, movcond, brcond,
  br, set_label, call, other,
}
use fist_ame.Tcg.Temps.{
  is_const, is_copy, Temps, Context, find_better_copy, temps_are_copies, tcg_opt_gen_mov,
  tcg_opt_gen_movi,
}

-- `if (temps[args[i]].state == TCG_TEMP_COPY) args[i] = find_better_copy(s, args[i]);`
unfoldable pub better : Context → Temps → ℕ → ℕ
better s temps a = if is_copy (temps.state a) then find_better_copy s temps a else a

unfoldable pub propagate : Context → Temps → Op → Op
unfolding better
propagate s temps nop = nop
propagate s temps (movi w dst val) = movi w dst val
propagate s temps (mov w dst src) = mov w dst (better s temps src)
propagate s temps (unary_op w f dst a) = unary_op w f dst (better s temps a)
propagate s temps (binary_op w f dst a b) = binary_op w f dst (better s temps a) (better s temps b)
propagate s temps (deposit w dst a b ofs len) =
    deposit w dst (better s temps a) (better s temps b) ofs len
propagate s temps (setcond w dst a b c) = setcond w dst (better s temps a) (better s temps b) c
propagate s temps (movcond w dst a b v1 v2 c) =
    movcond w dst (better s temps a) (better s temps b) (better s temps v1) (better s temps v2) c
propagate s temps (brcond w a b c label) = brcond w (better s temps a) (better s temps b) c label
propagate s temps (br label) = br label
propagate s temps (set_label label) = set_label label
propagate s temps (call outs ins flags cargs) = call outs (map (better s temps) ins) flags cargs
propagate s temps (other def outs ins cargs) = other def outs (map (better s temps) ins) cargs

-- Whether the two arguments are swapped.
unfoldable pub swap_commutative : Temps → ℕ → ℕ → ℕ → Bool
swap_commutative temps dest a1 a2 =
    if is_const (temps.state a1)
    then (if is_const (temps.state a2) then dest == a2 else true)
    else (if is_const (temps.state a2) then false else dest == a2)

abbrev pub commutes : Binary → Bool
commutes op_add = true
commutes op_mul = true
commutes op_and = true
commutes op_or = true
commutes op_xor = true
commutes op_eqv = true
commutes op_nand = true
commutes op_nor = true
commutes _ = false

-- `(TCGArg)-1`, which is no temporary.
unfoldable pub swap_cond_args : Temps → Width → ℕ → ℕ → ℕ → ℕ → ℕ → Cond → Op
swap_cond_args temps w dst a b v1 v2 c =
    if swap_commutative temps dst v2 v1
    then movcond w dst a b v2 v1 (tcg_invert_cond c)
    else movcond w dst a b v1 v2 c

unfoldable pub canonical : Temps → Op → Op
unfolding swap_cond_args
canonical temps (binary_op w f dst a b) =
    if commutes f && swap_commutative temps dst a b
    then binary_op w f dst b a
    else binary_op w f dst a b
canonical temps (setcond w dst a b c) =
    if swap_commutative temps dst a b
    then setcond w dst b a (tcg_swap_cond c)
    else setcond w dst a b c
canonical temps (brcond w a b c label) =
    if swap_commutative temps minus_one a b
    then brcond w b a (tcg_swap_cond c) label
    else brcond w a b c label
canonical temps (movcond w dst a b v1 v2 c) =
    if swap_commutative temps minus_one a b
    then swap_cond_args temps w dst b a v1 v2 (tcg_swap_cond c)
    else swap_cond_args temps w dst a b v1 v2 c
canonical temps nop = nop
canonical temps (movi w dst val) = movi w dst val
canonical temps (mov w dst src) = mov w dst src
canonical temps (unary_op w f dst a) = unary_op w f dst a
canonical temps (deposit w dst a b ofs len) = deposit w dst a b ofs len
canonical temps (br label) = br label
canonical temps (set_label label) = set_label label
canonical temps (call outs ins flags cargs) = call outs ins flags cargs
canonical temps (other def outs ins cargs) = other def outs ins cargs

unfoldable pub is_zero : Temps → ℕ → Bool
is_zero temps a = is_const (temps.state a) && temps.val a == 0

-- `movi`, and `mov` or a nop where the destination is a copy already.
unfoldable pub gen_movi : Temps → Width → ℕ → ℕ → Option (Op × Temps)
gen_movi temps w dst val = some (movi w dst val, tcg_opt_gen_movi temps dst val)

unfoldable pub emit_mov : Context → Temps → Width → ℕ → ℕ → Option (Op × Temps)
emit_mov s temps w dst src = elim (tcg_opt_gen_mov s temps dst src) [
  | none ↦ none
  | some temps' ↦ some (mov w dst src, temps')
]

unfoldable pub gen_mov : Context → Temps → Width → ℕ → ℕ → Option (Op × Temps)
unfolding emit_mov
gen_mov s temps w dst src =
    if temps_are_copies s temps dst src then some (nop, temps) else emit_mov s temps w dst src

-- The move of a temporary that may be a constant.
unfoldable pub gen_mov_const : Context → Temps → Width → ℕ → ℕ → Option (Op × Temps)
unfolding emit_mov gen_movi
gen_mov_const s temps w dst src =
    if temps_are_copies s temps dst src
    then some (nop, temps)
    else (if is_const (temps.state src)
        then gen_movi temps w dst (temps.val src)
        else emit_mov s temps w dst src)
