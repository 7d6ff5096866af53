-- ===== src/Tcg/Optimize/Simplify.antt =====
-- The simplifications of one operation in `tcg_constant_folding`, in the order of the code.
pub mod Extensions
pub mod OneInput
pub mod Masks
pub mod Identities
pub mod TwoInputs
pub mod Conditions
pub mod Fields
pub mod Deposits
pub mod Calls
pub mod Steps
pub mod Program
use fist_ame.Base.{
  ltb, ◌==◌, nz, if◌then◌else◌, w64, sub64, not64, minus_one, ℕ, zero, suc, ◌-◌, ◌*◌, ◌%◌, ◌^◌, ◌<◌,
  bit_and, bit_or, Bool, true, false, not, ◌&&◌, Option, none, some, List, [], ◌∷◌,
}
use fist_ame.Tcg.Op.{
  Width, op_bits, Unary, Binary, Cond, Op, op_neg, op_ext8s, op_ext8u, op_ext16s, op_ext16u,
  op_ext32s, op_ext32u, op_and, op_or, op_xor, op_shl, op_shr, op_sar, ltu, geu, nop, movi, mov,
  unary_op, binary_op, deposit, setcond, movcond, brcond, br, set_label, call, other,
}
use fist_ame.Tcg.Fold.{
  left_shift, right_shift, right_shift_signed, do_constant_folding_unary, do_constant_folding,
  do_constant_folding_cond_n, do_constant_folding_cond_eq,
}
use fist_ame.Tcg.Temps.{is_const, Temps, Context, reset_temp, reset_all_temps, temps_are_copies}
use fist_ame.Tcg.Optimize.{propagate, canonical, is_zero, gen_movi, gen_mov, gen_mov_const}
use fist_ame.Tcg.Optimize.Tables.{
  is_shift, keeps_with_zero, clears_with_zero, keeps_same, clears_same,
}

-- `mask` and `affected` for the operations with two inputs; none is an undefined shift of the mask.
unfoldable pub mask_binary : Temps → Binary → ℕ → ℕ → Option ℕ
mask_binary temps op_and a b = some (bit_and (temps.mask a) (temps.mask b))
mask_binary temps op_sar a b =
    if is_const (temps.state b)
    then right_shift_signed 64 (temps.mask a) (temps.val b)
    else some minus_one
mask_binary temps op_shr a b =
    if is_const (temps.state b) then right_shift 64 (temps.mask a) (temps.val b) else some minus_one
mask_binary temps op_shl a b =
    if is_const (temps.state b) then left_shift 64 (temps.mask a) (temps.val b) else some minus_one
mask_binary temps op_or a b = some (bit_or (temps.mask a) (temps.mask b))
mask_binary temps op_xor a b = some (bit_or (temps.mask a) (temps.mask b))
mask_binary temps _ a b = some minus_one

unfoldable pub affected_binary : Temps → Binary → ℕ → ℕ → ℕ
affected_binary temps op_and a b =
    if is_const (temps.state b) then bit_and (temps.mask a) (not64 (temps.mask b)) else minus_one
affected_binary temps _ a b = minus_one

module _ (s : Context) (temps : Temps) (w : Width) (f : Binary) (dst a b : ℕ) where
  -- "Propagate constants through copy operations and do constant folding", and the default.
  unfoldable pub evaluate_binary : Option (Op × Temps)
  unfolding gen_movi
  evaluate_binary =
      if is_const (temps.state a) && is_const (temps.state b)
      then elim (do_constant_folding w f (temps.val a) (temps.val b)) [
        | none ↦ none
        | some tmp ↦ gen_movi temps w dst tmp
      ]
      else some (binary_op w f dst a b, reset_temp temps dst)

  unfoldable pub same_binary : Option (Op × Temps)
  unfolding evaluate_binary gen_movi gen_mov
  same_binary =
      if clears_with_zero f && is_zero temps b
      then gen_movi temps w dst 0
      else (if keeps_same f && temps_are_copies s temps a b
          then gen_mov s temps w dst a
          else (if clears_same f && temps_are_copies s temps a b
              then gen_movi temps w dst 0
              else evaluate_binary))

  unfoldable pub mask_binary_step : ℕ → Option (Op × Temps)
  unfolding same_binary gen_movi gen_mov_const affected_binary
  mask_binary_step mask =
      if mask == 0
      then gen_movi temps w dst 0
      else (if affected_binary temps f a b == 0 then gen_mov_const s temps w dst a else same_binary)

  unfoldable pub fold_binary : Option (Op × Temps)
  unfolding mask_binary_step gen_movi gen_mov mask_binary
  fold_binary =
      if is_shift f && is_zero temps a
      then gen_movi temps w dst 0
      else (if keeps_with_zero f && not (is_const (temps.state a)) && is_zero temps b
          then gen_mov s temps w dst a
          else elim (mask_binary temps f a b) [ none ↦ none | some mask ↦ mask_binary_step mask ])

-- The mask of an extension, if the code has one: 0xff, 0xffff or 0xffffffff.
unfoldable pub extension_mask : Temps → Unary → ℕ → Option ℕ
extension_mask temps op_ext8s a = if nz (bit_and (temps.mask a) 0x80) then none else some 0xff
extension_mask temps op_ext8u a = some 0xff
extension_mask temps op_ext16s a = if nz (bit_and (temps.mask a) 0x8000) then none else some 0xffff
extension_mask temps op_ext16u a = some 0xffff
extension_mask temps op_ext32s a =
    if nz (bit_and (temps.mask a) 0x8000_0000) then none else some 0xffff_ffff
extension_mask temps op_ext32u a = some 0xffff_ffff
extension_mask temps _ a = none

unfoldable pub mask_unary : Temps → Unary → ℕ → ℕ
unfolding extension_mask
mask_unary temps op_neg a = sub64 0 (bit_and (temps.mask a) (sub64 0 (temps.mask a)))
mask_unary temps f a = elim (extension_mask temps f a) [
  | none ↦ minus_one
  | some mask ↦ bit_and (temps.mask a) mask
]

unfoldable pub affected_unary : Temps → Unary → ℕ → ℕ
unfolding extension_mask
affected_unary temps f a = elim (extension_mask temps f a) [
  | none ↦ minus_one
  | some mask ↦ bit_and (temps.mask a) (not64 mask)
]

module _ (s : Context) (temps : Temps) (w : Width) (f : Unary) (dst a : ℕ) where
  unfoldable pub evaluate_unary : Option (Op × Temps)
  unfolding gen_movi
  evaluate_unary =
      if is_const (temps.state a)
      then gen_movi temps w dst (do_constant_folding_unary w f (temps.val a))
      else some (unary_op w f dst a, reset_temp temps dst)

  unfoldable pub fold_unary : Option (Op × Temps)
  unfolding evaluate_unary gen_movi gen_mov_const mask_unary affected_unary
  fold_unary =
      if mask_unary temps f a == 0
      then gen_movi temps w dst 0
      else (if affected_unary temps f a == 0 then gen_mov_const s temps w dst a else evaluate_unary)

unfoldable pub fold_mov : Context → Temps → Width → ℕ → ℕ → Option (Op × Temps)
unfolding gen_mov_const
fold_mov s temps w dst src = gen_mov_const s temps w dst src

-- `do_constant_folding_cond`: some none is the result 2.
unfoldable pub do_constant_folding_cond :
    Context → Temps → Width → ℕ → ℕ → Cond → Option (Option Bool)
do_constant_folding_cond s temps w x y c =
    if is_const (temps.state x) && is_const (temps.state y)
    then elim (do_constant_folding_cond_n (op_bits w) (temps.val x % 2 ^ op_bits w)
        (temps.val y % 2 ^ op_bits w) c) [ none ↦ none | some r ↦ some (some r) ]
    else (if temps_are_copies s temps x y
        then elim (do_constant_folding_cond_eq c) [ none ↦ none | some r ↦ some (some r) ]
        else (if is_zero temps y
            then elim c [ ltu ↦ some (some false) | geu ↦ some (some true) | _ ↦ some none ]
            else some none))

unfoldable pub fold_setcond : Context → Temps → Width → ℕ → ℕ → ℕ → Cond → Option (Op × Temps)
unfolding do_constant_folding_cond gen_movi
fold_setcond s temps w dst a b c = elim (do_constant_folding_cond s temps w a b c) [
  | none ↦ none
  | some none ↦ some (setcond w dst a b c, reset_temp temps dst)
  | some (some tmp) ↦ gen_movi temps w dst (if tmp then 1 else 0)
]

unfoldable pub fold_brcond : Context → Temps → Width → ℕ → ℕ → Cond → ℕ → Option (Op × Temps)
unfolding do_constant_folding_cond
fold_brcond s temps w a b c label = elim (do_constant_folding_cond s temps w a b c) [
  | none ↦ none
  | some none ↦ some (brcond w a b c label, reset_all_temps temps s.nb_temps)
  | some (some true) ↦ some (br label, reset_all_temps temps s.nb_temps)
  | some (some false) ↦ some (nop, temps)
]

pub fold_movcond : Context → Temps → Width → ℕ → ℕ → ℕ → ℕ → ℕ → Cond → Option (Op × Temps)
unfolding do_constant_folding_cond gen_movi gen_mov_const
fold_movcond s temps w dst a b v1 v2 c =
    if bit_or (temps.mask v1) (temps.mask v2) == 0
    then gen_movi temps w dst 0
    else elim (do_constant_folding_cond s temps w a b c) [
      | none ↦ none
      | some none ↦ some (movcond w dst a b v1 v2 c, reset_temp temps dst)
      | some (some tmp) ↦ gen_mov_const s temps w dst (if tmp then v1 else v2)
    ]

-- `tmp`, the field of a deposit.
pub field_mask : ℕ → Option ℕ
field_mask len = if ltb len 64 then some (2 ^ len - 1) else none

-- `(x & ~(tmp << ofs)) | ((y & tmp) << ofs)`
pub insert_field : ℕ → ℕ → ℕ → ℕ → ℕ
insert_field tmp ofs x y =
    bit_or (bit_and x (not64 (tmp * 2 ^ ofs % w64))) (bit_and y tmp * 2 ^ ofs % w64)

pub fold_deposit : Temps → Width → ℕ → ℕ → ℕ → ℕ → ℕ → Option (Op × Temps)
unfolding field_mask insert_field gen_movi
fold_deposit temps w dst a b ofs len = elim (if ltb ofs 64 then field_mask len else none) [
  | none ↦ none
  | some tmp ↦
      if insert_field tmp ofs (temps.mask a) (temps.mask b) == 0
      then gen_movi temps w dst 0
      else (if is_const (temps.state a) && is_const (temps.state b)
          then gen_movi temps w dst (insert_field tmp ofs (temps.val a) (temps.val b))
          else some (deposit w dst a b ofs len, reset_temp temps dst))
]

pub reset_temps : Temps → List ℕ → Temps
reset_temps temps [] = temps
reset_temps temps (x ∷ xs) = reset_temps (reset_temp temps x) xs

-- `for (i = 0; i < nb_globals; i++) reset_temp(i);`
pub reset_globals : Temps → ℕ → Temps
reset_globals temps zero = temps
reset_globals temps (suc i) = reset_temp (reset_globals temps i) i

-- TCG_CALL_NO_READ_GLOBALS | TCG_CALL_NO_WRITE_GLOBALS
abbrev pub keeps_globals : ℕ → Bool
keeps_globals flags = nz (bit_and flags 0x30)

unfoldable pub fold_op : Context → Temps → Op → Option (Op × Temps)
unfolding fold_binary fold_unary fold_mov fold_setcond fold_brcond fold_movcond fold_deposit
fold_op s temps nop = some (nop, temps)
fold_op s temps (movi w dst val) = gen_movi temps w dst val
fold_op s temps (mov w dst src) = fold_mov s temps w dst src
fold_op s temps (unary_op w f dst a) = fold_unary s temps w f dst a
fold_op s temps (binary_op w f dst a b) = fold_binary s temps w f dst a b
fold_op s temps (deposit w dst a b ofs len) = fold_deposit temps w dst a b ofs len
fold_op s temps (setcond w dst a b c) = fold_setcond s temps w dst a b c
fold_op s temps (movcond w dst a b v1 v2 c) = fold_movcond s temps w dst a b v1 v2 c
fold_op s temps (brcond w a b c label) = fold_brcond s temps w a b c label
fold_op s temps (br label) = some (br label, reset_all_temps temps s.nb_temps)
fold_op s temps (set_label label) = some (set_label label, reset_all_temps temps s.nb_temps)
fold_op s temps (call outs ins flags cargs) =
    let temps' = if keeps_globals flags then temps else reset_globals temps s.nb_globals in
    some (call outs ins flags cargs, reset_temps temps' outs)
fold_op s temps (other def outs ins cargs) = some (
  other def outs ins cargs,
  if def.bb_end then reset_all_temps temps s.nb_temps else reset_temps temps outs,
)

-- One round of the loop of `tcg_constant_folding`, and the loop.
unfoldable pub fold_step : Context → Temps → Op → Option (Op × Temps)
unfolding fold_op
fold_step s temps op = fold_op s temps (canonical temps (propagate s temps op))

pub fold_ops : Context → Temps → List Op → Option (List Op)
unfolding fold_step
fold_ops s temps [] = some []
fold_ops s temps (op ∷ ops) = elim (fold_step s temps op) [
  | none ↦ none
  | some (op', temps') ↦ elim (fold_ops s temps' ops) [
    | none ↦ none
    | some ops' ↦ some (op' ∷ ops')
  ]
]

pub tcg_optimize : Context → Temps → List Op → Option (List Op)
unfolding fold_ops
tcg_optimize s temps ops = fold_ops s (reset_all_temps temps s.nb_temps) ops
