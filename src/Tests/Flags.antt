-- ===== src/Tests/Flags.antt =====
-- The condition codes at concrete inputs.
use fist_ame.Base.{◌≡◌, bit_and, sub64, arith}
use fist_ame.Cc.{byte, sub, inc, quad, helper_cc_compute_all, helper_cc_compute_c, parity_table}
use fist_ame.Cc.Parity.{parity_table_lem}
use fist_ame.Cc.Saved.{Lazy, start, restore, restore-start}
use fist_ame.Cc.Compute.Carry.{helper_cc_compute_c-all}
use fist_ame.Cc.Compute.Compare.{IsCompare, compute_all_sub-IsCompare}

-- -1 against 1, as bytes: below in the signed order, above in the other.
compute_all_sub-IsCompare_example :
    IsCompare byte 0xff 1 (helper_cc_compute_all (sub byte) 1 (sub64 0xff 1))
compute_all_sub-IsCompare_example =
    compute_all_sub-IsCompare byte 0xff 1 (omega arith) (omega arith)

helper_cc_compute_c-all_example :
    helper_cc_compute_c (inc quad) 1 0x80 ≡ bit_and (helper_cc_compute_all (inc quad) 1 0x80) 1
helper_cc_compute_c-all_example = helper_cc_compute_c-all (inc quad) 1 0x80 (omega arith)

parity_table_lem_example : parity_table 0xb1 ≡ 4
parity_table_lem_example = parity_table_lem 0xb1 (omega arith)

-- All of the saved flags are set, with a pending comparison.
abbrev busy : Lazy
busy = record { eflags = 0xed7; cc_op = sub byte; cc_src = 5; cc_dst = 3; df = 1 }

restore-start_example : (restore (start busy)).eflags ≡ 0xed7
restore-start_example = restore-start busy (omega arith)
