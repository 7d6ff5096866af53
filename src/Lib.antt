-- ===== src/Lib.antt =====
-- fist-ame: vx64, the emulator library, in vx64/. A host loads the library, maps memory into a guest
-- machine, sets its registers and runs it; vx64/vx64.c is the interface, and vx64/qemu an engine
-- in the same library that translates x86 code and keeps the state of one CPU.
--
-- Base        numbers, words, masks, lists and tests that the other files share. A word of w bits is a
--             native number below 2 ^ w, and its wrap-around is written out.
-- Cpu         CPUX86State of target-i386/cpu.h with CPU_COMMON of include/exec/cpu-defs.h, as far as the
--             modelled code uses them, and the masks and numbers that the code names.
-- Tlb         cputlb.c: the flushes, the dirty marks, and the region of large pages. A table is a
--             function of the mode and the slot. `widen` runs on fuel 65: a mask of 64 bits is 0 after
--             64 shifts, and under 0 the loop ends.
-- Tailq       the queues of include/qemu/queue.h, as lists of nodes that carry their address.
-- Debug       exec.c: breakpoints and watchpoints, and cpu_single_step with tb_flush of translate-all.c.
-- Hw          target-i386/helper.c and misc_helper.c: writes of the debug registers, whose pointers are
--             addresses of nodes. To follow one that is in no queue is a use after free, and the result
--             is none; what malloc returns is an argument.
-- Control     target-i386/helper.c and cpu.h: CR0, CR3, CR4, the segment caches and the hidden flags.
-- Cc          target-i386/cc_helper.c and cc_helper_template.h: the flags of each CC_OP. The template is one
--             function of the size instead of four copies. Cc.Saved is EFLAGS at the two ends of cpu_exec.
-- Mmu         target-i386/helper.c: cpu_x86_handle_mmu_fault. The memory that the walk reads and marks is an
--             argument (Phys: ldq_phys, ldl_phys, stl_phys_notdirty and stq_phys of exec.c), and what the
--             code hands to tlb_set_page is the result. A page is given by `leaf`, in which the four copies
--             of the access checks are one function; the a20 mask is kept as its 64-bit value.
-- Tcg         tcg/optimize.c: the optimiser of the intermediate code, for the opcodes of a 64-bit host. Op has the
--             operations, Fold constant folding, Temps what is known of the temporaries (`temps`, a record
--             of arrays in place of an array of structs), Optimize one round of tcg_constant_folding in the
--             order of the code, and Optimize.Simplify its simplifications and the whole list. Meaning and
--             Exec say what the operations compute, after tcg/README: this is the specification, and what
--             helpers and the operations that are not looked into do is an argument (World). The loops over
--             a ring of copies run on fuel nb_temps: a ring has no more members. A failed
--             assertion, tcg_abort and a shift that C does not define are none.
-- Excp        target-i386/excp_helper.c, with the test of the intercepts of svm_helper.c. That cpu_loop_exit and
--             helper_vmexit do not return is a data type, Raised; ldq_phys and ldub_phys, by which the bitmap of
--             the MSRs is read, are arguments.
-- Api         vx64/vx64.c: start and reset, registers and descriptor tables (Regs), running and stepping
--             (Go), breakpoints, watchpoints and queries (Points). cpu_x86_exec, which runs generated
--             host code, is an argument of vx64_go: any function from the CPU to a trap number and a CPU.
-- Tests       the CPUs of the tests, and every property at a concrete input.
--
-- The interface calls Debug, Hw and Control; Debug calls Tlb; Hw calls Debug; each parent passes the names
-- of its children on where they are definitions, and the theorems stand in the children: Tlb.Flush and
-- Tlb.Large, Debug.Queues, Debug.Clear, Debug.Accept and Debug.Stepping, Hw.Live, Control.Flags and Control.Steps,
-- Mmu.Entry.Rights, Mmu.Walk.Filled and Mmu.Walk.Placed, Excp.Faults, the children of Tcg.Fold, Tcg.Temps, Tcg.Optimize and
-- Tcg.Optimize.Simplify,
-- Api.Regs.Access and Api.Regs.Start, Api.Go.Stop and Api.Points.Answer.
--
-- A call that can abort the process, follows a freed pointer or writes outside an array returns none. A loop over
-- a queue is recursion on the list; a loop over an array counts the elements that are left.
--
-- Not modelled: the memory core (memory.c and the section tables of exec.c) and with it the RAM calls
-- of the interface, the translator and the code generators, the operations on pairs of words that
-- a 64-bit host does not have (add2, sub2, mulu2, brcond2, setcond2), floating point, the device objects, the
-- disassembler, and the C++ programs beside the library.
pub mod Base
pub mod Cpu
pub mod Tlb
pub mod Tailq
pub mod Debug
pub mod Control
pub mod Hw
pub mod Cc
pub mod Mmu
pub mod Tcg
pub mod Excp
pub mod Api
pub mod Tests
