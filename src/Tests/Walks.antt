-- ===== src/Tests/Walks.antt =====
-- Page walks over small tables.
use native.Mathlib.Nat.{mod-lt}
use fist_ame.Base.{if◌then◌else◌, ◌==◌, ℕ, ◌%◌, arith, update, w32, minus_one}
use fist_ame.Cpu.{Env}
use fist_ame.Mmu.Entry.{Phys}
use fist_ame.Mmu.Walk.{Access, cpu_x86_handle_mmu_fault}
use fist_ame.Mmu.Walk.Filled.{Serves, cpu_x86_handle_mmu_fault-Serves}
use fist_ame.Mmu.Walk.Placed.{Covers, cpu_x86_handle_mmu_fault-Covers}
use fist_ame.Tests.Cases.{blank}

-- A memory of words that are reached by their address.
abbrev words : Phys (ℕ → ℕ)
words = record {
  ldq_phys = λ mem addr. mem addr;
  ldl_phys = λ mem addr. mem addr % w32;
  stl_phys_notdirty = λ mem addr val. update mem addr val;
  stq_phys = λ mem addr val. update mem addr val;
}

-- Every entry leads to the page at 0x2000, which users can write.
abbrev tables : ℕ → ℕ
tables = λ addr. 0x2007

abbrev paged : Env
paged = record blank {
  cr = λ i. if i == 0 then 0x8000_0001 else (if i == 4 then 0x20 else 0);
  hflags = 0x4000;
  a20_mask = minus_one;
}

abbrev user_write : Access
user_write = record { addr = 0x1234; is_write1 = 1; mmu_idx = 1 }

cpu_x86_handle_mmu_fault-Serves_example :
    Serves user_write (cpu_x86_handle_mmu_fault words paged user_write tables)
cpu_x86_handle_mmu_fault-Serves_example =
    cpu_x86_handle_mmu_fault-Serves words paged user_write tables (omega arith)
      (λ m addr. mod-lt (m addr) (omega arith))

-- A page of 2 MB: every entry has the bit PS.
abbrev large_tables : ℕ → ℕ
large_tables = λ addr. 0x20_0087

abbrev deep_read : Access
deep_read = record { addr = 0x7fff_1234_5678; is_write1 = 0; mmu_idx = 1 }

cpu_x86_handle_mmu_fault-Covers_example :
    Covers deep_read (cpu_x86_handle_mmu_fault words paged deep_read large_tables)
cpu_x86_handle_mmu_fault-Covers_example =
    cpu_x86_handle_mmu_fault-Covers words paged deep_read large_tables (omega arith)
