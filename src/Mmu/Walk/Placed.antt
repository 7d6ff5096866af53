-- ===== src/Mmu/Walk/Placed.antt =====
-- The entry that the walk hands to `tlb_set_page` is for the page of the access, whatever the size
-- of the page in the tables.
use native.Mathlib.Nat.{one-le-pow}
use fist_ame.Base.{
  ℕ, ◌+◌, ◌-◌, ◌%◌, ◌^◌, ◌<◌, ◌≤◌, ◌≡◌, Bool, true, false, ◌&&◌, ◌||◌, ◌==◌, Bool-cases, inl, inr,
  if◌then◌else◌, bit_and, bit_and_mask, bit_and_high, bit_and-zero, page_mask_lem, arith, w64,
  add64, target_page_mask,
}
use fist_ame.Cpu.{Env, cr0_pg_mask}
use fist_ame.Control.{has, clear}
use fist_ame.Mmu.Entry.{Phys, denied, pg_nx_mask}
use fist_ame.Mmu.Walk.{
  Access, Walked, Handled, fault, not_canonical, page, mapped, faulted, leaf, pae_table,
  pae_directory, long_walk, pae_walk, own_rights, legacy_walk, walk, finish, do_mapping,
  cpu_x86_handle_mmu_fault,
}

-- The address that is handed over for a page of `page_size` bytes at `virt_addr`.
abbrev handed : ℕ → ℕ → ℕ → ℕ
handed addr virt_addr page_size =
    add64 virt_addr (bit_and (bit_and addr target_page_mask) (page_size - 1))

clear_low :
    (k addr : ℕ) → k ≤ 64 → addr < w64 → bit_and addr (2 ^ 64 - 2 ^ k + 0) ≡ addr - addr % 2 ^ k
clear_low k addr h p =
    omega (arith, bit_and_high k 64 addr 0 h p (one-le-pow k 2 (omega arith)), bit_and-zero addr)

handed_4k : (addr : ℕ) → addr < w64 → handed addr (clear addr 0xfff) 0x1000 ≡ addr - addr % 0x1000
handed_4k addr p =
    rw (clear_low 12 addr (omega arith) p, bit_and_mask 12 (addr - addr % 0x1000))
      (omega (arith, p))

handed_2m :
    (addr : ℕ) → addr < w64 → handed addr (clear addr 0x1f_ffff) 0x20_0000 ≡ addr - addr % 0x1000
handed_2m addr p =
    rw
      (
        clear_low 21 addr (omega arith) p,
        page_mask_lem addr p,
        bit_and_mask 21 (addr - addr % 0x1000),
      )
      (omega (arith, p))

handed_4m :
    (addr : ℕ) → addr < w64 → handed addr (clear addr 0x3f_ffff) 0x40_0000 ≡ addr - addr % 0x1000
handed_4m addr p =
    rw
      (
        clear_low 22 addr (omega arith) p,
        page_mask_lem addr p,
        bit_and_mask 22 (addr - addr % 0x1000),
      )
      (omega (arith, p))

Placed : {Mem : Type 0} → Access → Walked Mem → Type 0
Placed a (fault _ _) = Unit
Placed a (not_canonical _) = Unit
Placed a (page _ _ virt_addr page_size _) =
    handed a.addr virt_addr page_size ≡ a.addr - a.addr % 0x1000

module _ {Mem : Type 0} (phys : Phys Mem) (env : Env) (a : Access) (w : a.addr < w64) where
  fault-Placed : (error_code : ℕ) (mem : Mem) → Placed a (fault error_code mem)
  unfolding Placed
  fault-Placed error_code mem = tt

  not_canonical-Placed : (mem : Mem) → Placed a (not_canonical mem)
  unfolding Placed
  not_canonical-Placed mem = tt

  if-Placed :
      (b : Bool) (x y : Walked Mem) → Placed a x → Placed a y → Placed a (if b then x else y)
  if-Placed true x y p q = p
  if-Placed false x y p q = q

  leaf-Placed :
      (mem : Mem) (nx : Bool) (addr entry ptep mask virt_addr page_size : ℕ)
      → handed a.addr virt_addr page_size ≡ a.addr - a.addr % 0x1000
      → Placed a (leaf phys env a mem nx addr entry ptep mask virt_addr page_size)
        × Placed a (
            own_rights phys env a (leaf phys env a mem nx addr entry ptep mask virt_addr page_size))
  unfolding leaf own_rights Placed
  leaf-Placed mem nx addr entry ptep mask virt_addr page_size h =
      let blocked = nx && has ptep pg_nx_mask && a.is_write1 == 2 in
      elim (Bool-cases (blocked || denied env a.mmu_idx a.is_write1 ptep)) [
        | inl e ↦ rw (leaf, e) (tt, tt)
        | inr e ↦ rw (leaf, e) (h, h)
      ]

  small_lem :
      (mem : Mem) (nx : Bool) (addr entry ptep mask : ℕ)
      → Placed a (leaf phys env a mem nx addr entry ptep mask (clear a.addr 0xfff) 0x1000)
  small_lem mem nx addr entry ptep mask =
      (leaf-Placed mem nx addr entry ptep mask _ _ (handed_4k a.addr w)).0

  large_lem :
      (mem : Mem) (nx : Bool) (addr entry ptep mask : ℕ)
      → Placed a (leaf phys env a mem nx addr entry ptep mask (clear a.addr 0x1f_ffff) 0x20_0000)
  large_lem mem nx addr entry ptep mask =
      (leaf-Placed mem nx addr entry ptep mask _ _ (handed_2m a.addr w)).0

  own_lem :
      (mem : Mem) (nx : Bool) (addr entry ptep mask : ℕ)
      → Placed a (
          own_rights phys env a
            (leaf phys env a mem nx addr entry ptep mask (clear a.addr 0x3f_ffff) 0x40_0000))
  own_lem mem nx addr entry ptep mask =
      (leaf-Placed mem nx addr entry ptep mask _ _ (handed_4m a.addr w)).1

  pae_table-Placed : (mem : Mem) (pde ptep : ℕ) → Placed a (pae_table phys env a mem pde ptep)
  unfolding pae_table
  pae_table-Placed mem pde ptep = search (if-Placed, fault-Placed, small_lem)

  pae_directory-Placed :
      (mem : Mem) (pdpe ptep : ℕ) → Placed a (pae_directory phys env a mem pdpe ptep)
  unfolding pae_directory
  pae_directory-Placed mem pdpe ptep = search (if-Placed, fault-Placed, large_lem, pae_table-Placed)

  long_walk-Placed : (mem : Mem) → Placed a (long_walk phys env a mem)
  unfolding long_walk
  long_walk-Placed mem =
      search (if-Placed, fault-Placed, not_canonical-Placed, pae_directory-Placed) depth 12

  pae_walk-Placed : (mem : Mem) → Placed a (pae_walk phys env a mem)
  unfolding pae_walk
  pae_walk-Placed mem = search (if-Placed, fault-Placed, pae_directory-Placed)

  legacy_walk-Placed : (mem : Mem) → Placed a (legacy_walk phys env a mem)
  unfolding legacy_walk
  legacy_walk-Placed mem = search (if-Placed, fault-Placed, small_lem, own_lem) depth 12

  walk-Placed : (mem : Mem) → Placed a (walk phys env a mem)
  unfolding walk
  walk-Placed mem = search (if-Placed, long_walk-Placed, pae_walk-Placed, legacy_walk-Placed)

-- The entry of the TLB is for the page of the access.
pub Covers : {Mem : Type 0} → Access → Handled Mem → Type 0
Covers a (mapped vaddr _ _ _ _) = vaddr ≡ a.addr - a.addr % 0x1000
Covers a (faulted _ _) = Unit

finish-Covers :
    {Mem : Type 0} (phys : Phys Mem) (env : Env) (a : Access) (r : Walked Mem)
    → Placed a r
    → Covers a (finish phys env a r)
unfolding Placed finish do_mapping Covers
finish-Covers phys env a (fault error_code mem) g = tt
finish-Covers phys env a (not_canonical mem) g = tt
finish-Covers phys env a (page pte ptep virt_addr page_size mem) g = g

-- The entry that is handed to the TLB starts at the 4 KB page of the access, for a page of 4 KB, 2 MB
-- or 4 MB and without paging, at any address of 64 bits.
pub cpu_x86_handle_mmu_fault-Covers :
    {Mem : Type 0} (phys : Phys Mem) (env : Env) (a : Access) (mem : Mem)
    → a.addr < w64
    → Covers a (cpu_x86_handle_mmu_fault phys env a mem)
unfolding cpu_x86_handle_mmu_fault do_mapping Covers
cpu_x86_handle_mmu_fault-Covers phys env a mem w = elim (Bool-cases (has (env.cr 0) cr0_pg_mask)) [
  | inl p ↦
      rw (cpu_x86_handle_mmu_fault, p) (finish-Covers phys env a _ (walk-Placed phys env a w mem))
  | inr p ↦ rw (cpu_x86_handle_mmu_fault, p) (handed_4k a.addr w)
]
