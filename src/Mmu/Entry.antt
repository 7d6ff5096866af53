-- ===== src/Mmu/Entry.antt =====
-- The steps of `cpu_x86_handle_mmu_fault` that do not depend on the level: the access checks, which
-- the source writes out once for each page size, the accessed and dirty bits, the rights of the
-- page, and the fault.
pub mod Rights
use fist_ame.Base.{
  ℕ, ◌+◌, ◌*◌, ◌/◌, ◌%◌, Bool, ◌&&◌, ◌||◌, not, ◌==◌, nz, true, false, if◌then◌else◌, bit_and,
  bit_or, update, w32, add64,
}
use fist_ame.Cpu.{
  Env, cr0_wp_mask, cr4_pae_mask, cr4_smap_mask, cr4_smep_mask, msr_efer_nxe, page_read, page_write,
  page_exec, excp_page,
}
use fist_ame.Control.{has}

abbrev pub pg_present_mask : ℕ
pg_present_mask = 0x1

abbrev pub pg_rw_mask : ℕ
pg_rw_mask = 0x2

abbrev pub pg_user_mask : ℕ
pg_user_mask = 0x4

abbrev pub pg_accessed_mask : ℕ
pg_accessed_mask = 0x20

abbrev pub pg_dirty_mask : ℕ
pg_dirty_mask = 0x40

abbrev pub pg_pse_mask : ℕ
pg_pse_mask = 0x80

abbrev pub pg_nx_mask : ℕ
pg_nx_mask = 0x8000_0000_0000_0000

abbrev pub mmu_kernel_idx : ℕ
mmu_kernel_idx = 0

abbrev pub mmu_user_idx : ℕ
mmu_user_idx = 1

abbrev pub mmu_ksmap_idx : ℕ
mmu_ksmap_idx = 2

-- The physical memory: `ldq_phys`, `ldl_phys`, `stl_phys_notdirty` and `stq_phys` of exec.c.
pub record Phys (Mem : Type 0) : Type 0 where
  pub ldq_phys : Mem → ℕ → ℕ
  pub ldl_phys : Mem → ℕ → ℕ
  pub stl_phys_notdirty : Mem → ℕ → ℕ → Mem
  pub stq_phys : Mem → ℕ → ℕ → Mem

-- `is_write1` is 0 for a read, 1 for a write and 2 for a fetch.
abbrev pub is_write : ℕ → Bool
is_write is_write1 = nz (bit_and is_write1 1)

-- The `switch (mmu_idx)`: whether it goes to `do_fault_protect`.
pub denied : Env → ℕ → ℕ → ℕ → Bool
denied env mmu_idx is_write1 ptep =
    let wp = has (env.cr 0) cr0_wp_mask && is_write is_write1 && not (has ptep pg_rw_mask) in
    let smep = is_write1 == 2 && has (env.cr 4) cr4_smep_mask && has ptep pg_user_mask in
    let smap = not (is_write1 == 2) && has (env.cr 4) cr4_smap_mask && has ptep pg_user_mask in
    if mmu_idx == mmu_user_idx
    then not (has ptep pg_user_mask) || (is_write is_write1 && not (has ptep pg_rw_mask))
    else (if mmu_idx == mmu_kernel_idx
        then smap || smep || wp
        else (if mmu_idx == mmu_ksmap_idx then smep || wp else false))

-- The rights of the page, `prot`.
pub prot_of : Env → ℕ → ℕ → ℕ → ℕ
prot_of env mmu_idx pte ptep =
    let exec = if has ptep pg_nx_mask then 0 else page_exec in
    let writable =
      if mmu_idx == mmu_user_idx
      then has ptep pg_rw_mask
      else not (has (env.cr 0) cr0_wp_mask) || has ptep pg_rw_mask in
    let write = if has pte pg_dirty_mask && writable then page_write else 0 in
    bit_or (bit_or page_read exec) write

module _ {Mem : Type 0} (phys : Phys Mem) where
  -- An entry of an upper level is marked as accessed.
  pub mark_accessed : Mem → ℕ → ℕ → ℕ × Mem
  mark_accessed mem addr entry =
      if has entry pg_accessed_mask
      then (entry, mem)
      else (let e = bit_or entry pg_accessed_mask in (e, phys.stl_phys_notdirty mem addr (e % w32)))

  -- The last entry is marked as accessed and, for a write, dirty.
  pub mark_leaf : Mem → ℕ → ℕ → ℕ → ℕ × Mem
  mark_leaf mem is_write1 addr entry =
      let is_dirty = is_write is_write1 && not (has entry pg_dirty_mask) in
      if not (has entry pg_accessed_mask) || is_dirty
      then (let e1 = bit_or entry pg_accessed_mask in
          let e = if is_dirty then bit_or e1 pg_dirty_mask else e1 in
          (e, phys.stl_phys_notdirty mem addr (e % w32)))
      else (entry, mem)

  -- `do_fault`, entered with an error code that has the bits P or RSVD at most.
  pub do_fault : Env → Mem → ℕ → ℕ → ℕ → ℕ → Env × Mem
  do_fault env mem addr mmu_idx is_write1 error_code =
      let w = bit_or error_code (bit_and is_write1 1 * 2) in
      let u = if mmu_idx == mmu_user_idx then bit_or w 0x4 else w in
      let fetch =
        is_write1 == 2
        && ((has env.efer msr_efer_nxe && has (env.cr 4) cr4_pae_mask)
            || has (env.cr 4) cr4_smep_mask) in
      let code = if fetch then bit_or u 0x10 else u in
      let intercepted = has env.intercept_exceptions 0x4000 in
      (
        record env {
          cr = if intercepted then env.cr else update env.cr 2 addr;
          error_code = code;
          exception_index = excp_page;
        },
        if intercepted then phys.stq_phys mem (add64 env.vm_vmcb 0x80) addr else mem,
      )
