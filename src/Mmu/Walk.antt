-- ===== src/Mmu/Walk.antt =====
-- `cpu_x86_handle_mmu_fault`: the walk through the tables and what it gives to the TLB.
pub mod Filled
pub mod Placed
use fist_ame.Base.{
  ℕ, ◌+◌, ◌-◌, ◌*◌, ◌/◌, Bool, true, false, ◌&&◌, ◌||◌, not, ◌==◌, if◌then◌else◌, bit_and, bit_or,
  bit_xor, add64, not64, minus_one, target_page_mask,
}
use fist_ame.Cpu.{
  Env, cr0_pg_mask, cr4_pae_mask, cr4_pse_mask, msr_efer_nxe, hf_lma_mask, page_read, page_write,
  page_exec, excp_gpf,
}
use fist_ame.Control.{has, clear}
use fist_ame.Mmu.Entry.{
  Phys, denied, prot_of, mark_accessed, mark_leaf, do_fault, pg_present_mask, pg_user_mask,
  pg_rw_mask, pg_pse_mask, pg_nx_mask,
}

abbrev phys_addr_mask : ℕ
phys_addr_mask = 0xff_ffff_f000

-- How the walk ends: at `do_fault` with an error code, at the fault for an address that is not
-- canonical, or with a page.
pub data Walked (Mem : Type 0) : Type 0 where
  fault : (error_code : ℕ) → Mem → Walked Mem
  not_canonical : Mem → Walked Mem
  page : (pte ptep virt_addr page_size : ℕ) → Mem → Walked Mem

-- What is handed to `tlb_set_page`, or the CPU with the exception.
pub data Handled (Mem : Type 0) : Type 0 where
  mapped : (vaddr paddr prot page_size : ℕ) → Mem → Handled Mem
  faulted : Env → Mem → Handled Mem

reserved : Env → ℕ → Bool
reserved env entry = not (has env.efer msr_efer_nxe) && has entry pg_nx_mask

-- The address of entry `index` in a table, entries of 8 bytes.
abbrev entry_addr : Env → ℕ → ℕ → ℕ
entry_addr env table index = bit_and (add64 table (bit_and index 0x1ff * 8)) env.a20_mask

-- Access of a kind by an MMU mode to an address.
pub record Access : Type 0 where
  pub addr : ℕ
  pub is_write1 : ℕ
  pub mmu_idx : ℕ

module _ {Mem : Type 0} (phys : Phys Mem) (env : Env) (a : Access) where
  -- The end of a walk at the entry of a page; `mask` keeps the bits of the entry that are used.
  leaf : Mem → Bool → ℕ → ℕ → ℕ → ℕ → ℕ → ℕ → Walked Mem
  leaf mem nx addr entry ptep mask virt_addr page_size =
      if (nx && has ptep pg_nx_mask && a.is_write1 == 2) || denied env a.mmu_idx a.is_write1 ptep
      then fault 1 mem
      else (let (pte, mem') = mark_leaf phys mem a.is_write1 addr entry in
          page (bit_and pte mask) ptep virt_addr page_size mem')

  -- PAE, the last level.
  pae_table : Mem → ℕ → ℕ → Walked Mem
  unfolding leaf reserved
  pae_table mem pde ptep =
      let pte_addr = entry_addr env (bit_and pde phys_addr_mask) (a.addr / 0x1000) in
      let pte = phys.ldq_phys mem pte_addr in
      if not (has pte pg_present_mask)
      then fault 0 mem
      else (if reserved env pte
          then fault 8 mem
          else leaf mem true pte_addr pte
              (bit_xor (bit_and ptep (bit_xor pte pg_nx_mask)) pg_nx_mask)
              (bit_or phys_addr_mask 0xfff) (clear a.addr 0xfff) 0x1000)

  -- PAE, the page directory.
  pae_directory : Mem → ℕ → ℕ → Walked Mem
  unfolding leaf reserved pae_table
  pae_directory mem pdpe ptep =
      let pde_addr = entry_addr env (bit_and pdpe phys_addr_mask) (a.addr / 0x20_0000) in
      let pde = phys.ldq_phys mem pde_addr in
      if not (has pde pg_present_mask)
      then fault 0 mem
      else (if reserved env pde
          then fault 8 mem
          else (let ptep' = bit_and ptep (bit_xor pde pg_nx_mask) in
              if has pde pg_pse_mask
              then leaf mem true pde_addr pde (bit_xor ptep' pg_nx_mask)
                  (bit_or (clear phys_addr_mask 0x1f_ffff) 0xfff) (clear a.addr 0x1f_ffff) 0x20_0000
              else (let (pde', mem') = mark_accessed phys mem pde_addr pde in
                  pae_table mem' pde' ptep')))

  -- Long mode, the two upper levels.
  long_walk : Mem → Walked Mem
  unfolding pae_directory reserved
  long_walk mem =
      let sext = a.addr / 0x8000_0000_0000 in
      if not (sext == 0) && not (sext == 0x1_ffff)
      then not_canonical mem
      else (let pml4e_addr = entry_addr env (clear (env.cr 3) 0xfff) (a.addr / 0x80_0000_0000) in
          let pml4e = phys.ldq_phys mem pml4e_addr in
          if not (has pml4e pg_present_mask)
          then fault 0 mem
          else (if reserved env pml4e
              then fault 8 mem
              else (let (pml4e', mem1) = mark_accessed phys mem pml4e_addr pml4e in
                  let pdpe_addr =
                    entry_addr env (bit_and pml4e' phys_addr_mask) (a.addr / 0x4000_0000) in
                  let pdpe = phys.ldq_phys mem1 pdpe_addr in
                  if not (has pdpe pg_present_mask)
                  then fault 0 mem1
                  else (if reserved env pdpe
                      then fault 8 mem1
                      else (let ptep =
                            bit_and (bit_xor pml4e' pg_nx_mask) (bit_xor pdpe pg_nx_mask) in
                          let (pdpe', mem2) = mark_accessed phys mem1 pdpe_addr pdpe in
                          pae_directory mem2 pdpe' ptep)))))

  -- PAE without long mode.
  pae_walk : Mem → Walked Mem
  unfolding pae_directory
  pae_walk mem =
      let pdpe_addr =
        bit_and (add64 (clear (env.cr 3) 0x1f) (bit_and (a.addr / 0x800_0000) 0x18)) env.a20_mask in
      let pdpe = phys.ldq_phys mem pdpe_addr in
      if not (has pdpe pg_present_mask)
      then fault 0 mem
      else pae_directory mem pdpe (bit_or (bit_or pg_nx_mask pg_user_mask) pg_rw_mask)

  -- For a page of 4 MB the rights are those of the entry itself.
  own_rights : Walked Mem → Walked Mem
  own_rights (fault error_code mem) = fault error_code mem
  own_rights (not_canonical mem) = not_canonical mem
  own_rights (page pte ptep virt_addr page_size mem) = page pte pte virt_addr page_size mem

  -- Two levels of entries of 4 bytes.
  legacy_walk : Mem → Walked Mem
  unfolding leaf own_rights
  legacy_walk mem =
      let pde_addr =
        bit_and (add64 (clear (env.cr 3) 0xfff) (bit_and (a.addr / 0x10_0000) 0xffc))
          env.a20_mask in
      let pde = phys.ldl_phys mem pde_addr in
      if not (has pde pg_present_mask)
      then fault 0 mem
      else (if has pde pg_pse_mask && has (env.cr 4) cr4_pse_mask
          then own_rights
              (leaf mem false pde_addr pde pde (not64 0x3f_f000) (clear a.addr 0x3f_ffff) 0x40_0000)
          else (let (pde', mem') = mark_accessed phys mem pde_addr pde in
              let pte_addr =
                bit_and (add64 (clear pde' 0xfff) (bit_and (a.addr / 0x400) 0xffc)) env.a20_mask in
              let pte = phys.ldl_phys mem' pte_addr in
              if not (has pte pg_present_mask)
              then fault 0 mem'
              else leaf mem' false pte_addr pte (bit_and pte pde') minus_one (clear a.addr 0xfff)
                  0x1000))

  walk : Mem → Walked Mem
  unfolding long_walk pae_walk legacy_walk
  walk mem =
      if has (env.cr 4) cr4_pae_mask
      then (if has env.hflags hf_lma_mask then long_walk mem else pae_walk mem)
      else legacy_walk mem

  -- `do_mapping`
  do_mapping : ℕ → ℕ → ℕ → ℕ → Mem → Handled Mem
  do_mapping pte prot virt_addr page_size mem =
      let offset = bit_and (bit_and a.addr target_page_mask) (page_size - 1) in
      mapped (add64 virt_addr offset)
        (add64 (bit_and (bit_and pte env.a20_mask) target_page_mask) offset) prot page_size mem

  finish : Walked Mem → Handled Mem
  unfolding do_mapping
  finish (fault error_code mem) =
      let (env', mem') = do_fault phys env mem a.addr a.mmu_idx a.is_write1 error_code in
      faulted env' mem'
  finish (not_canonical mem) =
      faulted (record env { error_code = 0; exception_index = excp_gpf }) mem
  finish (page pte ptep virt_addr page_size mem) =
      do_mapping pte (prot_of env a.mmu_idx pte ptep) virt_addr page_size mem

  pub cpu_x86_handle_mmu_fault : Mem → Handled Mem
  unfolding walk finish do_mapping
  cpu_x86_handle_mmu_fault mem =
      if not (has (env.cr 0) cr0_pg_mask)
      then do_mapping a.addr (bit_or (bit_or page_read page_write) page_exec)
          (bit_and a.addr target_page_mask) 0x1000 mem
      else finish (walk mem)
