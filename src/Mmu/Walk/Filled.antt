-- ===== src/Mmu/Walk/Filled.antt =====
-- The page that the walk hands to `tlb_set_page` has the right that the access needs: the access
-- does not fault again on the new entry of the TLB.
use native.Mathlib.Nat.{div-eq_of_lt}
use fist_ame.Base.{
  ℕ, ◌^◌, ◌<◌, ◌≡◌, ◌⊎◌, refl, ◌∙◌, Bool, true, false, ◌&&◌, ◌||◌, ◌==◌, Bool-cases, inl, inr,
  if◌then◌else◌, bit, bit_and, bit-bit_and, arith, w32, not64,
}
use fist_ame.Cpu.{Env, cr0_pg_mask, excp_page, excp_gpf}
use fist_ame.Control.{has}
use fist_ame.Control.Flags.{has-bit}
use fist_ame.Mmu.Entry.{
  Phys, denied, prot_of, mark_leaf, pg_nx_mask, pg_dirty_mask, pg_accessed_mask,
}
use fist_ame.Mmu.Walk.{
  Access, Walked, Handled, fault, not_canonical, page, mapped, faulted, leaf, pae_table,
  pae_directory, long_walk, pae_walk, own_rights, legacy_walk, walk, finish, do_mapping,
  cpu_x86_handle_mmu_fault,
}
use fist_ame.Mmu.Entry.Rights.{
  Grants, dirty_leaf, prot-Grants, or_false, mark_kept, denied_same, do_fault-excp_page,
}

has_and : (k x m : ℕ) → bit m k ≡ 1 → has (bit_and x m) (2 ^ k) ≡ has x (2 ^ k)
has_and k x m h = rw (has-bit k (bit_and x m), has-bit k x, bit-bit_and x m k, h) (ground arith)

has_low : (k x : ℕ) → x < 2 ^ k → has x (2 ^ k) ≡ false
has_low k x h = rw (has-bit k x, div-eq_of_lt h) refl

-- A fetch that is not blocked is from a page that can be executed.
fetch_lem : (nx b : Bool) → (nx ≡ false → b ≡ false) → (nx && b && true) ≡ false → b ≡ false
fetch_lem false b n h = n refl
fetch_lem true false n h = refl
fetch_lem true true n h = h

-- A page in the walk's result has the right; a fault claims nothing.
Given : {Mem : Type 0} → Env → Access → Walked Mem → Type 0
Given env a (fault _ _) = Unit
Given env a (not_canonical _) = Unit
Given env a (page pte ptep _ _ _) = Grants a.is_write1 (prot_of env a.mmu_idx pte ptep)

module _ {Mem : Type 0} (phys : Phys Mem) (env : Env) (a : Access) (i : a.mmu_idx < 3) where
  leaf_lem :
      (mem : Mem) (nx : Bool) (addr entry ptep mask virt_addr page_size : ℕ)
      → bit mask 6 ≡ 1
      → (nx ≡ false → has ptep pg_nx_mask ≡ false)
      → Given env a (leaf phys env a mem nx addr entry ptep mask virt_addr page_size)
  unfolding leaf Given
  leaf_lem mem nx addr entry ptep mask virt_addr page_size m n =
      let blocked = nx && has ptep pg_nx_mask && a.is_write1 == 2 in
      elim (Bool-cases (blocked || denied env a.mmu_idx a.is_write1 ptep)) [
        | inl e ↦ rw (leaf, e) tt
        | inr e ↦
            let q = or_false blocked (denied env a.mmu_idx a.is_write1 ptep) e in
            rw (leaf, e)
              (prot-Grants env a.mmu_idx a.is_write1
                (bit_and (mark_leaf phys mem a.is_write1 addr entry).0 mask) ptep i q.1
                (λ w. has_and 6 _ mask m ∙ dirty_leaf phys mem a.is_write1 addr entry w)
                (λ f. fetch_lem nx (has ptep pg_nx_mask) n (rw f at q.0)))
      ]

  fault-Given : (error_code : ℕ) (mem : Mem) → Given env a (fault error_code mem)
  unfolding Given
  fault-Given error_code mem = tt

  not_canonical-Given : (mem : Mem) → Given env a (not_canonical mem)
  unfolding Given
  not_canonical-Given mem = tt

  if-Given :
      (b : Bool) (x y : Walked Mem)
      → Given env a x
      → Given env a y
      → Given env a (if b then x else y)
  if-Given true x y p q = p
  if-Given false x y p q = q

  wide_lem :
      (mem : Mem) (addr entry ptep mask virt_addr page_size : ℕ)
      → bit mask 6 ≡ 1
      → Given env a (leaf phys env a mem true addr entry ptep mask virt_addr page_size)
  wide_lem mem addr entry ptep mask virt_addr page_size m =
      leaf_lem mem true addr entry ptep mask virt_addr page_size m (λ f. absurd (ground (arith, f)))

  pae_table_lem : (mem : Mem) (pde ptep : ℕ) → Given env a (pae_table phys env a mem pde ptep)
  unfolding pae_table
  pae_table_lem mem pde ptep = search (if-Given, fault-Given, wide_lem)

  pae_directory_lem :
      (mem : Mem) (pdpe ptep : ℕ) → Given env a (pae_directory phys env a mem pdpe ptep)
  unfolding pae_directory
  pae_directory_lem mem pdpe ptep = search (if-Given, fault-Given, wide_lem, pae_table_lem)

  long_walk_lem : (mem : Mem) → Given env a (long_walk phys env a mem)
  unfolding long_walk
  long_walk_lem mem =
      search (if-Given, fault-Given, not_canonical-Given, pae_directory_lem) depth 12

  pae_walk_lem : (mem : Mem) → Given env a (pae_walk phys env a mem)
  unfolding pae_walk
  pae_walk_lem mem = search (if-Given, fault-Given, pae_directory_lem)

  -- A page of 4 MB, whose rights are its entry's after the marks.
  own_lem :
      (mem : Mem) (addr entry mask virt_addr page_size : ℕ)
      → entry < w32
      → bit mask 1 ≡ 1
      → bit mask 2 ≡ 1
      → bit mask 6 ≡ 1
      → bit mask 63 ≡ 1
      → Given env a (
          own_rights phys env a
            (leaf phys env a mem false addr entry entry mask virt_addr page_size))
  unfolding leaf own_rights Given
  own_lem mem addr entry mask virt_addr page_size s b1 b2 b6 b63 =
      let pte = bit_and (mark_leaf phys mem a.is_write1 addr entry).0 mask in
      let kept : (k : ℕ)
          → bit mask k ≡ 1
          → has pg_accessed_mask (2 ^ k) ≡ false
          → has pg_dirty_mask (2 ^ k) ≡ false
          → has pte (2 ^ k) ≡ has entry (2 ^ k) =
        λ k b p q. has_and k _ mask b ∙ mark_kept phys a.is_write1 k mem addr entry p q in
      elim (Bool-cases (denied env a.mmu_idx a.is_write1 entry)) [
        | inl e ↦ rw (leaf, e) tt
        | inr e ↦
            rw (leaf, e)
              (prot-Grants env a.mmu_idx a.is_write1 pte pte i
                (denied_same env a.mmu_idx a.is_write1 pte entry (kept 1 b1 refl refl)
                    (kept 2 b2 refl refl)
                  ∙ e)
                (λ w. has_and 6 _ mask b6 ∙ dirty_leaf phys mem a.is_write1 addr entry w)
                (λ f. kept 63 b63 refl refl ∙ has_low 63 entry (omega (arith, s))))
      ]

  module _ (u : (mem : Mem) (addr : ℕ) → phys.ldl_phys mem addr < w32) where
    low_and : (x y : ℕ) → x < w32 → has (bit_and x y) pg_nx_mask ≡ false
    low_and x y h =
        rw (has-bit 63 (bit_and x y), bit-bit_and x y 63, div-eq_of_lt (low h)) (ground arith)
      where
        low : x < w32 → x < 2 ^ 63
        low h = omega (arith, h)

    narrow_lem :
        (mem mem' : Mem) (addr ptr y mask virt_addr page_size : ℕ)
        → bit mask 6 ≡ 1
        → Given env a (
            leaf phys env a mem' false addr
              (phys.ldl_phys mem ptr)
              (bit_and (phys.ldl_phys mem ptr) y)
              mask
              virt_addr
              page_size)
    narrow_lem mem mem' addr ptr y mask virt_addr page_size m =
        leaf_lem mem' false addr _ _ mask virt_addr page_size m (λ f. low_and _ y (u mem ptr))

    legacy_walk_lem : (mem : Mem) → Given env a (legacy_walk phys env a mem)
    unfolding legacy_walk
    legacy_walk_lem mem = search (if-Given, fault-Given, narrow_lem, large_lem) depth 12
      where
        large_lem :
            (ptr virt_addr page_size : ℕ)
            → Given env a (
                own_rights phys env a (
                  leaf phys env a mem false ptr
                    (phys.ldl_phys mem ptr)
                    (phys.ldl_phys mem ptr)
                    (not64 0x3f_f000)
                    virt_addr
                    page_size))
        large_lem ptr virt_addr page_size =
            own_lem mem ptr _ _ virt_addr page_size (u mem ptr) refl refl refl refl

    walk_lem : (mem : Mem) → Given env a (walk phys env a mem)
    unfolding walk
    walk_lem mem = search (if-Given, long_walk_lem, pae_walk_lem, legacy_walk_lem)

-- What a handled access gives: an entry of the TLB whose rights cover the access, or one of the two
-- exceptions.
pub Serves : {Mem : Type 0} → Access → Handled Mem → Type 0
Serves a (mapped _ _ prot _ _) = Grants a.is_write1 prot
Serves a (faulted env' _) =
    (env'.exception_index ≡ excp_page) ⊎ ((env'.exception_index ≡ excp_gpf) × (env'.error_code ≡ 0))

finish_lem :
    {Mem : Type 0} (phys : Phys Mem) (env : Env) (a : Access) (w : Walked Mem)
    → Given env a w
    → Serves a (finish phys env a w)
unfolding Given finish do_mapping Serves
finish_lem phys env a (fault error_code mem) g =
    inl (do_fault-excp_page phys env mem a.addr a.mmu_idx a.is_write1 error_code)
finish_lem phys env a (not_canonical mem) g = inr (refl, refl)
finish_lem phys env a (page pte ptep virt_addr page_size mem) g = g

-- Whatever the tables hold, an access in one of the three MMU modes that is mapped gets an entry of
-- the TLB with the right it needs, and any other access ends in a page fault, or in a protection
-- fault of error code 0. The memory gives 32 bits for `ldl_phys`.
pub cpu_x86_handle_mmu_fault-Serves :
    {Mem : Type 0} (phys : Phys Mem) (env : Env) (a : Access) (mem : Mem)
    → a.mmu_idx < 3
    → ((m : Mem) (addr : ℕ) → phys.ldl_phys m addr < w32)
    → Serves a (cpu_x86_handle_mmu_fault phys env a mem)
unfolding cpu_x86_handle_mmu_fault do_mapping Serves
cpu_x86_handle_mmu_fault-Serves phys env a mem i u =
    elim (Bool-cases (has (env.cr 0) cr0_pg_mask)) [
      | inl p ↦
          rw (cpu_x86_handle_mmu_fault, p) (finish_lem phys env a _ (walk_lem phys env a i u mem))
      | inr p ↦
          rw (cpu_x86_handle_mmu_fault, p)
            (record { read = refl; write = λ w. refl; exec = λ f. refl })
    ]
