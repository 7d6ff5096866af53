-- ===== src/Tlb.antt =====
-- The software TLB of vx64/qemu/cputlb.c, with the jump cache that vx64/qemu/translate-all.c
-- drops beside it.
pub mod Table
pub mod Flush
pub mod Large
use fist_ame.Base.{
  ℕ, zero, suc, ◌+◌, ◌*◌, ◌/◌, ◌%◌, Bool, ◌||◌, ◌==◌, nz, not, none, Option, update, bit_and,
  bit_or, bit_xor, if◌then◌else◌, w64, add64, sub64, not64, minus_one, target_page_mask,
  target_page_size, ltb, true, false,
}
use fist_ame.Cpu.{
  TlbEntry, Tlb, tlb_invalid_mask, tlb_notdirty, tlb_mmio, cpu_tlb_size, nb_mmu_modes,
  tb_jmp_cache_size, tb_jmp_page_size, tb_jmp_page_mask,
}

-- `s_cputlb_empty_entry`
abbrev pub empty_entry : TlbEntry
empty_entry = record {
  addr_read = minus_one;
  addr_write = minus_one;
  addr_code = minus_one;
  addend = minus_one;
}

abbrev pub Table : Type 0
Table = ℕ → ℕ → TlbEntry

-- A store to one slot of one mode.
unfoldable pub set_slot : Table → ℕ → ℕ → TlbEntry → Table
set_slot t mode i e = update t mode (update (t mode) i e)

-- The inner loop of `tlb_flush`, over the modes from `mode` on, `n` of them left.
pub clear_modes : ℕ → ℕ → ℕ → Table → Table
clear_modes zero mode i t = t
clear_modes (suc n) mode i t = clear_modes n (mode + 1) i (set_slot t mode i empty_entry)

-- The outer loop, over the slots.
pub clear_slots : ℕ → ℕ → Table → Table
clear_slots zero i t = t
clear_slots (suc n) i t = clear_slots n (i + 1) (clear_modes nb_mmu_modes 0 i t)

-- `memset(&cache[i], 0, n * sizeof(void *))`
pub clear_cache : ℕ → ℕ → (ℕ → Option ℕ) → ℕ → Option ℕ
clear_cache zero i c = c
clear_cache (suc n) i c = clear_cache n (i + 1) (update c i none)

pub tlb_flush : Tlb → Tlb
tlb_flush t = record t {
  current_tb = none;
  tlb_table = clear_slots cpu_tlb_size 0 t.tlb_table;
  tb_jmp_cache = clear_cache tb_jmp_cache_size 0 t.tb_jmp_cache;
  tlb_flush_addr = minus_one;
  tlb_flush_mask = 0;
  tlb_flush_count = t.tlb_flush_count + 1;
}

-- A comparator as a flush of page `addr` reads it.
abbrev pub comparator : ℕ → ℕ
comparator a = bit_and a (bit_or target_page_mask tlb_invalid_mask)

pub tlb_flush_entry : TlbEntry → ℕ → TlbEntry
tlb_flush_entry e addr =
    if addr == comparator e.addr_read
      || addr == comparator e.addr_write
      || addr == comparator e.addr_code
    then empty_entry
    else e

-- `tb_jmp_cache_hash_page`
unfoldable pub tb_jmp_cache_hash_page : ℕ → ℕ
tb_jmp_cache_hash_page pc = let tmp = bit_xor pc (pc / 64) in bit_and (tmp / 64) tb_jmp_page_mask

pub tb_flush_jmp_cache : (ℕ → Option ℕ) → ℕ → ℕ → Option ℕ
tb_flush_jmp_cache c addr =
    clear_cache tb_jmp_page_size (tb_jmp_cache_hash_page addr)
      (clear_cache tb_jmp_page_size (tb_jmp_cache_hash_page (sub64 addr target_page_size)) c)

-- `(addr >> TARGET_PAGE_BITS) & (CPU_TLB_SIZE - 1)`
abbrev pub slot : ℕ → ℕ
slot addr = bit_and (addr / 4096) 0xff

-- The loop of `tlb_flush_page` over the modes.
pub flush_modes : ℕ → ℕ → ℕ → ℕ → Table → Table
flush_modes zero mode i addr t = t
flush_modes (suc n) mode i addr t =
    flush_modes n (mode + 1) i addr (set_slot t mode i (tlb_flush_entry (t mode i) addr))

pub tlb_flush_page : Tlb → ℕ → Tlb
tlb_flush_page t addr =
    if bit_and addr t.tlb_flush_mask == t.tlb_flush_addr
    then tlb_flush t
    else (let page = bit_and addr target_page_mask in
        record t {
          current_tb = none;
          tlb_table = flush_modes nb_mmu_modes 0 (slot page) page t.tlb_table;
          tb_jmp_cache = tb_flush_jmp_cache t.tb_jmp_cache page;
        })

pub tlb_is_dirty_ram : TlbEntry → Bool
tlb_is_dirty_ram e =
    bit_and e.addr_write (bit_or (bit_or tlb_invalid_mask tlb_mmio) tlb_notdirty) == 0

pub tlb_reset_dirty_range : TlbEntry → ℕ → ℕ → TlbEntry
tlb_reset_dirty_range e start len =
    if tlb_is_dirty_ram e
    then (let addr = add64 (bit_and e.addr_write target_page_mask) e.addend in
        if ltb (sub64 addr start) len
        then record e { addr_write = bit_or e.addr_write tlb_notdirty }
        else e)
    else e

pub tlb_set_dirty1 : TlbEntry → ℕ → TlbEntry
tlb_set_dirty1 e vaddr =
    if e.addr_write == bit_or vaddr tlb_notdirty then record e { addr_write = vaddr } else e

set_dirty_modes : ℕ → ℕ → ℕ → ℕ → Table → Table
set_dirty_modes zero mode i vaddr t = t
set_dirty_modes (suc n) mode i vaddr t =
    set_dirty_modes n (mode + 1) i vaddr (set_slot t mode i (tlb_set_dirty1 (t mode i) vaddr))

pub tlb_set_dirty : Tlb → ℕ → Tlb
tlb_set_dirty t vaddr =
    let page = bit_and vaddr target_page_mask in
    record t { tlb_table = set_dirty_modes nb_mmu_modes 0 (slot page) page t.tlb_table }

-- `while (((flush_addr ^ vaddr) & mask) != 0) mask <<= 1;` A mask is 0 after 64 shifts, so that
-- the fuel is never used up.
pub widen : ℕ → ℕ → ℕ → ℕ
widen zero diff mask = mask
widen (suc fuel) diff mask = elim (bit_and diff mask == 0) [
  | true ↦ mask
  | false ↦ widen fuel diff (mask * 2 % w64)
]

pub tlb_add_large_page : Tlb → ℕ → ℕ → Tlb
tlb_add_large_page t vaddr size =
    let mask = not64 (sub64 size 1) in
    if t.tlb_flush_addr == minus_one
    then record t { tlb_flush_addr = bit_and vaddr mask; tlb_flush_mask = mask }
    else (let m = widen 65 (bit_xor t.tlb_flush_addr vaddr) (bit_and mask t.tlb_flush_mask) in
        record t { tlb_flush_addr = bit_and t.tlb_flush_addr m; tlb_flush_mask = m })
