-- ===== src/Tlb/Flush.antt =====
-- What a flush leaves in the TLB: no lookup of the flushed page hits, and pages that share no
-- entry with it keep theirs.
use fist_ame.Base.{
  ℕ, ◌/◌, ◌%◌, ◌<◌, ◌≡◌, ◌≢◌, ◌⊎◌, Bool, ◌||◌, ◌==◌, false, arith, bit_and, w64, minus_one,
  target_page_mask, page_mask_lem, low_8_lem, page_invalid_mask_lem, Bool-cases, inl, inr,
}
use fist_ame.Cpu.{TlbEntry, Tlb, cpu_tlb_size, nb_mmu_modes}
use fist_ame.Tlb.{empty_entry, comparator, slot, tlb_flush, tlb_flush_entry, tlb_flush_page}
use fist_ame.Tlb.Table.{clear_slots_at, flush_modes_at}

abbrev pub page_of : ℕ → ℕ
page_of addr = bit_and addr target_page_mask

-- An entry serves page `p`, by any of its comparators.
abbrev pub serves : TlbEntry → ℕ → Bool
serves e p =
    p == comparator e.addr_read || p == comparator e.addr_write || p == comparator e.addr_code

-- The lookup of `softmmu_template.h`: the slot of the address holds its page.
abbrev pub hit : Tlb → ℕ → ℕ → Bool
hit t mode addr = serves (t.tlb_table mode (slot addr)) (page_of addr)

serves-empty : (p : ℕ) → p % 0x1000 ≡ 0 → serves empty_entry p ≡ false
serves-empty p h = ground arith

serves-tlb_flush_entry :
    (e : TlbEntry) (p : ℕ) → p % 0x1000 ≡ 0 → serves (tlb_flush_entry e p) p ≡ false
unfolding tlb_flush_entry
serves-tlb_flush_entry e p h = ground (arith, serves-empty p h)

pub page_of_aligned : (addr : ℕ) → addr < w64 → page_of addr % 0x1000 ≡ 0
page_of_aligned addr h = omega (arith, page_mask_lem addr h)

pub slot_lt : (addr : ℕ) → slot addr < cpu_tlb_size
slot_lt addr = omega (arith, low_8_lem (addr / 4096))

slot-page_of : (addr : ℕ) → addr < w64 → slot (page_of addr) ≡ slot addr
slot-page_of addr h =
    omega (arith, low_8_lem (addr / 4096), low_8_lem (page_of addr / 4096), page_mask_lem addr h)

-- After `tlb_flush` no address hits in any mode.
pub hit-tlb_flush :
    (t : Tlb) (mode addr : ℕ)
    → mode < nb_mmu_modes
    → addr < w64
    → hit (tlb_flush t) mode addr ≡ false
unfolding tlb_flush
hit-tlb_flush t mode addr hm h = ground (
  arith,
  clear_slots_at cpu_tlb_size 0 t.tlb_table mode (slot addr),
  slot_lt addr,
  serves-empty (page_of addr) (page_of_aligned addr h),
)

-- After `tlb_flush_page` of an address, the address hits in no mode.
pub hit-tlb_flush_page :
    (t : Tlb) (mode addr : ℕ)
    → mode < nb_mmu_modes
    → addr < w64
    → hit (tlb_flush_page t addr) mode addr ≡ false
unfolding tlb_flush_page
hit-tlb_flush_page t mode addr hm h =
    elim (Bool-cases (bit_and addr t.tlb_flush_mask == t.tlb_flush_addr)) [
      | inl large ↦ rw large (hit-tlb_flush t mode addr hm h)
      | inr small ↦ rw small (
          ground (
            arith,
            flush_modes_at nb_mmu_modes 0 (slot page) page t.tlb_table mode (slot addr),
            slot-page_of addr h,
            serves-tlb_flush_entry (t.tlb_table mode (slot addr)) page (page_of_aligned addr h),
          ))
    ]
  where
    page : ℕ
    page = page_of addr

-- The comparators that are in use are of one page, as `tlb_set_page` leaves them.
pub record IsOnePage (e : TlbEntry) (p : ℕ) : Type 0 where
  pub read : (e.addr_read ≡ minus_one) ⊎ (page_of e.addr_read ≡ p)
  pub write : (e.addr_write ≡ minus_one) ⊎ (page_of e.addr_write ≡ p)
  pub code : (e.addr_code ≡ minus_one) ⊎ (page_of e.addr_code ≡ p)
  pub read_lt : e.addr_read < w64
  pub write_lt : e.addr_write < w64
  pub code_lt : e.addr_code < w64

comparator_ne :
    (a p q : ℕ)
    → a < w64
    → q % 0x1000 ≡ 0
    → p ≢ q
    → (a ≡ minus_one) ⊎ (page_of a ≡ p)
    → q ≢ comparator a
comparator_ne a p q h al ne (inl e) = rw e (omega arith)
comparator_ne a p q h al ne (inr e) = omega (arith, page_invalid_mask_lem a h, page_mask_lem a h)

-- A flush of one page keeps an entry of another.
tlb_flush_entry_ne :
    (e : TlbEntry) (p q : ℕ) → IsOnePage e p → q % 0x1000 ≡ 0 → p ≢ q → tlb_flush_entry e q ≡ e
unfolding tlb_flush_entry
tlb_flush_entry_ne e p q one al ne = ground (
  arith,
  comparator_ne e.addr_read p q one.read_lt al ne one.read,
  comparator_ne e.addr_write p q one.write_lt al ne one.write,
  comparator_ne e.addr_code p q one.code_lt al ne one.code,
)

-- `tlb_flush_page` of an address outside the large pages that are remembered keeps every entry of
-- another page, in every mode and slot.
pub table-tlb_flush_page :
    (t : Tlb) (mode i addr p : ℕ)
    → addr < w64
    → bit_and addr t.tlb_flush_mask ≢ t.tlb_flush_addr
    → IsOnePage (t.tlb_table mode i) p
    → p ≢ page_of addr
    → (tlb_flush_page t addr).tlb_table mode i ≡ t.tlb_table mode i
unfolding tlb_flush_page
table-tlb_flush_page t mode i addr p h small one ne = ground (
  arith,
  flush_modes_at nb_mmu_modes 0 (slot page) page t.tlb_table mode i,
  tlb_flush_entry_ne (t.tlb_table mode i) p page one (page_of_aligned addr h) ne,
)
  where
    page : ℕ
    page = page_of addr
