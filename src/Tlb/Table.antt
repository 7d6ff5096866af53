-- ===== src/Tlb/Table.antt =====
-- The loops over the TLB table, entry by entry.
use fist_ame.Base.{
  ℕ, zero, suc, ◌+◌, ◌≡◌, ◌&&◌, ◌==◌, ltb, leb, if◌then◌else◌, none, Option, update, arith,
}
use fist_ame.Cpu.{TlbEntry, nb_mmu_modes}
use fist_ame.Tlb.{
  Table, empty_entry, set_slot, clear_modes, clear_slots, clear_cache, flush_modes, tlb_flush_entry,
}

pub set_slot_at :
    (t : Table) (mode i : ℕ) (e : TlbEntry) (m j : ℕ)
    → set_slot t mode i e m j ≡ (if m == mode && j == i then e else t m j)
unfolding set_slot
set_slot_at t mode i e m j = ground arith

pub clear_modes_at :
    (n mode i : ℕ) (t : Table) (m j : ℕ)
    → clear_modes n mode i t m j
      ≡ (if leb mode m && ltb m (mode + n) && j == i then empty_entry else t m j)
unfolding clear_modes
clear_modes_at zero mode i t m j = ground arith
clear_modes_at (suc n) mode i t m j = ground (
  arith,
  clear_modes_at n (mode + 1) i (set_slot t mode i empty_entry) m j,
  set_slot_at t mode i empty_entry m j,
)

pub clear_slots_at :
    (n i : ℕ) (t : Table) (m j : ℕ)
    → clear_slots n i t m j
      ≡ (if ltb m nb_mmu_modes && leb i j && ltb j (i + n) then empty_entry else t m j)
unfolding clear_slots
clear_slots_at zero i t m j = ground arith
clear_slots_at (suc n) i t m j = ground (
  arith,
  clear_slots_at n (i + 1) (clear_modes nb_mmu_modes 0 i t) m j,
  clear_modes_at nb_mmu_modes 0 i t m j,
)

pub clear_cache_at :
    (n i : ℕ) (c : ℕ → Option ℕ) (j : ℕ)
    → clear_cache n i c j ≡ (if leb i j && ltb j (i + n) then none else c j)
unfolding clear_cache
clear_cache_at zero i c j = ground arith
clear_cache_at (suc n) i c j = ground (arith, clear_cache_at n (i + 1) (update c i none) j)

pub flush_modes_at :
    (n mode i addr : ℕ) (t : Table) (m j : ℕ)
    → flush_modes n mode i addr t m j
      ≡ (if leb mode m && ltb m (mode + n) && j == i then tlb_flush_entry (t m j) addr else t m j)
unfolding flush_modes
flush_modes_at zero mode i addr t m j = ground arith
flush_modes_at (suc n) mode i addr t m j =
    let e = tlb_flush_entry (t mode i) addr in
    ground (
      arith,
      flush_modes_at n (mode + 1) i addr (set_slot t mode i e) m j,
      set_slot_at t mode i e m j,
    )
