-- ===== src/Mmu/Entry/Rights.antt =====
-- A page that the walk accepts for an access has the right that the access needs.
use fist_ame.Base.{
  ℕ, ◌^◌, ◌<◌, ◌≡◌, refl, ◌∙◌, Bool, true, false, ◌&&◌, ◌||◌, not, ◌==◌, Bool-cases, inl, inr,
  if◌then◌else◌, bit_or, bit-bit_or, arith,
}
use fist_ame.Cpu.{Env, cr0_wp_mask, page_read, page_write, page_exec, excp_page}
use fist_ame.Control.{has}
use fist_ame.Control.Flags.{has-bit}
use fist_ame.Mmu.Entry.{
  Phys, is_write, denied, prot_of, mark_leaf, do_fault, pg_nx_mask, pg_dirty_mask, pg_rw_mask,
  pg_user_mask, pg_accessed_mask,
}

pub has_or : (k x y : ℕ) → has (bit_or x y) (2 ^ k) ≡ (has x (2 ^ k) || has y (2 ^ k))
has_or k x y =
    rw (has-bit k (bit_or x y), has-bit k x, has-bit k y, bit-bit_or x y k) (ground arith)

-- The rights that an access needs: reading always, writing for a write, execution for a fetch.
pub record Grants (is_write1 prot : ℕ) : Type 0 where
  pub read : has prot page_read ≡ true
  pub write : is_write is_write1 ≡ true → has prot page_write ≡ true
  pub exec : is_write1 ≡ 2 → has prot page_exec ≡ true

or_right : (a : Bool) → (a || true) ≡ true
or_right true = refl
or_right false = refl

-- The rights as `prot_of` puts them together.
abbrev rights : Bool → Bool → ℕ
rights nx write =
    bit_or (bit_or page_read (if nx then 0 else page_exec)) (if write then page_write else 0)

read_lem : (nx write : Bool) → has (rights nx write) page_read ≡ true
read_lem true true = refl
read_lem true false = refl
read_lem false true = refl
read_lem false false = refl

write_right : (nx : Bool) → has (rights nx true) page_write ≡ true
write_right true = refl
write_right false = refl

exec_lem : (write : Bool) → has (rights false write) page_exec ≡ true
exec_lem true = refl
exec_lem false = refl

-- The test of a conjunction in the code, at its two ends.
pub or_false : (a b : Bool) → (a || b) ≡ false → (a ≡ false) × (b ≡ false)
or_false false b h = (refl, h)
or_false true b h = absurd (ground (arith, h))

-- What `denied` leaves of a write, whatever the three conditions are.
write_lem : (wp w rw : Bool) → w ≡ true → (wp && w && not rw) ≡ false → (not wp || rw) ≡ true
write_lem false w rw e h = refl
write_lem true w true e h = refl
write_lem true true false e h = absurd (ground (arith, h))
write_lem true false false e h = absurd (ground (arith, e))

user_lem : (w rw : Bool) → w ≡ true → (w && not rw) ≡ false → rw ≡ true
user_lem w true e h = refl
user_lem true false e h = absurd (ground (arith, h))
user_lem false false e h = absurd (ground (arith, e))

-- After the last entry was marked for a write it is dirty.
pub dirty_leaf :
    {Mem : Type 0} (phys : Phys Mem) (mem : Mem) (is_write1 addr entry : ℕ)
    → is_write is_write1 ≡ true
    → has (mark_leaf phys mem is_write1 addr entry).0 pg_dirty_mask ≡ true
unfolding mark_leaf
dirty_leaf phys mem is_write1 addr entry w = elim (Bool-cases (has entry pg_dirty_mask)) [
  | inl d ↦ elim (Bool-cases (has entry pg_accessed_mask)) [
    | inl a ↦ rw (mark_leaf, w, d, a, d) refl
    | inr a ↦ rw (mark_leaf, w, d, a) (has_or 6 entry pg_accessed_mask ∙ rw d refl)
  ]
  | inr d ↦ elim (Bool-cases (has entry pg_accessed_mask)) [
    | inl a ↦
        rw (mark_leaf, w, d, a)
          (has_or 6 (bit_or entry pg_accessed_mask) pg_dirty_mask ∙ or_right _)
    | inr a ↦
        rw (mark_leaf, w, d, a)
          (has_or 6 (bit_or entry pg_accessed_mask) pg_dirty_mask ∙ or_right _)
  ]
]

-- Whether the page may become writable in the TLB.
abbrev writable : Env → ℕ → ℕ → Bool
writable env mmu_idx ptep =
    if mmu_idx == 1
    then has ptep pg_rw_mask
    else not (has (env.cr 0) cr0_wp_mask) || has ptep pg_rw_mask

writable_lem :
    (env : Env) (mmu_idx is_write1 ptep : ℕ)
    → mmu_idx < 3
    → is_write is_write1 ≡ true
    → denied env mmu_idx is_write1 ptep ≡ false
    → writable env mmu_idx ptep ≡ true
unfolding denied
writable_lem env mmu_idx is_write1 ptep i w d = elim (Bool-cases (mmu_idx == 1)) [
  | inl u ↦
      rw u (
        user_lem (is_write is_write1) (has ptep pg_rw_mask) w
          (or_false _ _ (rw (denied, u) at d)).1)
  | inr u ↦ elim (Bool-cases (mmu_idx == 0)) [
    | inl k ↦ rw u (write_lem _ (is_write is_write1) _ w (or_false _ _ (rw (denied, u, k) at d)).1)
    | inr k ↦
        let s : (mmu_idx == 2) ≡ true = ground (arith, i, u, k) in
        rw u (write_lem _ (is_write is_write1) _ w (or_false _ _ (rw (denied, u, k, s) at d)).1)
  ]
]

pub prot-Grants :
    (env : Env) (mmu_idx is_write1 pte ptep : ℕ)
    → mmu_idx < 3
    → denied env mmu_idx is_write1 ptep ≡ false
    → (is_write is_write1 ≡ true → has pte pg_dirty_mask ≡ true)
    → (is_write1 ≡ 2 → has ptep pg_nx_mask ≡ false)
    → Grants is_write1 (prot_of env mmu_idx pte ptep)
unfolding prot_of
prot-Grants env mmu_idx is_write1 pte ptep i d w x = record {
  read = read_lem (has ptep pg_nx_mask) _;
  write = λ h.
      rw (w h, writable_lem env mmu_idx is_write1 ptep i h d) (write_right (has ptep pg_nx_mask));
  exec = λ h. rw (x h) (exec_lem _);
}

or_zero : (b : Bool) → (b || false) ≡ b
or_zero true = refl
or_zero false = refl

-- Marking an entry keeps its other bits.
pub mark_kept :
    {Mem : Type 0} (phys : Phys Mem) (is_write1 k : ℕ) (mem : Mem) (addr entry : ℕ)
    → has pg_accessed_mask (2 ^ k) ≡ false
    → has pg_dirty_mask (2 ^ k) ≡ false
    → has (mark_leaf phys mem is_write1 addr entry).0 (2 ^ k) ≡ has entry (2 ^ k)
unfolding mark_leaf
mark_kept phys is_write1 k mem addr entry p q =
    let e = bit_or entry pg_accessed_mask in
    let e_lem : has e (2 ^ k) ≡ has entry (2 ^ k) =
      rw (has_or k entry pg_accessed_mask, p) (or_zero _) in
    let d_lem : has (bit_or e pg_dirty_mask) (2 ^ k) ≡ has entry (2 ^ k) =
      rw (has_or k e pg_dirty_mask, q) (or_zero _ ∙ e_lem) in
    elim (Bool-cases (is_write is_write1 && not (has entry pg_dirty_mask))) [
      | inl d ↦ elim (Bool-cases (has entry pg_accessed_mask)) [
        | inl h ↦ rw (mark_leaf, d, h) d_lem
        | inr h ↦ rw (mark_leaf, d, h) d_lem
      ]
      | inr d ↦ elim (Bool-cases (has entry pg_accessed_mask)) [
        | inl h ↦ rw (mark_leaf, d, h) refl
        | inr h ↦ rw (mark_leaf, d, h) e_lem
      ]
    ]

-- The checks read the bits U and RW of the rights only.
pub denied_same :
    (env : Env) (mmu_idx is_write1 x y : ℕ)
    → has x pg_rw_mask ≡ has y pg_rw_mask
    → has x pg_user_mask ≡ has y pg_user_mask
    → denied env mmu_idx is_write1 x ≡ denied env mmu_idx is_write1 y
unfolding denied
denied_same env mmu_idx is_write1 x y r u = rw (denied, r, u) refl

pub do_fault-excp_page :
    {Mem : Type 0} (phys : Phys Mem) (env : Env) (mem : Mem) (addr mmu_idx is_write1 error_code : ℕ)
    → (do_fault phys env mem addr mmu_idx is_write1 error_code).0.exception_index ≡ excp_page
unfolding do_fault
do_fault-excp_page phys env mem addr mmu_idx is_write1 error_code = refl
