-- ===== src/Api/Points/Answer.antt =====
-- The queries of vx64/vx64.c against the queues, and the debugger's calls against the queries.
use fist_ame.Base.{
  ℕ, zero, suc, ◌+◌, ◌-◌, ◌≡◌, refl, ap, ◌∙◌, Bool, true, false, List, [], ◌∷◌, ◌++◌, map, keep,
  take, length, min, leb, nz, bit_and, if◌then◌else◌, arith, Bool-cases, inl, inr, not, sym, ◌≤◌,
  ◌<◌, ◌==◌, ltb, ==_iff, bit_or, w64, add64, not64,
}
use mathlib.Core.List.{append_assoc, append-nil}
use fist_ame.Cpu.{Env, bp_gdb}
use fist_ame.Debug.{
  refused, len_mask_of, cpu_breakpoint_insert, cpu_watchpoint_insert, ok, Status, without_hit,
}
use fist_ame.Debug.Clear.{inserted_bp, inserted_wp, breakpoints-cpu_breakpoint_remove_all}
use fist_ame.Debug.Queues.{IsTidy, bp_is_gdb}
use fist_ame.Api.Regs.{VxError, vxerr_ok, vxerr_insuf_buf}
use fist_ame.Api.Go.{report, vxwp_type}
use fist_ame.Api.Points.{
  ok_or_fail, Query, query_from, query_result, empty_query, vx64_query_bps, vx64_query_wps,
  vx64_insert_bp, vx64_insert_wp, vx64_remove_all_bps, access_flags,
}

keep_none : {A : Type 0} (p : A → Bool) (xs : List A) → keep p (keep (λ x. not (p x)) xs) ≡ []
keep_none p [] = refl
keep_none p (x ∷ xs) = elim (Bool-cases (p x)) [
  | inl e ↦ rw e (keep_none p xs)
  | inr e ↦ rw (e, keep, e) (keep_none p xs)
]

take_nil : {A : Type 0} (n : ℕ) → take {A = A} n [] ≡ []
take_nil zero = refl
take_nil (suc n) = refl

module _ {A B : Type 0} (p : A → Bool) (out : A → B) (len : ℕ) where
  abbrev found : List A → List B
  found xs = map out (keep p xs)

  room :
      (n : ℕ) (x : B) (xs : List B)
      → n < len
      → take (len - n) (x ∷ xs) ≡ x ∷ take (len - (n + 1)) xs
  room n x xs h = let e : len - n ≡ suc (len - (n + 1)) = omega arith in rw e refl

  no_room : (n : ℕ) (xs : List B) → len ≤ n → take (len - n) xs ≡ []
  no_room n xs h = let e : len - n ≡ 0 = omega arith in rw e refl

  -- What the loop adds to a buffer: the first of the elements found, as many as there is room for.
  query_from_lem :
      (xs : List A) (q : Query B)
      → q.num_copied ≡ min len q.total
      → let r = query_from p out len xs q in
        (r.copied ≡ q.copied ++ take (len - q.total) (found xs))
        × (r.total ≡ q.total + length (found xs))
        × (r.num_copied ≡ min len r.total)
  unfolding query_from
  query_from_lem [] q e = (
    sym (append-nil q.copied)
        ∙ ap (λ (ys : List B). q.copied ++ ys) (sym (take_nil (len - q.total))),
    omega arith,
    e,
  )
  query_from_lem (x ∷ xs) q e = elim (Bool-cases (p x)) [
    | inr f ↦ rw (f, query_from) (query_from_lem xs q e)
    | inl f ↦ elim (Bool-cases (ltb q.num_copied len)) [
      | inl g ↦
          let q' : Query B = record {
            copied = q.copied ++ out x ∷ [];
            num_copied = q.num_copied + 1;
            total = q.total + 1;
          } in
          let (c, t, n) = query_from_lem xs q' (ground (arith, e, g)) in
          rw (f, g, query_from)
            (
              c
                  ∙ append_assoc q.copied (out x ∷ []) _
                  ∙ ap (λ (ys : List B). q.copied ++ ys)
                      (sym (room q.total (out x) (found xs) (ground (arith, e, g)))),
              omega (arith, t),
              n,
            )
      | inr g ↦
          let (c, t, n) =
            query_from_lem xs (record q { total = q.total + 1 }) (ground (arith, e, g)) in
          rw (f, g, query_from)
            (
              c
                  ∙ ap (λ (ys : List B). q.copied ++ ys)
                      (no_room (q.total + 1) (found xs) (ground (arith, e, g))
                        ∙ sym (no_room q.total (out x ∷ found xs) (ground (arith, e, g)))),
              omega (arith, t),
              n,
            )
    ]
  ]

  -- The whole query, from the counters at 0.
  query_lem :
      (xs : List A)
      → let total = length (found xs) in
        query_result (query_from p out len xs empty_query)
        ≡ ((if leb total len then vxerr_ok else vxerr_insuf_buf), take len (found xs), total)
  unfolding query_result empty_query
  query_lem xs =
      let (c, t, n) = query_from_lem xs empty_query (omega arith) in
      let total = length (found xs) in
      let room : len - 0 ≡ len = omega arith in
      let q = query_from p out len xs empty_query in
      let same : (q.num_copied == q.total) ≡ leb total len = ground (arith, t, n) in
      let all : q.total ≡ total = omega (arith, t) in rw (same, c, all, room) refl

-- `vx64_query_bps` writes the addresses of the debugger's breakpoints in the order of the queue, as
-- many as the buffer has room for, sets `*len` to the number of them all, and says
-- VXERR_INSUF_BUF exactly where they do not all fit. The CPU's own breakpoints are left out.
pub vx64_query_bps_lem :
    (env : Env) (len : ℕ)
    → let bps = map (λ b. b.pc) (keep (λ b. nz (bit_and b.flags bp_gdb)) env.breakpoints) in
      vx64_query_bps env len
      ≡ ((if leb (length bps) len then vxerr_ok else vxerr_insuf_buf), take len bps, length bps)
unfolding vx64_query_bps
vx64_query_bps_lem env len = query_lem _ _ len env.breakpoints

-- `vx64_query_wps` does the same with the debugger's watchpoints.
pub vx64_query_wps_lem :
    (env : Env) (len : ℕ)
    → let wps = map report (keep (λ w. nz (bit_and w.flags bp_gdb)) env.watchpoints) in
      vx64_query_wps env len
      ≡ ((if leb (length wps) len then vxerr_ok else vxerr_insuf_buf), take len wps, length wps)
unfolding vx64_query_wps
vx64_query_wps_lem env len = query_lem _ _ len env.watchpoints

ok_lem : (r : Status × Env) → r.0 ≡ ok → ok_or_fail r ≡ (vxerr_ok, r.1)
ok_lem (s, env) e = rw e refl

insert_bp_lem :
    (fresh : ℕ) (env : Env) (pc : ℕ)
    → ((vx64_insert_bp fresh env pc).0 ≡ vxerr_ok)
      × ((vx64_insert_bp fresh env pc).1.breakpoints
          ≡ (record { ref = fresh; pc = pc; flags = bp_gdb }) ∷ env.breakpoints)
unfolding vx64_insert_bp
insert_bp_lem fresh env pc =
    let (o, e) = inserted_bp fresh env pc bp_gdb refl in
    let r = ok_lem (cpu_breakpoint_insert fresh env pc bp_gdb) o in
    (ap (λ (x : VxError × Env). x.0) r, ap (λ (x : VxError × Env). x.1.breakpoints) r ∙ e)

-- The three access types, and what becomes of them on the way in and out.
type_lem :
    (type : ℕ)
    → 1 ≤ type
    → type ≤ 3
    → (access_flags type ≡ type)
      × (vxwp_type (bit_or (access_flags type) bp_gdb) ≡ type)
      × (nz (bit_and (bit_or (access_flags type) bp_gdb) bp_gdb) ≡ true)
      × (nz (access_flags type) ≡ true)
      × (without_hit (bit_or (access_flags type) bp_gdb) ≡ bit_or (access_flags type) bp_gdb)
type_lem type lo hi = elim (Bool-cases (type == 1)) [
  | inl h ↦ let e = (==_iff type 1).0 h in rw e (refl, refl, refl, refl, refl)
  | inr n ↦ elim (Bool-cases (type == 2)) [
    | inl h ↦ let e = (==_iff type 2).0 h in rw e (refl, refl, refl, refl, refl)
    | inr m ↦ let e : type ≡ 3 = ground (arith, n, m) in rw e (refl, refl, refl, refl, refl)
  ]
]

size_lem : (size : ℕ) → size < w64 → add64 (not64 (len_mask_of size)) 1 ≡ size
size_lem size h = omega arith

insert_wp_lem :
    (fresh : ℕ) (env : Env) (addr size type : ℕ)
    → 1 ≤ type
    → type ≤ 3
    → refused addr size ≡ false
    → ((vx64_insert_wp fresh env addr size type).0 ≡ vxerr_ok)
      × ((vx64_insert_wp fresh env addr size type).1.watchpoints
          ≡ (record {
            ref = fresh;
            vaddr = addr;
            len_mask = len_mask_of size;
            flags = bit_or (access_flags type) bp_gdb;
          })
            ∷ env.watchpoints)
unfolding vx64_insert_wp
insert_wp_lem fresh env addr size type lo hi a =
    let (_, _, g, n, _) = type_lem type lo hi in
    let (o, e) = inserted_wp fresh env addr size (bit_or (access_flags type) bp_gdb) a g in
    let r =
      ok_lem (cpu_watchpoint_insert fresh env addr size (bit_or (access_flags type) bp_gdb)) o in
    rw n (ap (λ (x : VxError × Env). x.0) r, ap (λ (x : VxError × Env). x.1.watchpoints) r ∙ e)

-- A watchpoint of one of the three access types that is not refused is accepted, and a query with
-- room for one more reports it first, with the type, the address and the size that were asked for.
pub vx64_query_wps-vx64_insert_wp :
    (fresh : ℕ) (env : Env) (addr size type len : ℕ)
    → 1 ≤ type
    → type ≤ 3
    → size < w64
    → refused addr size ≡ false
    → let (err, env') = vx64_insert_wp fresh env addr size type in
      (err ≡ vxerr_ok)
      × ((vx64_query_wps env' (suc len)).1
          ≡ (record { kind = type; gvma = addr; size = size }) ∷ (vx64_query_wps env len).1)
vx64_query_wps-vx64_insert_wp fresh env addr size type len lo hi s a =
    let (o, e) = insert_wp_lem fresh env addr size type lo hi a in
    let (_, k, g, _, _) = type_lem type lo hi in
    let old = vx64_query_wps_lem env len in
    let new = vx64_query_wps_lem (vx64_insert_wp fresh env addr size type).1 (suc len) in
    (o, rw (old, new, e, g, k, size_lem size s) refl)

-- After `vx64_insert_bp`, which never fails, a query with room for one more writes the new address
-- before those that it wrote till then.
pub vx64_query_bps-vx64_insert_bp :
    (fresh : ℕ) (env : Env) (vma_guest len : ℕ)
    → let (err, env') = vx64_insert_bp fresh env vma_guest in
      (err ≡ vxerr_ok)
      × ((vx64_query_bps env' (suc len)).1 ≡ vma_guest ∷ (vx64_query_bps env len).1)
      × ((vx64_query_bps env' (suc len)).2 ≡ suc (vx64_query_bps env len).2)
vx64_query_bps-vx64_insert_bp fresh env vma_guest len =
    let (o, e) = insert_bp_lem fresh env vma_guest in
    let old = vx64_query_bps_lem env len in
    let new = vx64_query_bps_lem (vx64_insert_bp fresh env vma_guest).1 (suc len) in
    (o, rw (old, new, e) refl, rw (old, new, e) refl)

-- After `vx64_remove_all_bps` a query finds nothing, whatever the room.
pub vx64_query_bps-vx64_remove_all_bps :
    (env : Env) (len : ℕ)
    → IsTidy env
    → vx64_query_bps (vx64_remove_all_bps env).1 len ≡ (vxerr_ok, [], 0)
unfolding vx64_remove_all_bps
vx64_query_bps-vx64_remove_all_bps env len v =
    let (b, w) = breakpoints-cpu_breakpoint_remove_all env bp_gdb v in
    let none_left = keep_none bp_is_gdb env.breakpoints in
    let fits : leb 0 len ≡ true = ground arith in
    rw (vx64_query_bps_lem, b, none_left, fits, take_nil) refl
