-- ===== src/Tcg/Optimize/Moves.antt =====
-- What the optimiser emits for an assignment assigns the same value, and what it then knows is true.
use mathlib.Core.Path.{fun_ext}
use fist_ame.Base.{
  Bool-cases, update, w64, ℕ, ◌%◌, ◌<◌, ◌≡◌, refl, sym, ap, ◌∙◌, inl, inr, true, false, Option,
  none, some, arith,
}
use fist_ame.Tcg.Op.{Width, Op, i32, i64, nop, mov}
use fist_ame.Tcg.Meaning.{words}
use fist_ame.Tcg.Temps.{is_const, Temps, Context, reset_temp, temps_are_copies, tcg_opt_gen_mov}
use fist_ame.Tcg.Temps.Sound.{
  IsSound, const_lt, mod_words, within_word, whole_word, reset_temp-IsSound,
}
use fist_ame.Tcg.Temps.Gen.{tcg_opt_gen_movi-IsSound, Moved, tcg_opt_gen_mov-IsSound}
use fist_ame.Tcg.Temps.Copies.{temps_are_copies-SameAs, copies_not-ne}
use fist_ame.Tcg.Optimize.{gen_movi, emit_mov, gen_mov, gen_mov_const}
use fist_ame.Tcg.Exec.{World, is_label, read, exec, next}
use fist_ame.Tcg.Exec.Typed.{Has, HasWord}

-- The emitted operation assigns `v` to `dst`.
abbrev pub Assigns :
    {M : Type 0} → World M → Context → (ℕ → ℕ) → M → ℕ → ℕ → Option (Op × Temps) → Type 0
Assigns world s vals m dst v none = ⊥
Assigns world s vals m dst v (some (op, temps)) =
    (exec world s op vals m ≡ next (update vals dst v) m)
    × IsSound s temps (update vals dst v)
    × ((label : ℕ) → is_label label op ≡ false)

update_same : (vals : ℕ → ℕ) (x v : ℕ) → vals x ≡ v → update vals x v ≡ vals
update_same vals x v e = fun_ext (λ y. ground (arith, e))

module _ {M : Type 0} (world : World M) (s : Context) (temps : Temps) (vals : ℕ → ℕ) (m : M)
    (h : IsSound s temps vals) where
  pub gen_movi-Assigns :
      (w : Width) (dst val v : ℕ)
      → Has s w dst
      → val < w64
      → v ≡ val % words w
      → Assigns world s vals m dst v (gen_movi temps w dst val)
  unfolding gen_movi exec
  gen_movi-Assigns w dst val v d p e =
      rw e (
        refl,
        rw (← d.type) (tcg_opt_gen_movi-IsSound s temps vals dst val h d.lt p),
        λ label. refl,
      )

  -- Nothing is known of the result of an operation that is kept.
  pub kept-Assigns :
      (op : Op) (w : Width) (dst v : ℕ)
      → Has s w dst
      → v < words w
      → exec world s op vals m ≡ next (update vals dst v) m
      → ((label : ℕ) → is_label label op ≡ false)
      → Assigns world s vals m dst v (some (op, reset_temp temps dst))
  kept-Assigns op w dst v d p e i =
      (e, reset_temp-IsSound s temps vals h dst d.lt v (rw d.type p), i)

  same-Assigns :
      (w : Width) (dst src : ℕ)
      → Has s w dst
      → temps_are_copies s temps dst src ≡ true
      → Assigns world s vals m dst (read w vals src) (some (nop, temps))
  unfolding exec
  same-Assigns w dst src d e =
      let c = temps_are_copies-SameAs s temps vals h dst src d.lt e in
      let q : vals dst ≡ read w vals src =
        rw c.val (sym (whole_word w (vals dst) (rw (← d.type) (h.range dst d.lt)))) in
      rw (update_same vals dst (read w vals src) q) (refl, h, λ label. refl)

  emit_mov-Assigns :
      (w : Width) (dst src : ℕ)
      → Has s w dst
      → src < s.nb_temps
      → is_const (temps.state src) ≡ false
      → temps_are_copies s temps dst src ≡ false
      → Assigns world s vals m dst (read w vals src) (emit_mov s temps w dst src)
  unfolding emit_mov Moved exec
  emit_mov-Assigns w dst src d a k e = spread (tcg_opt_gen_mov s temps dst src) (
      tcg_opt_gen_mov-IsSound s temps vals dst src (read w vals src) h d.lt a
        (copies_not-ne s temps dst src e) k (rw d.type (mod_words w (vals src)))
        (within_word w (vals src) (temps.mask src) (h.masked src a))
        (λ t. whole_word w (vals src) (rw (← d.type, ← t) (h.range src a))))
    where
      spread :
          (r : Option Temps)
          → Moved s (update vals dst (read w vals src)) r
          → Assigns world s vals m dst
              (read w vals src)
              (elim r [ none ↦ none | some temps' ↦ some (mov w dst src, temps') ])
      spread none r = absurd r
      spread (some temps') r = (refl, r, λ label. refl)

  pub gen_mov-Assigns :
      (w : Width) (dst src : ℕ)
      → Has s w dst
      → src < s.nb_temps
      → is_const (temps.state src) ≡ false
      → Assigns world s vals m dst (read w vals src) (gen_mov s temps w dst src)
  unfolding gen_mov
  gen_mov-Assigns w dst src d a k = elim (Bool-cases (temps_are_copies s temps dst src)) [
    | inl e ↦ rw (gen_mov, e) (same-Assigns w dst src d e)
    | inr e ↦ rw (gen_mov, e) (emit_mov-Assigns w dst src d a k e)
  ]

  -- The word of a constant that is read.
  pub const_word :
      (w : Width) (src : ℕ)
      → HasWord s w src
      → is_const (temps.state src) ≡ true
      → read w vals src ≡ temps.val src % words w
  const_word w src a k =
      ap (λ (t : ℕ). t % words w) (h.known src a.lt k) ∙ cut w (s.type src) a.type (temps.val src)
    where
      cut : (w v : Width) → (w ≡ i64 → v ≡ i64) → (x : ℕ) → x % words v % words w ≡ x % words w
      cut i32 i32 e x = omega arith
      cut i32 i64 e x = omega arith
      cut i64 i64 e x = omega arith
      cut i64 i32 e x = cc (e refl)

  -- The move of a temporary that may be a constant.
  pub gen_mov_const-Assigns :
      (w : Width) (dst src : ℕ)
      → Has s w dst
      → src < s.nb_temps
      → (is_const (temps.state src) ≡ true → read w vals src ≡ temps.val src % words w)
      → Assigns world s vals m dst (read w vals src) (gen_mov_const s temps w dst src)
  unfolding gen_mov_const
  gen_mov_const-Assigns w dst src d a c = elim (Bool-cases (temps_are_copies s temps dst src)) [
    | inl e ↦ rw (gen_mov_const, e) (same-Assigns w dst src d e)
    | inr e ↦ elim (Bool-cases (is_const (temps.state src))) [
      | inl k ↦
          rw (gen_mov_const, e, k)
            (gen_movi-Assigns w dst (temps.val src) (read w vals src) d
              (const_lt s temps vals h src a k) (c k))
      | inr k ↦ rw (gen_mov_const, e, k) (emit_mov-Assigns w dst src d a k e)
    ]
  ]
