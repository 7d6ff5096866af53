-- ===== src/Tcg/Temps/Copies.antt =====
-- What a walk round a ring finds is a copy: of the same value and type.
use fist_ame.Base.{
  ltb, ◌==◌, if◌then◌else◌, ==_iff, Bool-cases, ℕ, zero, suc, ◌<◌, ◌≡◌, refl, ◌∙◌, ◌≢◌, inl, inr,
  Bool, true, false, not, ◌||◌, Option, none, some, arith,
}
use fist_ame.Tcg.Temps.{
  TempState, is_const, is_copy, Temps, Context, search_copies, other_copy, find_better_copy,
  temps_are_copies, temp_undef, temp_const, temp_copy,
}
use fist_ame.Tcg.Temps.Sound.{IsSound}

-- `y` can stand for `x`.
pub record SameAs (s : Context) (vals : ℕ → ℕ) (x y : ℕ) : Type 0 where
  pub lt : y < s.nb_temps
  pub val : vals y ≡ vals x
  pub type : s.type y ≡ s.type x

Finds : Context → (ℕ → Bool) → (ℕ → ℕ) → ℕ → Option (Option ℕ) → Type 0
Finds s found vals x none = Unit
Finds s found vals x (some none) = Unit
Finds s found vals x (some (some y)) = (found y ≡ true) × SameAs s vals x y

Other : Context → (ℕ → Bool) → (ℕ → ℕ) → ℕ → Option ℕ → Type 0
Other s found vals x none = Unit
Other s found vals x (some y) = (found y ≡ true) × SameAs s vals x y

module _ (s : Context) (temps : Temps) (vals : ℕ → ℕ) (h : IsSound s temps vals) where
  search_copies-Finds :
      (found : ℕ → Bool) (fuel x i : ℕ)
      → is_copy (temps.state i) ≡ true
      → SameAs s vals x i
      → Finds s found vals x (search_copies found temps fuel x i)
  unfolding search_copies Finds
  search_copies-Finds found zero x i c a = tt
  search_copies-Finds found (suc fuel) x i c a =
      let l = h.linked i a.lt c in
      let next =
        search_copies-Finds found fuel x (temps.next_copy i) l.next_is
          (record { lt = l.next_lt; val = l.next_val ∙ a.val; type = l.next_type ∙ a.type }) in
      elim (Bool-cases (i == x)) [
        | inl e ↦ rw e tt
        | inr e ↦ elim (Bool-cases (found i)) [ inl f ↦ rw (e, f) (f, a) | inr f ↦ rw (e, f) next ]
      ]

  other_copy-Other :
      (found : ℕ → Bool) (x : ℕ)
      → x < s.nb_temps
      → is_copy (temps.state x) ≡ true
      → Other s found vals x (other_copy s found temps x)
  unfolding other_copy Other Finds
  other_copy-Other found x xl c =
      let l = h.linked x xl c in
      spread (search_copies found temps s.nb_temps x (temps.next_copy x)) (
        search_copies-Finds found s.nb_temps x (temps.next_copy x) l.next_is
          (record { lt = l.next_lt; val = l.next_val; type = l.next_type }))
    where
      spread :
          (r : Option (Option ℕ))
          → Finds s found vals x r
          → Other s found vals x (elim r [ none ↦ none | some o ↦ o ])
      spread none f = tt
      spread (some none) f = tt
      spread (some (some y)) f = f

  itself : (x : ℕ) → x < s.nb_temps → SameAs s vals x x
  itself x xl = record { lt = xl; val = refl; type = refl }

  or_itself :
      (found : ℕ → Bool) (x : ℕ) (r : Option ℕ)
      → x < s.nb_temps
      → Other s found vals x r
      → SameAs s vals x (elim r [ some i ↦ i | none ↦ x ])
  unfolding Other
  or_itself found x none xl o = itself x xl
  or_itself found x (some i) xl o = o.1

  -- The better copy of a temporary can stand for it.
  pub find_better_copy-SameAs :
      (x : ℕ)
      → x < s.nb_temps
      → is_copy (temps.state x) ≡ true
      → SameAs s vals x (find_better_copy s temps x)
  unfolding find_better_copy Other
  find_better_copy-SameAs x xl c =
      let global = λ (i : ℕ). ltb i s.nb_globals in
      elim (Bool-cases (ltb x s.nb_globals)) [
        | inl g ↦ rw (find_better_copy, g) (itself x xl)
        | inr g ↦
            rw (find_better_copy, g)
              (outer (other_copy s global temps x) (other_copy-Other global x xl c))
      ]
    where
      outer :
          (r : Option ℕ)
          → Other s (λ i. ltb i s.nb_globals) vals x r
          → SameAs s vals x (elim r [
            | some i ↦ i
            | none ↦
                if s.temp_local x
                then x
                else elim (other_copy s s.temp_local temps x) [ some i ↦ i | none ↦ x ]
          ])
      outer (some i) o = o.1
      outer none o = elim (Bool-cases (s.temp_local x)) [
        | inl t ↦ rw t (itself x xl)
        | inr t ↦ rw t (
            or_itself s.temp_local x (other_copy s s.temp_local temps x) xl
              (other_copy-Other s.temp_local x xl c))
      ]

  -- Temporaries that count as copies hold the same value.
  pub temps_are_copies-SameAs :
      (x y : ℕ) → x < s.nb_temps → temps_are_copies s temps x y ≡ true → SameAs s vals x y
  unfolding temps_are_copies Other
  temps_are_copies-SameAs x y xl t = elim (Bool-cases (x == y)) [
    | inl e ↦ rw (← (==_iff x y).0 e) (itself x xl)
    | inr e ↦ elim (Bool-cases (is_copy (temps.state x))) [
      | inr c ↦ absurd (ground (arith, rw (temps_are_copies, e, c) at t))
      | inl c ↦ elim (Bool-cases (is_copy (temps.state y))) [
        | inr k ↦ absurd (ground (arith, rw (temps_are_copies, e, c, k) at t))
        | inl k ↦
            found (other_copy s (λ i. i == y) temps x) (other_copy-Other (λ i. i == y) x xl c)
              (rw (temps_are_copies, e, c, k) at t)
      ]
    ]
  ]
    where
      found :
          (r : Option ℕ)
          → Other s (λ i. i == y) vals x r
          → elim r as (λ _. Bool) [ some i ↦ true | none ↦ false ] ≡ true
          → SameAs s vals x y
      found none o e = cc
      found (some i) o e = rw (← (==_iff i y).0 o.0) o.1

pub copies_not-ne :
    (s : Context) (temps : Temps) (x y : ℕ) → temps_are_copies s temps x y ≡ false → x ≢ y
unfolding temps_are_copies
copies_not-ne s temps x y e q =
    let xy : (x == y) ≡ true = ground (arith, q) in
    absurd (ground (arith, rw (temps_are_copies, xy) at e))

-- A constant is a copy of itself alone.
pub copies_const :
    (s : Context) (temps : Temps) (x y : ℕ)
    → temps_are_copies s temps x y ≡ true
    → is_const (temps.state x) ≡ true
    → x ≡ y
unfolding temps_are_copies
copies_const s temps x y t k = elim (Bool-cases (x == y)) [
  | inl e ↦ (==_iff x y).0 e
  | inr e ↦ absurd (no_copy (temps.state x) k (rw (temps_are_copies, e) at t))
]
  where
    no_copy :
        (v : TempState)
        → is_const v ≡ true
        → (if not (is_copy v) || not (is_copy (temps.state y))
            then false
            else elim (other_copy s (λ i. i == y) temps x) [ some i ↦ true | none ↦ false ])
          ≡ true
        → ⊥
    no_copy temp_const k t = cc t
    no_copy temp_undef k t = cc k
    no_copy temp_copy k t = cc k
