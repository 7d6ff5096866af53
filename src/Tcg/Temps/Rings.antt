-- ===== src/Tcg/Temps/Rings.antt =====
-- The members of a ring of copies, and the fuel of the loops over them.
use fist_ame.Base.{
  length, ◌==◌, if◌then◌else◌, ==_iff, Bool-cases, ℕ, zero, suc, ◌+◌, ◌≤◌, ◌<◌, ◌≡◌, refl, sym, ap,
  ◌∙◌, subst, ◌≢◌, inl, inr, Bool, true, none, List, [], ◌∷◌, arith,
}
use fist_ame.Tcg.Temps.{is_copy, Temps, Context, search_copies}
use fist_ame.Tcg.Temps.Sound.{IsSound}

-- Different from all of a list; lists without repetition; lists of small numbers.
Away : ℕ → List ℕ → Type 0
Away x [] = Unit
Away x (y ∷ ys) = (x ≢ y) × Away x ys

Apart : List ℕ → Type 0
Apart [] = Unit
Apart (x ∷ xs) = Away x xs × Apart xs

Below : ℕ → List ℕ → Type 0
Below n [] = Unit
Below n (x ∷ xs) = (x < n) × Below n xs

drop_one : ℕ → List ℕ → List ℕ
drop_one n [] = []
drop_one n (x ∷ xs) = let rest = drop_one n xs in if x == n then xs else x ∷ rest

length-drop_one : (n : ℕ) (xs : List ℕ) → length xs ≤ suc (length (drop_one n xs))
unfolding drop_one
length-drop_one n [] = omega arith
length-drop_one n (x ∷ xs) = elim (Bool-cases (x == n)) [
  | inl e ↦ rw e (omega arith)
  | inr e ↦ rw e (omega (arith, length-drop_one n xs))
]

Away-drop_one : (n y : ℕ) (xs : List ℕ) → Away y xs → Away y (drop_one n xs)
unfolding Away drop_one
Away-drop_one n y [] a = a
Away-drop_one n y (x ∷ xs) a = elim (Bool-cases (x == n)) [
  | inl e ↦ rw e a.1
  | inr e ↦ rw e (a.0, Away-drop_one n y xs a.1)
]

Apart-drop_one : (n : ℕ) (xs : List ℕ) → Apart xs → Apart (drop_one n xs)
unfolding Apart drop_one
Apart-drop_one n [] a = a
Apart-drop_one n (x ∷ xs) a = elim (Bool-cases (x == n)) [
  | inl e ↦ rw e a.1
  | inr e ↦ rw e (Away-drop_one n x xs a.0, Apart-drop_one n xs a.1)
]

Below-Away : (n : ℕ) (xs : List ℕ) → Below (suc n) xs → Away n xs → Below n xs
unfolding Below Away
Below-Away n [] b a = b
Below-Away n (x ∷ xs) b a = (omega (arith, b.0, a.0), Below-Away n xs b.1 a.1)

Below-drop_one : (n : ℕ) (xs : List ℕ) → Below (suc n) xs → Apart xs → Below n (drop_one n xs)
unfolding Below Apart drop_one
Below-drop_one n [] b a = b
Below-drop_one n (x ∷ xs) b a = elim (Bool-cases (x == n)) [
  | inl e ↦ rw e (Below-Away n xs b.1 (subst (λ (t : ℕ). Away t xs) ((==_iff x n).0 e) a.0))
  | inr e ↦ rw e (ground (arith, b.0, e), Below-drop_one n xs b.1 a.1)
]

-- Different numbers below n are n at most.
length_le : (n : ℕ) (xs : List ℕ) → Below n xs → Apart xs → length xs ≤ n
unfolding Below
length_le n [] b a = omega arith
length_le zero (x ∷ xs) b a = absurd (omega (arith, b.0))
length_le (suc n) (x ∷ xs) b a =
    let r =
      length_le n (drop_one n (x ∷ xs)) (Below-drop_one n (x ∷ xs) b a)
        (Apart-drop_one n (x ∷ xs) a) in
    omega (arith, r, length-drop_one n (x ∷ xs))

Apart-more : (i y : ℕ) (ys : List ℕ) → Away i (y ∷ ys) → Apart (y ∷ ys) → Apart (i ∷ y ∷ ys)
unfolding Apart
Apart-more i y ys n a = (n, a)

Apart-first : (y : ℕ) (ys : List ℕ) → Apart (y ∷ ys) → Away y ys
unfolding Apart
Apart-first y ys a = a.0

Below-more : (n i y : ℕ) (ys : List ℕ) → i < n → Below n (y ∷ ys) → Below n (i ∷ y ∷ ys)
unfolding Below
Below-more n i y ys l b = (l, b)

longer :
    (n i y : ℕ) (ys : List ℕ) (fuel : ℕ)
    → n < length (y ∷ ys) + suc fuel
    → n < length (i ∷ y ∷ ys) + fuel
longer n i y ys fuel f = omega (arith, f)

module _ (s : Context) (temps : Temps) (vals : ℕ → ℕ) (h : IsSound s temps vals) (x : ℕ) where
  -- The members that were passed, the last one first: each but `x` has its neighbour before it.
  Passed : List ℕ → Type 0
  Passed [] = ⊥
  Passed (y ∷ []) = y ≡ x
  Passed (y ∷ z ∷ zs) = (temps.prev_copy y ≡ z) × Passed (z ∷ zs)

  Away-next :
      (i p y : ℕ) (ys : List ℕ)
      → Passed (y ∷ ys)
      → i ≢ x
      → temps.prev_copy i ≡ p
      → Away p ys
      → Away i (y ∷ ys)
  unfolding Passed Away
  Away-next i p y [] q ne e a = (ground (arith, q, ne), tt)
  Away-next i p y (z ∷ zs) q ne e a =
      (λ iy. a.0 (sym e ∙ ap temps.prev_copy iy ∙ q.0), Away-next i p z zs q.1 ne e a.1)

  Passed-more :
      (y : ℕ) (ys : List ℕ)
      → Passed (y ∷ ys)
      → temps.prev_copy (temps.next_copy y) ≡ y
      → Passed (temps.next_copy y ∷ y ∷ ys)
  unfolding Passed
  Passed-more y ys q e = (e, q)

  -- From a member on, with fuel for those that are left.
  search_ends :
      (found : ℕ → Bool) (fuel y : ℕ) (ys : List ℕ)
      → y < s.nb_temps
      → is_copy (temps.state y) ≡ true
      → Passed (y ∷ ys)
      → Apart (y ∷ ys)
      → Below s.nb_temps (y ∷ ys)
      → s.nb_temps < length (y ∷ ys) + fuel
      → search_copies found temps fuel x (temps.next_copy y) ≢ none
  unfolding search_copies
  search_ends found zero y ys l c q a b f =
      absurd (omega (arith, f, length_le s.nb_temps (y ∷ ys) b a))
  search_ends found (suc fuel) y ys l c q a b f = elim (Bool-cases (temps.next_copy y == x)) [
    | inl e ↦ rw e (λ t. cc t)
    | inr e ↦ elim (Bool-cases (found (temps.next_copy y))) [
      | inl g ↦ rw (e, g) (λ t. cc t)
      | inr g ↦
          let k = h.linked y l c in
          rw (e, g)
            (search_ends found fuel (temps.next_copy y) (y ∷ ys) k.next_lt k.next_is
              (Passed-more y ys q k.prev_next)
              (Apart-more (temps.next_copy y) y ys
                (Away-next (temps.next_copy y) y y ys q (ground (arith, e)) k.prev_next
                  (Apart-first y ys a))
                a)
              (Below-more s.nb_temps (temps.next_copy y) y ys k.next_lt b)
              (longer s.nb_temps (temps.next_copy y) y ys fuel f))
    ]
  ]

  -- The loop over the other copies of a temporary ends: where what is known is true, fuel `nb_temps` is
  -- enough, whatever the loop looks for.
  pub search_copies-ends :
      (found : ℕ → Bool)
      → x < s.nb_temps
      → is_copy (temps.state x) ≡ true
      → search_copies found temps s.nb_temps x (temps.next_copy x) ≢ none
  unfolding Passed Apart Away Below
  search_copies-ends found l c =
      search_ends found s.nb_temps x [] l c refl (tt, tt) (l, tt) (omega arith)
