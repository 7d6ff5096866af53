-- ===== src/Tailq/Laws.antt =====
-- A queue whose elements stand at distinct addresses, and one that keeps the elements of one kind
-- in front.
use fist_ame.Base.{
  ℕ, ◌≡◌, ◌≢◌, refl, ap, ◌∙◌, sym, Bool, true, false, not, List, [], ◌∷◌, ◌++◌, All, keep,
  if◌then◌else◌, ◌==◌, arith, Bool-cases, inl, inr,
}
use mathlib.Core.List.{append_assoc}
use mathlib.Core.Path.{subst}
use fist_ame.Tailq.{insert_tail, remove}

module _ {ℓ} {A : Type ℓ} where
  pub All-append {κ} : (P : A → Type κ) (xs ys : List A) → All P xs → All P ys → All P (xs ++ ys)
  All-append P [] ys p q = q
  All-append P (x ∷ xs) ys p q = (p.0, All-append P xs ys p.1 q)

  pub All-append_right {κ} : (P : A → Type κ) (xs ys : List A) → All P (xs ++ ys) → All P ys
  All-append_right P [] ys p = p
  All-append_right P (x ∷ xs) ys p = All-append_right P xs ys p.1

module _ {ℓ} {A : Type ℓ} (ref : A → ℕ) where
  -- No element of the queue stands at the address.
  abbrev pub Fresh : ℕ → List A → Type 0
  Fresh r xs = All (λ y. ref y ≢ r) xs

  abbrev pub Distinct : List A → Type 0
  Distinct [] = Unit
  Distinct (x ∷ xs) = Fresh (ref x) xs × Distinct xs

  pub Fresh-remove : (r s : ℕ) (xs : List A) → Fresh r xs → Fresh r (remove ref s xs)
  Fresh-remove r s [] f = tt
  Fresh-remove r s (x ∷ xs) f = ground (arith, Fresh-remove r s xs f.1)

  pub Distinct-remove : (r : ℕ) (xs : List A) → Distinct xs → Distinct (remove ref r xs)
  Distinct-remove r [] d = tt
  Distinct-remove r (x ∷ xs) d =
      ground (arith, Fresh-remove (ref x) r xs d.0, Distinct-remove r xs d.1)

  pub Distinct-insert_tail :
      (x : A) (xs : List A) → Fresh (ref x) xs → Distinct xs → Distinct (insert_tail x xs)
  Distinct-insert_tail x [] f d = (tt, tt)
  Distinct-insert_tail x (y ∷ xs) f d =
      (All-append _ xs (x ∷ []) d.0 ((λ e. f.0 (sym e)), tt), Distinct-insert_tail x xs f.1 d.1)

  -- The element after a prefix that does not hold its address is the one that is removed.
  pub remove-append :
      (x : A) (xs ys : List A) → Fresh (ref x) xs → remove ref (ref x) (xs ++ x ∷ ys) ≡ xs ++ ys
  remove-append x [] ys f = ground arith
  remove-append x (z ∷ xs) ys f = ground (arith, remove-append x xs ys f.1)

  Fresh-of_Distinct : (x : A) (xs ys : List A) → Distinct (xs ++ x ∷ ys) → Fresh (ref x) xs
  Fresh-of_Distinct x [] ys d = tt
  Fresh-of_Distinct x (z ∷ xs) ys d =
      ((λ e. (All-append_right _ xs (x ∷ ys) d.0).0 (sym e)), Fresh-of_Distinct x xs ys d.1)

  -- `QTAILQ_FOREACH_SAFE` with a removal of each element that passes the test.
  abbrev pub remove_each : (A → Bool) → List A → List A → List A
  remove_each p [] queue = queue
  remove_each p (x ∷ next) queue =
      remove_each p next (if p x then remove ref (ref x) queue else queue)

  remove_each_from :
      (p : A → Bool) (before xs : List A)
      → Distinct (before ++ xs)
      → remove_each p xs (before ++ xs) ≡ before ++ keep (λ x. not (p x)) xs
  remove_each_from p before [] d = refl
  remove_each_from p before (x ∷ xs) d = elim (Bool-cases (p x)) [
    | inl e ↦
        let gone = remove-append x before xs (Fresh-of_Distinct x before xs d) in
        rw (e, gone)
          (remove_each_from p before xs (rw gone at (Distinct-remove (ref x) (before ++ x ∷ xs) d)))
    | inr e ↦
        let moved = append_assoc before (x ∷ []) xs in
        let ih = remove_each_from p (before ++ x ∷ []) xs (subst Distinct (sym moved) d) in
        rw e (
          ap (λ q. remove_each p xs q) (sym moved)
          ∙ ih
          ∙ append_assoc before (x ∷ []) (keep (λ y. not (p y)) xs))
  ]

  -- The walk removes exactly the elements that pass the test, and keeps the order of the rest.
  pub remove_each-keep :
      (p : A → Bool) (xs : List A) → Distinct xs → remove_each p xs xs ≡ keep (λ x. not (p x)) xs
  remove_each-keep p xs d = remove_each_from p [] xs d

  pub Distinct-insert :
      (g : Bool) (x : A) (xs : List A)
      → Fresh (ref x) xs
      → Distinct xs
      → Distinct (if g then x ∷ xs else insert_tail x xs)
  Distinct-insert true x xs f d = (f, d)
  Distinct-insert false x xs f d = Distinct-insert_tail x xs f d

module _ {ℓ} {A : Type ℓ} where
  -- The elements that pass the test stand in front of those that do not.
  abbrev pub InFront : (A → Bool) → List A → Type 0
  InFront p [] = Unit
  InFront p (x ∷ xs) = (p x ≡ false → All (λ y. p y ≡ false) xs) × InFront p xs

  InFront-none : (p : A → Bool) (xs : List A) → All (λ y. p y ≡ false) xs → InFront p xs
  InFront-none p [] h = tt
  InFront-none p (x ∷ xs) h = ((λ _. h.1), InFront-none p xs h.1)

  pub InFront-insert_tail :
      (p : A → Bool) (x : A) (xs : List A)
      → p x ≡ false
      → InFront p xs
      → InFront p (insert_tail x xs)
  InFront-insert_tail p x [] e f = ((λ _. tt), tt)
  InFront-insert_tail p x (y ∷ xs) e f =
      ((λ h. All-append _ xs (x ∷ []) (f.0 h) (e, tt)), InFront-insert_tail p x xs e f.1)

  -- In front if the element passes the test, else at the back.
  pub InFront-insert :
      (p : A → Bool) (x : A) (xs : List A)
      → InFront p xs
      → InFront p (if p x then x ∷ xs else insert_tail x xs)
  InFront-insert p x xs f = elim (Bool-cases (p x)) [
    | inl e ↦ rw e ((λ h. absurd (ground (arith, e, h))), f)
    | inr e ↦ rw e (InFront-insert_tail p x xs e f)
  ]

module _ {ℓ} {A : Type ℓ} (ref : A → ℕ) where
  pub All-remove {κ} : (P : A → Type κ) (r : ℕ) (xs : List A) → All P xs → All P (remove ref r xs)
  All-remove P r [] h = tt
  All-remove P r (x ∷ xs) h = elim (Bool-cases (ref x == r)) [
    | inl e ↦ rw e h.1
    | inr e ↦ rw e (h.0, All-remove P r xs h.1)
  ]

  pub InFront-remove :
      (p : A → Bool) (r : ℕ) (xs : List A) → InFront p xs → InFront p (remove ref r xs)
  InFront-remove p r [] h = tt
  InFront-remove p r (x ∷ xs) h = elim (Bool-cases (ref x == r)) [
    | inl e ↦ rw e h.1
    | inr e ↦ rw e ((λ k. All-remove _ r xs (h.0 k)), InFront-remove p r xs h.1)
  ]
