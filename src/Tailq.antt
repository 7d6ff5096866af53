-- ===== src/Tailq.antt =====
-- The tail queues of vx64/qemu/include/qemu/queue.h as lists: an element is found by the address
-- that it was allocated at.
pub mod Laws
use fist_ame.Base.{ℕ, Bool, ◌==◌, List, [], ◌∷◌, ◌++◌, if◌then◌else◌, Option, none, some}

module _ {ℓ} {A : Type ℓ} where
  -- `QTAILQ_INSERT_HEAD` and `QTAILQ_INSERT_TAIL`
  abbrev pub insert_head : A → List A → List A
  insert_head x xs = x ∷ xs

  abbrev pub insert_tail : A → List A → List A
  insert_tail x xs = xs ++ x ∷ []

  -- The first element that passes a test, as `QTAILQ_FOREACH` with a `return` finds it.
  abbrev pub first : (A → Bool) → List A → Option A
  first p [] = none
  first p (x ∷ xs) = if p x then some x else first p xs

  -- `QTAILQ_REMOVE` of the element at an address.
  abbrev pub remove : (A → ℕ) → ℕ → List A → List A
  remove ref r [] = []
  remove ref r (x ∷ xs) = if ref x == r then xs else x ∷ remove ref r xs
