-- ===== src/Prelude/Lists.antt =====
-- Lists measured by native numbers, predicates and filters on lists.
use Prim.Native.Nat.{ℕ, suc}
use mathlib.Core.Bool.{Bool, true, false, ◌&&◌, ◌||◌}
use mathlib.Core.List.{List, [], ◌∷◌}
use bookie_breaker_agent.Prelude.Tests.{if◌then◌else◌}

module _ {ℓ} {A : Type ℓ} where
  abbrev pub length : List A → ℕ
  length [] = 0
  length (x ∷ xs) = suc (length xs)

  -- Python's `all(p(x) for x in xs)` and `[x for x in xs if p(x)]`.
  abbrev pub all : (A → Bool) → List A → Bool
  all p [] = true
  all p (x ∷ xs) = p x && all p xs

  abbrev pub any : (A → Bool) → List A → Bool
  any p [] = false
  any p (x ∷ xs) = p x || any p xs

  abbrev pub select : (A → Bool) → List A → List A
  select p [] = []
  select p (x ∷ xs) = if p x then x ∷ select p xs else select p xs

  abbrev pub All {κ} : (A → Type κ) → List A → Type κ
  All P [] = Unit
  All P (x ∷ xs) = P x × All P xs

module _ {ℓ κ} {A : Type ℓ} {B : Type κ} where
  -- The lists have the same length, and `P` holds of the elements in order.
  abbrev pub All₂ : (A → B → Type 0) → List A → List B → Type 0
  All₂ P [] [] = Unit
  All₂ P (x ∷ xs) (y ∷ ys) = P x y × All₂ P xs ys
  All₂ P _ _ = ⊥

-- `P` holds of an element.
pub data Any {ℓ κ} {A : Type ℓ} (P : A → Type κ) : List A → Type (ℓ ⊔ κ) where
  here : (x : A) (xs : List A) → P x → Any P (x ∷ xs)
  there : (x : A) (xs : List A) → Any P xs → Any P (x ∷ xs)
