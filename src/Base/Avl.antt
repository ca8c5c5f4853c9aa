-- ===== src/Base/Avl.antt =====
-- What usteer relies on of libubox's `avl_insert`. A tree is the list of its elements, in the order
-- in which `avl_for_each_element` visits them; a comparator is given with its `cmp_ptr` applied.
use mathlib.Core.Path.{◌≡◌}
use mathlib.Core.List.{List, [], ◌∷◌, ◌++◌}
use usteer.Base.Lists.{All}
use usteer.Base.Int.{ℤ, pos, ◌≤ℤ◌}

-- Each element compares below or equal to all that follow it.
abbrev pub IsOrdered : {A : Type 0} → (A → A → ℤ) → List A → Type 0
IsOrdered cmp [] = Unit {0}
IsOrdered cmp (x ∷ xs) = All (λ y. cmp x y ≤ℤ pos 0) xs × IsOrdered cmp xs

-- A comparator that orders the elements, at least against `e`.
abbrev pub IsOrder : {A : Type 0} → (A → A → ℤ) → A → Type 0
IsOrder {A} cmp e = (x y : A) → cmp x y ≤ℤ pos 0 → cmp y e ≤ℤ pos 0 → cmp x e ≤ℤ pos 0

-- The new element goes in at one place; in an ordered tree, behind those that it does not precede.
pub record AvlTree : Type 1 where
  pub avl_insert : {A : Type 0} → (A → A → ℤ) → A → List A → List A
  pub insert_split :
      {A : Type 0} (cmp : A → A → ℤ) (e : A) (l : List A)
      → (xs : List A) × (ys : List A) × (l ≡ xs ++ ys)
        × (avl_insert cmp e l ≡ xs ++ e ∷ ys)
        × (IsOrder cmp e
            → IsOrdered cmp l
            → All (λ x. cmp x e ≤ℤ pos 0) xs × All (λ y. ¬ (cmp y e ≤ℤ pos 0)) ys)

-- What usteer relies on of `avl_find_element`: the elements from the one that it finds on, or none.
pub record AvlLookup : Type 1 where
  pub avl_find : {A : Type 0} → (A → ℤ) → List A → List A
  pub find_suffix :
      {A : Type 0} (cmp : A → ℤ) (l : List A) → (xs : List A) × (l ≡ xs ++ avl_find cmp l)
