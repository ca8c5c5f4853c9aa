-- ===== src/Tests/Avl.antt =====
-- Insertion into a list kept in order, as an example of the tree.
use usteer.Base.{
  ◌≡◌, refl, ap, List, [], ◌∷◌, ◌++◌, true, false, if◌then◌else◌, Bool-cases, inl, inr, ℤ, pos,
  ◌≤ℤ◌, leb_ℤ, All, arith,
}
use usteer.Base.Avl.{AvlTree, IsOrdered, IsOrder}

pub place : {A : Type 0} → (A → A → ℤ) → A → List A → List A
place cmp e [] = e ∷ []
place cmp e (x ∷ xs) =
    let rest = place cmp e xs in if leb_ℤ (cmp x e) (pos 0) then x ∷ rest else e ∷ x ∷ xs

after_later :
    {A : Type 0} (cmp : A → A → ℤ) (e x : A) (ys : List A)
    → IsOrder cmp e
    → ¬ (cmp x e ≤ℤ pos 0)
    → All (λ y. cmp x y ≤ℤ pos 0) ys
    → All (λ y. ¬ (cmp y e ≤ℤ pos 0)) ys
after_later cmp e x [] o h k = tt
after_later cmp e x (y ∷ ys) o h k = (λ l. h (o x y k.0 l), after_later cmp e x ys o h k.1)

abbrev Split : {A : Type 0} → (A → A → ℤ) → A → List A → List A → Type 0
Split {A} cmp e l l' =
    (xs : List A) × (ys : List A) × (l ≡ xs ++ ys)
    × (l' ≡ xs ++ e ∷ ys)
    × (IsOrder cmp e
        → IsOrdered cmp l
        → All (λ x. cmp x e ≤ℤ pos 0) xs × All (λ y. ¬ (cmp y e ≤ℤ pos 0)) ys)

not_below : (z : ℤ) → leb_ℤ z (pos 0) ≡ false → ¬ (z ≤ℤ pos 0)
not_below z h k = ground arith

below : (z : ℤ) → leb_ℤ z (pos 0) ≡ true → z ≤ℤ pos 0
below z h = ground arith

pub place-Split :
    {A : Type 0} (cmp : A → A → ℤ) (e : A) (l : List A) → Split cmp e l (place cmp e l)
unfolding place
place-Split cmp e [] = ([], [], refl, refl, λ o h. (tt, tt))
place-Split cmp e (x ∷ l) = elim (Bool-cases (leb_ℤ (cmp x e) (pos 0))) [
  | inl h ↦
      let (xs, ys, p, q, f) = place-Split cmp e l in
      rw h (
        x ∷ xs,
        ys,
        ap (λ t. x ∷ t) p,
        ap (λ t. x ∷ t) q,
        λ o k. ((below (cmp x e) h, (f o k.1).0), (f o k.1).1),
      )
  | inr h ↦
      let out = not_below (cmp x e) h in
      rw h ([], x ∷ l, refl, refl, λ o k. (tt, (out, after_later cmp e x l o out k.0)))
]

unfoldable pub sorted_list : AvlTree
unfolding place
sorted_list = record {
  avl_insert = λ cmp e l. place cmp e l;
  insert_split = λ cmp e l. place-Split cmp e l;
}
