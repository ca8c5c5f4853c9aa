-- ===== src/Timeout/Armed.antt =====
-- Which timeouts are set after `usteer_timeout_set` and `usteer_timeout_cancel`.
use usteer.Base.{
  ℕ, ◌≡◌, inl, inr, refl, ap, ◌∙◌, Bool, true, false, not, ◌&&◌, ◌||◌, List, [], ◌∷◌, ◌++◌, arith,
  Bool-cases, any, if◌then◌else◌, ℤ, u32, to_u32, ◌+◌,
}
use usteer.Base.Avl.{AvlTree}
use usteer.Timeout.{
  Key, Timeout, TimeoutQueue, usteer_timeout_isset, usteer_timeout_cancel, usteer_timeout_set,
  usteer_timeout_recalc, usteer_timeout_cmp, avl_delete, set_tree, avl_is_first,
}

pub any-append :
    {A : Type 0} (p : A → Bool) (xs ys : List A) → any p (xs ++ ys) ≡ (any p xs || any p ys)
any-append p [] ys = refl
any-append p (x ∷ xs) ys = ground (arith, any-append p xs ys)

-- An insertion adds the new element, wherever it goes.
pub any-avl_insert :
    (avl : AvlTree) {A : Type 0} (p : A → Bool) (cmp : A → A → ℤ) (e : A) (l : List A)
    → any p (avl.avl_insert cmp e l) ≡ (p e || any p l)
any-avl_insert avl p cmp e l =
    let (xs, ys, here, there, _) = avl.insert_split cmp e l in
    rw (there, here) (ground (arith, any-append p xs (e ∷ ys), any-append p xs ys))

pub recalc-tree :
    {A : Type 0} (q : TimeoutQueue A) (time : ℕ) → (usteer_timeout_recalc q time).tree ≡ q.tree
unfolding usteer_timeout_recalc
recalc-tree q time = ground arith

module _ {A : Type 0} ⦃k : Key A⦄ where
  abbrev owned : A → List (Timeout A) → Bool
  owned b = any (λ t. k.same t.owner b)

  avl_delete-owned :
      (tree : List (Timeout A)) (a b : A)
      → owned b (avl_delete tree a) ≡ (owned b tree && not (k.same a b))
  unfolding avl_delete
  avl_delete-owned [] a b = ground arith
  avl_delete-owned (t ∷ ts) a b =
      ground
        (arith, avl_delete-owned ts a b, k.same_iff t.owner a, k.same_iff t.owner b, k.same_iff a b)

  -- What is not set is not found, whatever else is.
  absent-owned :
      (tree : List (Timeout A)) (a b : A)
      → owned a tree ≡ false
      → owned b tree ≡ true
      → k.same a b ≡ false
  absent-owned [] a b f h = absurd (ground arith)
  absent-owned (t ∷ ts) a b f h =
      ground
        (arith, absent-owned ts a b, k.same_iff t.owner a, k.same_iff t.owner b, k.same_iff a b)

  -- After usteer_timeout_cancel the timeouts that are set are those that were, without the
  -- cancelled one.
  pub isset-cancel :
      (q : TimeoutQueue A) (a b : A)
      → usteer_timeout_isset (usteer_timeout_cancel q a) b
        ≡ (usteer_timeout_isset q b && not (k.same a b))
  unfolding usteer_timeout_isset usteer_timeout_cancel
  isset-cancel q a b = ground (arith, avl_delete-owned q.tree a b, absent-owned q.tree a b)

module _ {A : Type 0} ⦃k : Key A⦄ (avl : AvlTree) where
  pub set-tree :
      (time : ℕ) (q : TimeoutQueue A) (a : A) (msecs : ℤ)
      → (usteer_timeout_set avl time q a msecs).tree ≡ set_tree avl time q a msecs
  unfolding usteer_timeout_set
  set-tree time q a msecs =
      let tree = set_tree avl time q a msecs in
      let first = usteer_timeout_isset q a && avl_is_first q.tree a || avl_is_first tree a in
      elim (Bool-cases first) [
        | inl e ↦ rw e (recalc-tree (record q { tree = tree }) time)
        | inr e ↦ rw e
      ]

  -- After usteer_timeout_set the timeouts that are set are those that were, and the new one.
  pub isset-set :
      (time : ℕ) (q : TimeoutQueue A) (a b : A) (msecs : ℤ)
      → usteer_timeout_isset (usteer_timeout_set avl time q a msecs) b
        ≡ (k.same a b || usteer_timeout_isset q b)
  unfolding usteer_timeout_isset set_tree
  isset-set time q a b msecs =
      let t : Timeout A = record { owner = a; key = u32 (time + to_u32 msecs) } in
      let cmp = λ (x y : Timeout A). usteer_timeout_cmp time x.key y.key in
      let rest = if owned a q.tree then avl_delete q.tree a else q.tree in
      ap (owned b) (set-tree time q a msecs)
      ∙ any-avl_insert avl (λ x. k.same x.owner b) cmp t rest
      ∙ ground (arith, avl_delete-owned q.tree a b)
