-- ===== src/Timeout/Insert.antt =====
-- `avl_insert` of a timeout on the true times of the deadlines.
use usteer.Base.{
  ℕ, ◌≤◌, ◌≡◌, ◌∙◌, refl, sym, subst, List, [], ◌∷◌, ◌++◌, map, All, ℤ, pos, ◌≤ℤ◌, u32, sub32,
  to_i32, arith,
}
use usteer.Base.Avl.{AvlTree, IsOrder, IsOrdered}
use usteer.Timeout.{Key, Timeout, usteer_timeout_cmp, insert_at}
use usteer.Timeout.Order.{IsNear, usteer_timeout_cmp_lem}
use usteer.Timeout.Deadlines.{
  Deadline, timeout_of, IsSorted, map-split, map-insert, All-insert, insert-IsSorted,
}

-- The comparison of timeouts at one reference time.
abbrev cmp_at : {A : Type 0} → ℕ → Timeout A → Timeout A → ℤ
cmp_at time s t = usteer_timeout_cmp time s.key t.key

cmp_at-IsOrder : {A : Type 0} (time : ℕ) (e : Timeout A) → IsOrder (cmp_at time) e
unfolding usteer_timeout_cmp
cmp_at-IsOrder time e x y h k =
    let t1 = to_i32 (sub32 x.key time) in
    let t2 = to_i32 (sub32 y.key time) in let t3 = to_i32 (sub32 e.key time) in ground arith

later_le :
    (now d1 d2 : ℕ)
    → IsNear d1 now
    → IsNear d2 now
    → d1 ≤ d2
    → usteer_timeout_cmp (u32 now) (u32 d1) (u32 d2) ≤ℤ pos 0
later_le now d1 d2 h k l = rw (usteer_timeout_cmp_lem now d1 d2 h k) (ground arith)

le_later :
    (now d1 d2 : ℕ)
    → IsNear d1 now
    → IsNear d2 now
    → usteer_timeout_cmp (u32 now) (u32 d1) (u32 d2) ≤ℤ pos 0
    → d1 ≤ d2
le_later now d1 d2 h k l = ground (arith, usteer_timeout_cmp_lem now d1 d2 h k)

not_le_later :
    (now d1 d2 : ℕ)
    → IsNear d1 now
    → IsNear d2 now
    → ¬ (usteer_timeout_cmp (u32 now) (u32 d1) (u32 d2) ≤ℤ pos 0)
    → d2 ≤ d1
not_le_later now d1 d2 h k l = ground (arith, usteer_timeout_cmp_lem now d1 d2 h k)

module _ {A : Type 0} (now : ℕ) where
  abbrev Near : Deadline A → Type 0
  Near x = IsNear x.1 now

  all_later :
      (x : Deadline A) (ds : List (Deadline A))
      → Near x
      → All Near ds
      → All (λ y. x.1 ≤ y.1) ds
      → All (λ t. cmp_at (u32 now) (timeout_of x) t ≤ℤ pos 0) (map timeout_of ds)
  all_later x [] h k l = tt
  all_later x (y ∷ ys) h k l = (later_le now x.1 y.1 h k.0 l.0, all_later x ys h k.1 l.1)

  sorted_tree :
      (ds : List (Deadline A))
      → All Near ds
      → IsSorted ds
      → IsOrdered (cmp_at (u32 now)) (map timeout_of ds)
  sorted_tree [] h k = tt
  sorted_tree (x ∷ xs) h k = (all_later x xs h.0 h.1 k.0, sorted_tree xs h.1 k.1)

  before_new :
      (e : Deadline A) (ds : List (Deadline A))
      → Near e
      → All Near ds
      → All (λ t. cmp_at (u32 now) t (timeout_of e) ≤ℤ pos 0) (map timeout_of ds)
      → All (λ x. x.1 ≤ e.1) ds
  before_new e [] h k l = tt
  before_new e (x ∷ xs) h k l = (le_later now x.1 e.1 k.0 h l.0, before_new e xs h k.1 l.1)

  after_new :
      (e : Deadline A) (ds : List (Deadline A))
      → Near e
      → All Near ds
      → All (λ t. ¬ (cmp_at (u32 now) t (timeout_of e) ≤ℤ pos 0)) (map timeout_of ds)
      → All (λ x. e.1 ≤ x.1) ds
  after_new e [] h k l = tt
  after_new e (x ∷ xs) h k l = (not_le_later now x.1 e.1 k.0 h l.0, after_new e xs h k.1 l.1)

  All-left : (l r : List (Deadline A)) → All Near (l ++ r) → All Near l × All Near r
  All-left [] r h = (tt, h)
  All-left (x ∷ l) r h = let (f, g) = All-left l r h.1 in ((h.0, f), g)

-- The new deadline put in behind those that are not later.
pub record Inserted {A : Type 0} (now : ℕ) (e : Deadline A) (ds : List (Deadline A))
    (tree : List (Timeout A)) : Type 0 where
  pub l : List (Deadline A)
  pub r : List (Deadline A)
  pub whole : ds ≡ l ++ r
  pub placed : tree ≡ map timeout_of (l ++ e ∷ r)
  pub near : All (λ x. IsNear x.1 now) (l ++ e ∷ r)
  pub sorted : IsSorted (l ++ e ∷ r)

pub insert_at-Inserted :
    {A : Type 0} ⦃k : Key A⦄ (avl : AvlTree) (now : ℕ) (e : Deadline A) (ds : List (Deadline A))
    → IsNear e.1 now
    → All (λ x. IsNear x.1 now) ds
    → IsSorted ds
    → Inserted now e ds (insert_at avl (u32 now) (timeout_of e) (map timeout_of ds))
unfolding insert_at
insert_at-Inserted {A} avl now e ds h near sorted =
    let (xs, ys, split, put, order) =
      avl.insert_split (cmp_at (u32 now)) (timeout_of e) (map timeout_of ds) in
    let (below, above) =
      order (cmp_at-IsOrder (u32 now) (timeout_of e)) (sorted_tree now ds near sorted) in
    let (l, r, whole, left, right) = map-split ds xs ys split in
    let (nl, nr) = All-left now l r (subst (All (λ (x : Deadline A). IsNear x.1 now)) whole near) in
    let joined : map timeout_of l ++ timeout_of e ∷ map timeout_of r ≡ xs ++ timeout_of e ∷ ys =
      rw (left, right) refl in
    record {
      l = l;
      r = r;
      whole = whole;
      placed = put ∙ sym (map-insert l r e ∙ joined);
      near =
          All-insert (λ x. IsNear x.1 now) l r e h
            (subst (All (λ (x : Deadline A). IsNear x.1 now)) whole near);
      sorted =
          insert-IsSorted l r e (before_new now e l h nl (rw left below))
            (after_new now e r h nr (rw right above)) (subst IsSorted whole sorted);
    }
