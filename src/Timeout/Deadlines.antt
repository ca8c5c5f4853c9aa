-- ===== src/Timeout/Deadlines.antt =====
-- The queue by the true times of its deadlines, which its 32-bit keys stand for.
use usteer.Base.{
  ℕ, ◌≤◌, ◌≡◌, refl, ap, false, not, List, [], ◌∷◌, ◌++◌, map, filter, any, All, Option, none, some,
  if◌then◌else◌, u32, arith, Bool-cases, inl, inr,
}
use usteer.Timeout.{Key, Timeout, TimeoutQueue, avl_delete}
use usteer.Timeout.Order.{IsNear}

-- An owner and the true time at which its timeout is over.
abbrev pub Deadline : Type 0 → Type 0
Deadline A = A × ℕ

abbrev pub timeout_of : {A : Type 0} → Deadline A → Timeout A
timeout_of x = record { owner = x.0; key = u32 x.1 }

abbrev pub IsSorted : {A : Type 0} → List (Deadline A) → Type 0
IsSorted [] = Unit {0}
IsSorted (x ∷ xs) = All (λ y. x.1 ≤ y.1) xs × IsSorted xs

-- At a true time `now` the tree holds these deadlines, the first one first, all of them less than
-- 2 ^ 31 milliseconds away.
pub record Represents {A : Type 0} (now : ℕ) (q : TimeoutQueue A) (ds : List (Deadline A))
    : Type 0 where
  pub tree : q.tree ≡ map timeout_of ds
  pub near : All (λ x. IsNear x.1 now) ds
  pub sorted : IsSorted ds

module _ {A : Type 0} ⦃k : Key A⦄ where
  abbrev pub deadline_of : A → List (Deadline A) → Option ℕ
  deadline_of b [] = none
  deadline_of b (x ∷ xs) = if k.same x.0 b then some x.1 else deadline_of b xs

  unfoldable pub remove : A → List (Deadline A) → List (Deadline A)
  remove a = filter (λ x. not (k.same x.0 a))

  pub avl_delete-map :
      (a : A) (ds : List (Deadline A))
      → avl_delete (map timeout_of ds) a ≡ map timeout_of (remove a ds)
  unfolding avl_delete remove
  avl_delete-map a [] = refl
  avl_delete-map a (x ∷ xs) = ground (arith, avl_delete-map a xs)

  pub absent-remove :
      (a : A) (ds : List (Deadline A))
      → any (λ (t : Timeout A). k.same t.owner a) (map timeout_of ds) ≡ false
      → remove a ds ≡ ds
  unfolding remove
  absent-remove a [] h = refl
  absent-remove a (x ∷ xs) h = ground (arith, absent-remove a xs)

  pub remove-All :
      (P : Deadline A → Type 0) (a : A) (ds : List (Deadline A)) → All P ds → All P (remove a ds)
  unfolding remove
  remove-All P a [] h = tt
  remove-All P a (x ∷ xs) h = elim (Bool-cases (k.same x.0 a)) [
    | inl e ↦ rw e (remove-All P a xs h.1)
    | inr e ↦ rw e (h.0, remove-All P a xs h.1)
  ]

  pub remove-IsSorted : (a : A) (ds : List (Deadline A)) → IsSorted ds → IsSorted (remove a ds)
  unfolding remove
  remove-IsSorted a [] h = tt
  remove-IsSorted a (x ∷ xs) h = elim (Bool-cases (k.same x.0 a)) [
    | inl e ↦ rw e (remove-IsSorted a xs h.1)
    | inr e ↦ rw e (remove-All (λ y. x.1 ≤ y.1) a xs h.0, remove-IsSorted a xs h.1)
  ]

  pub deadline_of-remove :
      (a b : A) (ds : List (Deadline A))
      → deadline_of b (remove a ds) ≡ (if k.same a b then none else deadline_of b ds)
  unfolding remove
  deadline_of-remove a b [] = ground arith
  deadline_of-remove a b (x ∷ xs) =
      ground (arith, deadline_of-remove a b xs, k.same_iff x.0 a, k.same_iff x.0 b, k.same_iff a b)

  pub deadline_of-insert :
      (a b : A) (d : ℕ) (xs ys : List (Deadline A))
      → deadline_of a (xs ++ ys) ≡ none
      → deadline_of b (xs ++ (a, d) ∷ ys)
        ≡ (if k.same a b then some d else deadline_of b (xs ++ ys))
  deadline_of-insert a b d [] ys h = refl
  deadline_of-insert a b d (x ∷ xs) ys h =
      ground
        (arith, deadline_of-insert a b d xs ys, k.same_iff x.0 a, k.same_iff x.0 b, k.same_iff a b)

pub map-split :
    {A : Type 0} (ds : List (Deadline A)) (xs ys : List (Timeout A))
    → map timeout_of ds ≡ xs ++ ys
    → (l : List (Deadline A)) × (r : List (Deadline A)) × (ds ≡ l ++ r)
      × (map timeout_of l ≡ xs)
      × (map timeout_of r ≡ ys)
map-split ds [] ys h = ([], ds, refl, refl, h)
map-split [] (x ∷ xs) ys h = absurd (ground arith)
map-split (d ∷ ds) (x ∷ xs) ys h =
    let e1 : timeout_of d ≡ x = ground arith in
    let e2 : map timeout_of ds ≡ xs ++ ys = ground arith in
    let (l, r, e, f, g) = map-split ds xs ys e2 in (d ∷ l, r, ap (λ t. d ∷ t) e, rw (e1, f) refl, g)

pub map-insert :
    {A : Type 0} (l r : List (Deadline A)) (d : Deadline A)
    → map timeout_of (l ++ d ∷ r) ≡ map timeout_of l ++ timeout_of d ∷ map timeout_of r
map-insert [] r d = refl
map-insert (x ∷ l) r d = ap (λ t. timeout_of x ∷ t) (map-insert l r d)

pub All-insert :
    {A : Type 0} (P : Deadline A → Type 0) (l r : List (Deadline A)) (d : Deadline A)
    → P d
    → All P (l ++ r)
    → All P (l ++ d ∷ r)
All-insert P [] r d h k = (h, k)
All-insert P (x ∷ l) r d h k = (k.0, All-insert P l r d h k.1)

pub insert-IsSorted :
    {A : Type 0} (l r : List (Deadline A)) (d : Deadline A)
    → All (λ x. x.1 ≤ d.1) l
    → All (λ y. d.1 ≤ y.1) r
    → IsSorted (l ++ r)
    → IsSorted (l ++ d ∷ r)
insert-IsSorted [] r d f g h = (g, h)
insert-IsSorted (x ∷ l) r d f g h =
    (All-insert (λ y. x.1 ≤ y.1) l r d f.0 h.0, insert-IsSorted l r d f.1 g h.1)
