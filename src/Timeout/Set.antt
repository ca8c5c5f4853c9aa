-- ===== src/Timeout/Set.antt =====
-- `usteer_timeout_set` on the true times of the deadlines.
use usteer.Base.{
  ℕ, ◌+◌, ◌-◌, ◌^◌, ◌<◌, ◌≡◌, ◌∙◌, ◌⊎◌, refl, ap, subst, Bool, false, ◌&&◌, List, [], ◌∷◌, ◌++◌,
  map, any, All, Option, none, some, if◌then◌else◌, ltb, ℤ, pos, u32, to_u32, arith, Bool-cases,
  inl, inr,
}
use usteer.Base.Avl.{AvlTree}
use usteer.Timeout.{
  Key, Timeout, TimeoutQueue, usteer_timeout_recalc, usteer_timeout_isset, usteer_timeout_set,
  set_tree, avl_delete, avl_is_first, recalc_delta,
}
use usteer.Timeout.Armed.{set-tree}
use usteer.Timeout.Order.{IsNear, usteer_timeout_delta_lem}
use usteer.Timeout.Deadlines.{
  Deadline, timeout_of, Represents, deadline_of, remove, avl_delete-map, absent-remove, remove-All,
  remove-IsSorted, deadline_of-remove, deadline_of-insert,
}
use usteer.Timeout.Insert.{Inserted, insert_at-Inserted}

-- The delay until a deadline, at least a millisecond.
abbrev pub wait_for : ℕ → ℕ → ℤ
wait_for now d = if ltb now d then pos (d - now) else pos 1

abbrev pub first_of : {A : Type 0} → List (Deadline A) → Option (Deadline A)
first_of [] = none
first_of (x ∷ xs) = some x

recalc-timer :
    {A : Type 0} (now : ℕ) (q : TimeoutQueue A) (x : Deadline A) (xs : List (Deadline A))
    → q.tree ≡ map timeout_of (x ∷ xs)
    → IsNear x.1 now
    → (usteer_timeout_recalc q (u32 now)).timer ≡ some (wait_for now x.1)
unfolding usteer_timeout_recalc recalc_delta
recalc-timer now q x xs e h = let delta = usteer_timeout_delta_lem x.0 x.1 now h in ground arith

not_empty :
    {A : Type 0} (l r : List (Deadline A)) (e : Deadline A)
    → (x : Deadline A) × (xs : List (Deadline A)) × (l ++ e ∷ r ≡ x ∷ xs)
not_empty [] r e = (e, r, refl)
not_empty (x ∷ l) r e = (x, l ++ e ∷ r, refl)

module _ {A : Type 0} ⦃k : Key A⦄ where
  abbrev is_set : A → List (Deadline A) → Bool
  is_set a ds = any (λ (t : Timeout A). k.same t.owner a) (map timeout_of ds)

  -- Where neither the old nor the new first timeout is the one that is set, the first one stays.
  first_kept :
      (a : A) (d : ℕ) (ds l r : List (Deadline A))
      → remove a ds ≡ l ++ r
      → (is_set a ds && avl_is_first (map timeout_of ds) a) ≡ false
      → avl_is_first (map timeout_of (l ++ (a, d) ∷ r)) a ≡ false
      → first_of (l ++ (a, d) ∷ r) ≡ first_of ds
  unfolding remove avl_is_first
  first_kept a d ds [] r e f g = absurd (ground (arith, k.same_iff a a))
  first_kept a d [] (x ∷ l) r e f g = absurd (ground arith)
  first_kept a d (y ∷ ys) (x ∷ l) r e f g = ground arith

  left_over :
      (a : A) (ds : List (Deadline A))
      → (if is_set a ds then avl_delete (map timeout_of ds) a else map timeout_of ds)
        ≡ map timeout_of (remove a ds)
  left_over a ds = elim (Bool-cases (is_set a ds)) [
    | inl e ↦ rw e (avl_delete-map a ds)
    | inr e ↦ rw (e, absent-remove a ds e) refl
  ]

  set_tree-Inserted :
      (avl : AvlTree) (now m : ℕ) (q : TimeoutQueue A) (a : A) (ds : List (Deadline A))
      → Represents now q ds
      → m < 2 ^ 31
      → Inserted now (a, now + m) (remove a ds) (set_tree avl (u32 now) q a (pos m))
  unfolding set_tree usteer_timeout_isset
  set_tree-Inserted avl now m q a ds h small =
      let key : u32 (u32 now + to_u32 (pos m)) ≡ u32 (now + m) = omega arith in
      rw (key, h.tree, left_over a ds)
        (insert_at-Inserted avl now (a, now + m) (remove a ds) (omega arith, omega arith)
          (remove-All (λ x. IsNear x.1 now) a ds h.near) (remove-IsSorted a ds h.sorted))

  -- What the new timeout leaves of the others.
  set_deadline :
      (a b : A) (d : ℕ) (ds l r : List (Deadline A))
      → remove a ds ≡ l ++ r
      → deadline_of b (l ++ (a, d) ∷ r) ≡ (if k.same a b then some d else deadline_of b ds)
  set_deadline a b d ds l r e =
      let gone : deadline_of a (l ++ r) ≡ none =
        rw (← e) (ground (arith, deadline_of-remove a a ds, k.same_iff a a)) in
      deadline_of-insert a b d l r gone ∙ rw (← e) (ground (arith, deadline_of-remove a b ds))

  set_timer :
      (now : ℕ) (avl : AvlTree) (q : TimeoutQueue A) (a : A) (msecs : ℤ)
      → (let tree = set_tree avl now q a msecs in
          let q' : TimeoutQueue A = record q { tree = tree } in
          let timer' = (usteer_timeout_set avl now q a msecs).timer in
          (timer' ≡ (usteer_timeout_recalc q' now).timer)
          ⊎ ((timer' ≡ q.timer)
              × ((usteer_timeout_isset q a && avl_is_first q.tree a) ≡ false)
              × (avl_is_first tree a ≡ false)))
  unfolding usteer_timeout_set
  set_timer now avl q a msecs =
      let was = usteer_timeout_isset q a && avl_is_first q.tree a in
      let is = avl_is_first (set_tree avl now q a msecs) a in
      elim (Bool-cases was) [
        | inl e ↦ rw e (inl refl)
        | inr e ↦ elim (Bool-cases is) [
          | inl f ↦ rw (e, f) (inl refl)
          | inr f ↦ rw (e, f) (inr (refl, refl, refl))
        ]
      ]

  -- The timer is set to the first deadline, or both are as they were.
  armed :
      (now m : ℕ) (avl : AvlTree) (q : TimeoutQueue A) (a : A) (ds : List (Deadline A))
      → Represents now q ds
      → (ins : Inserted now (a, now + m) (remove a ds) (set_tree avl (u32 now) q a (pos m)))
      → (let q' = usteer_timeout_set avl (u32 now) q a (pos m) in
          let ds' = ins.l ++ (a, now + m) ∷ ins.r in
          ((q'.timer ≡ q.timer) × (first_of ds' ≡ first_of ds))
          ⊎ ((x : Deadline A) × (first_of ds' ≡ some x) × (q'.timer ≡ some (wait_for now x.1))))
  unfolding usteer_timeout_isset
  armed now m avl q a ds h ins =
      let tree = set_tree avl (u32 now) q a (pos m) in
      elim (set_timer (u32 now) avl q a (pos m)) [
        | inl e ↦
            let (x, xs, f) = not_empty ins.l ins.r (a, now + m) in
            let near : All (λ (y : Deadline A). IsNear y.1 now) (x ∷ xs) =
              subst (All (λ (y : Deadline A). IsNear y.1 now)) f ins.near in
            let q1 : TimeoutQueue A = record q { tree = tree } in
            let t = recalc-timer now q1 x xs (ins.placed ∙ ap (map timeout_of) f) near.0 in
            inr (x, ap first_of f, e ∙ t)
        | inr (e, f, g) ↦
            let was : (is_set a ds && avl_is_first (map timeout_of ds) a) ≡ false =
              rw (← h.tree) f in
            let is : avl_is_first (map timeout_of (ins.l ++ (a, now + m) ∷ ins.r)) a ≡ false =
              rw (← ins.placed) g in
            inl (e, first_kept a (now + m) ds ins.l ins.r ins.whole was is)
      ]

  -- Where the tree holds timeouts in the order of their true deadlines, all less than 2 ^ 31
  -- milliseconds away, usteer_timeout_set for less than 2 ^ 31 milliseconds leaves such a tree,
  -- with the new deadline for its owner and the others as they were; the timer is set to the wait
  -- for the first deadline, at least 1, or timer and first deadline are as they were.
  pub usteer_timeout_set-Represents :
      (avl : AvlTree) (now m : ℕ) (q : TimeoutQueue A) (a : A) (ds : List (Deadline A))
      → Represents now q ds
      → m < 2 ^ 31
      → (let q' = usteer_timeout_set avl (u32 now) q a (pos m) in
          (ds' : List (Deadline A)) × Represents now q' ds'
          × ((b : A)
              → deadline_of b ds' ≡ (if k.same a b then some (now + m) else deadline_of b ds))
          × (((q'.timer ≡ q.timer) × (first_of ds' ≡ first_of ds))
              ⊎ ((x : Deadline A) × (first_of ds' ≡ some x)
                  × (q'.timer ≡ some (wait_for now x.1)))))
  usteer_timeout_set-Represents avl now m q a ds h small =
      let ins = set_tree-Inserted avl now m q a ds h small in
      let ds' = ins.l ++ (a, now + m) ∷ ins.r in
      let q' = usteer_timeout_set avl (u32 now) q a (pos m) in
      let tree' : q'.tree ≡ map timeout_of ds' = set-tree avl (u32 now) q a (pos m) ∙ ins.placed in
      (
        ds',
        record { tree = tree'; near = ins.near; sorted = ins.sorted },
        (λ b. set_deadline a b (now + m) ds ins.l ins.r ins.whole),
        armed now m avl q a ds h ins,
      )
