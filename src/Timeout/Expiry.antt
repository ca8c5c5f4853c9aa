-- ===== src/Timeout/Expiry.antt =====
-- The loop of `usteer_timeout_cb`, for a callback that sets no timeout.
use usteer.Base.{
  ℕ, ◌≤◌, ◌<◌, ◌≡◌, ◌≢◌, refl, ap, Bool, true, false, not, List, [], ◌∷◌, none, arith, length,
  length-filter-le,
}
use usteer.Timeout.{
  Key, Timeout, TimeoutQueue, usteer_timeout_cancel, fire, expire_round, usteer_timeout_cb,
}

module _ {A : Type 0} ⦃k : Key A⦄ where
  pub cancel-length :
      (q : TimeoutQueue A) (a : A) → length (usteer_timeout_cancel q a).tree ≤ length q.tree
  unfolding usteer_timeout_cancel
  cancel-length q a = ground (arith, length-filter-le {0} (λ t. not (k.same t.owner a)) q.tree)

  -- The first timeout goes.
  cancel-length_first :
      (q : TimeoutQueue A) (t : Timeout A) (ts : List (Timeout A))
      → q.tree ≡ t ∷ ts
      → length (usteer_timeout_cancel q t.owner).tree < length q.tree
  unfolding usteer_timeout_cancel
  cancel-length_first q t ts e = ground (
    arith,
    length-filter-le {0} (λ x. not (k.same x.owner t.owner)) ts,
    k.same_iff t.owner t.owner,
  )

module _ {A S : Type 0} ⦃k : Key A⦄ (queue : S → TimeoutQueue A)
    (put_queue : TimeoutQueue A → S → S) (cb : A → S → S)
    (queue-put_queue : (q : TimeoutQueue A) (s : S) → queue (put_queue q s) ≡ q)
    (cb_quiet : (a : A) (s : S) → length (queue (cb a s)).tree ≤ length (queue s).tree) where
  abbrev left : S → ℕ
  left s = length (queue s).tree

  fire-left : (a : A) (s : S) → left (fire queue put_queue cb a s) ≤ left s
  unfolding fire
  fire-left a s =
      let s1 = put_queue (usteer_timeout_cancel (queue s) a) s in
      omega (
        arith,
        cb_quiet a s1,
        ap (λ (q : TimeoutQueue A). length q.tree)
            (queue-put_queue (usteer_timeout_cancel (queue s) a) s),
        cancel-length (queue s) a,
      )

  fire-left_first :
      (t : Timeout A) (ts : List (Timeout A)) (s : S)
      → (queue s).tree ≡ t ∷ ts
      → left (fire queue put_queue cb t.owner s) < left s
  unfolding fire
  fire-left_first t ts s e =
      let s1 = put_queue (usteer_timeout_cancel (queue s) t.owner) s in
      omega (
        arith,
        cb_quiet t.owner s1,
        ap (λ (q : TimeoutQueue A). length q.tree)
            (queue-put_queue (usteer_timeout_cancel (queue s) t.owner) s),
        cancel-length_first (queue s) t ts e,
      )

  round-left :
      (time : ℕ) (ts : List (Timeout A)) (found : Bool) (s : S)
      → left (expire_round queue put_queue cb time ts found s).1 ≤ left s
  unfolding expire_round
  round-left time [] found s = omega arith
  round-left time (t ∷ ts) found s =
      ground
        (arith, round-left time ts true (fire queue put_queue cb t.owner s), fire-left t.owner s)

  round-left_found :
      (time : ℕ) (ts : List (Timeout A)) (s : S)
      → (queue s).tree ≡ ts
      → (expire_round queue put_queue cb time ts false s).0 ≡ true
      → left (expire_round queue put_queue cb time ts false s).1 < left s
  unfolding expire_round
  round-left_found time [] s e h = absurd (ground arith)
  round-left_found time (t ∷ ts) s e h =
      ground (
        arith,
        round-left time ts true (fire queue put_queue cb t.owner s),
        fire-left_first t ts s e,
      )

  -- One reading of the clock more than there are timeouts is enough.
  pub usteer_timeout_cb_total :
      (times : List ℕ) (s : S)
      → length (queue s).tree < length times
      → usteer_timeout_cb queue put_queue cb times s ≢ none
  unfolding usteer_timeout_cb
  usteer_timeout_cb_total [] s h e = omega arith
  usteer_timeout_cb_total (time ∷ times) s h e = ground (
    arith,
    round-left_found time (queue s).tree s refl,
    usteer_timeout_cb_total times (expire_round queue put_queue cb time (queue s).tree false s).1,
  )
