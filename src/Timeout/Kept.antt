-- ===== src/Timeout/Kept.antt =====
-- What the callback of a queue keeps, the expiry of the queue keeps.
use usteer.Base.{ℕ, ◌≡◌, subst, Bool, true, false, List, [], ◌∷◌, some, ◌⊎◌, inl, inr, arith}
use usteer.Timeout.{
  Key, Timeout, TimeoutQueue, usteer_timeout_cancel, usteer_timeout_recalc, fire, expire_round,
  usteer_timeout_cb,
}

module _ {A S : Type 0} ⦃k : Key A⦄ (queue : S → TimeoutQueue A)
    (put_queue : TimeoutQueue A → S → S) (cb : A → S → S) (P : S → Type 0)
    (fired : (a : A) (s : S) → P s → P (cb a (put_queue (usteer_timeout_cancel (queue s) a) s)))
    (armed : (time : ℕ) (s : S)
      → P s
      → P (put_queue (usteer_timeout_recalc (queue s) time) s)) where
  expire_round-kept :
      (time : ℕ) (ts : List (Timeout A)) (found : Bool) (s : S)
      → P s
      → P (expire_round queue put_queue cb time ts found s).1
  unfolding expire_round fire
  expire_round-kept time [] found s h = h
  expire_round-kept time (t ∷ ts) found s h =
      let k1 =
        expire_round-kept time ts true (fire queue put_queue cb t.owner s) (fired t.owner s h) in
      let next =
        (expire_round queue put_queue cb time ts true (fire queue put_queue cb t.owner s)).1 in
      let end : (s ≡ (expire_round queue put_queue cb time (t ∷ ts) found s).1)
          ⊎ (next ≡ (expire_round queue put_queue cb time (t ∷ ts) found s).1) =
        ground arith in
      elim end [ inl p ↦ subst P p h | inr p ↦ subst P p k1 ]

  pub usteer_timeout_cb-kept :
      (times : List ℕ) (s s' : S)
      → usteer_timeout_cb queue put_queue cb times s ≡ some s'
      → P s
      → P s'
  unfolding usteer_timeout_cb
  usteer_timeout_cb-kept [] s s' e h = absurd (ground arith)
  usteer_timeout_cb-kept (time ∷ times) s s' e h =
      let r = expire_round queue put_queue cb time (queue s).tree false s in
      let k1 : P r.1 = expire_round-kept time (queue s).tree false s h in
      let end : (usteer_timeout_cb queue put_queue cb times r.1 ≡ some s')
          ⊎ (put_queue (usteer_timeout_recalc (queue r.1) time) r.1 ≡ s') =
        ground arith in
      elim end [
        | inl p ↦ usteer_timeout_cb-kept times r.1 s' p k1
        | inr p ↦ subst P p (armed time r.1 k1)
      ]
