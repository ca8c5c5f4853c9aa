-- ===== src/Timeout/Due.antt =====
-- Which timeouts a pass over the queue fires, by the true times of their deadlines.
use usteer.Base.{
  ℕ, ◌≤◌, ◌<◌, ◌≡◌, ◌∙◌, refl, Bool, true, false, ◌||◌, List, [], ◌∷◌, map, filter, All, ltb, leb,
  ltb_ℤ, pos, if◌then◌else◌, u32, arith, Bool-cases, inl, inr,
}
use usteer.Timeout.{Key, Timeout, TimeoutQueue, usteer_timeout_delta, fire, expire_round}
use usteer.Timeout.Order.{IsNear, usteer_timeout_delta_lem}
use usteer.Timeout.Deadlines.{Deadline, timeout_of, IsSorted, Represents}

-- The deadlines that are not after `now`.
abbrev pub due : {A : Type 0} → ℕ → List (Deadline A) → List (Deadline A)
due now ds = filter (λ x. leb x.1 now) ds

abbrev pub is_any {ℓ} : {A : Type ℓ} → List A → Bool
is_any [] = false
is_any (x ∷ xs) = true

none_due :
    {A : Type 0} (now d : ℕ) (ds : List (Deadline A))
    → now < d
    → All (λ x. d ≤ x.1) ds
    → due now ds ≡ []
none_due now d [] h k = refl
none_due now d (x ∷ xs) h k = ground (arith, none_due now d xs h k.1)

is_over :
    {A : Type 0} (now : ℕ) (x : Deadline A)
    → IsNear x.1 now
    → ltb_ℤ (pos 0) (usteer_timeout_delta (timeout_of x) (u32 now)) ≡ ltb now x.1
is_over now x h = rw (usteer_timeout_delta_lem x.0 x.1 now h) (ground arith)

module _ {A S : Type 0} ⦃k : Key A⦄ (queue : S → TimeoutQueue A)
    (put_queue : TimeoutQueue A → S → S) (cb : A → S → S) where
  pub fire_each : List (Deadline A) → S → S
  fire_each [] s = s
  fire_each (x ∷ xs) s = fire_each xs (fire queue put_queue cb x.0 s)

  round_step :
      (time : ℕ) (t : Timeout A) (ts : List (Timeout A)) (found : Bool) (s : S)
      → expire_round queue put_queue cb time (t ∷ ts) found s ≡ (
          if ltb_ℤ (pos 0) (usteer_timeout_delta t time)
          then (found, s)
          else expire_round queue put_queue cb time ts true (fire queue put_queue cb t.owner s))
  unfolding expire_round
  round_step time t ts found s = refl

  round_done :
      (time : ℕ) (found : Bool) (s : S)
      → expire_round queue put_queue cb time [] found s ≡ (found, s)
  unfolding expire_round
  round_done time found s = refl

  expire_round-due :
      (now : ℕ) (ds : List (Deadline A)) (found : Bool) (s : S)
      → All (λ x. IsNear x.1 now) ds
      → IsSorted ds
      → expire_round queue put_queue cb (u32 now) (map timeout_of ds) found s
        ≡ ((found || is_any (due now ds)), fire_each (due now ds) s)
  unfolding fire_each
  expire_round-due now [] found s h k = round_done (u32 now) found s ∙ ground arith
  expire_round-due now (x ∷ xs) found s h k =
      let step = round_step (u32 now) (timeout_of x) (map timeout_of xs) found s in
      let over = is_over now x h.0 in
      elim (Bool-cases (ltb now x.1)) [
        | inl e ↦
            let empty : due now (x ∷ xs) ≡ [] =
              none_due now x.1 (x ∷ xs) (ground arith) (omega arith, k.0) in
            step ∙ rw (over, e, empty) (ground arith)
        | inr e ↦
            let now_due : leb x.1 now ≡ true = ground arith in
            let rest = expire_round-due now xs true (fire queue put_queue cb x.0 s) h.1 k.1 in
            step ∙ rw (over, e, now_due, rest) (ground arith)
      ]

  -- Where the tree holds timeouts in the order of their true deadlines, all less than 2 ^ 31
  -- milliseconds away, a pass over it fires exactly those whose deadline is not after the clock's
  -- time, each once and in order, and tells whether there was one.
  pub expire_round-fire_each :
      (now : ℕ) (ds : List (Deadline A)) (s : S)
      → Represents now (queue s) ds
      → expire_round queue put_queue cb (u32 now) (queue s).tree false s
        ≡ (is_any (due now ds), fire_each (due now ds) s)
  expire_round-fire_each now ds s h = rw h.tree (expire_round-due now ds false s h.near h.sorted)
