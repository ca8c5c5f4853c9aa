-- ===== src/Timeout.antt =====
-- timeout.c and timeout.h: a queue of timeouts over one event-loop timer. A timeout is named by the
-- object that embeds it, its owner; `uloop_timeout_set` leaves the armed delay in `timer`.
pub mod Armed
pub mod Order
pub mod Deadlines
pub mod Insert
pub mod Set
pub mod Due
pub mod Expiry
pub mod Kept
use usteer.Base.{
  ℕ, ◌+◌, ◌*◌, ◌/◌, Bool, true, false, not, ◌&&◌, ◌||◌, ◌≡◌, ◌↔◌, List, [], ◌∷◌, Option, none, some,
  if◌then◌else◌, filter, any, ℤ, pos, negsuc, ltb_ℤ, u32, sub32, to_u32, to_i32,
}
use usteer.Base.Avl.{AvlTree}

-- Pointer equality of owners.
pub record Key (A : Type 0) : Type 0 where
  pub same : A → A → Bool
  pub same_iff : (a b : A) → (same a b ≡ true) ↔ (a ≡ b)

pub record Timespec : Type 0 where
  pub tv_sec : ℕ
  pub tv_nsec : ℕ

pub record Timeout (A : Type 0) : Type 0 where
  pub owner : A
  pub key : ℕ  -- uint32_t

pub record TimeoutQueue (A : Type 0) : Type 0 where
  pub tree : List (Timeout A)
  pub timer : Option ℤ

pub usteer_timeout_cmp : ℕ → ℕ → ℕ → ℤ
usteer_timeout_cmp ref k1 k2 =
    let t1 = to_i32 (sub32 k1 ref) in
    let t2 = to_i32 (sub32 k2 ref) in
    if ltb_ℤ t1 t2 then negsuc 0 else if ltb_ℤ t2 t1 then pos 1 else pos 0

pub usteer_timeout_delta : {A : Type 0} → Timeout A → ℕ → ℤ
usteer_timeout_delta t time = to_i32 (sub32 t.key time)

pub ampgr_timeout_current_time : Timespec → ℕ
ampgr_timeout_current_time ts = u32 (u32 (ts.tv_sec * 1000) + ts.tv_nsec / 1000000)

recalc_delta : ℤ → ℤ
recalc_delta delta = if ltb_ℤ delta (pos 1) then pos 1 else delta

pub usteer_timeout_recalc : {A : Type 0} → TimeoutQueue A → ℕ → TimeoutQueue A
unfolding recalc_delta usteer_timeout_delta
usteer_timeout_recalc q time = elim q.tree [
  | [] ↦ record q { timer = none }
  | t ∷ _ ↦ record q { timer = some (recalc_delta (usteer_timeout_delta t time)) }
]

unfoldable pub usteer_timeout_init : {A : Type 0} → TimeoutQueue A
usteer_timeout_init = record { tree = []; timer = none }

module _ {A : Type 0} ⦃k : Key A⦄ where
  unfoldable pub usteer_timeout_isset : TimeoutQueue A → A → Bool
  usteer_timeout_isset q a = any (λ t. k.same t.owner a) q.tree

  avl_is_first : List (Timeout A) → A → Bool
  avl_is_first [] a = false
  avl_is_first (t ∷ _) a = k.same t.owner a

  pub avl_delete : List (Timeout A) → A → List (Timeout A)
  avl_delete tree a = filter (λ t. not (k.same t.owner a)) tree

  pub usteer_timeout_cancel : TimeoutQueue A → A → TimeoutQueue A
  unfolding usteer_timeout_isset avl_delete
  usteer_timeout_cancel q a =
      if not (usteer_timeout_isset q a) then q else record q { tree = avl_delete q.tree a }

module _ {A : Type 0} ⦃k : Key A⦄ (avl : AvlTree) where
  pub insert_at : ℕ → Timeout A → List (Timeout A) → List (Timeout A)
  insert_at time = avl.avl_insert (λ s t. usteer_timeout_cmp time s.key t.key)

  -- The tree with the timeout at its new place.
  pub set_tree : ℕ → TimeoutQueue A → A → ℤ → List (Timeout A)
  unfolding insert_at avl_delete usteer_timeout_isset
  set_tree time q a msecs =
      insert_at time (record { owner = a; key = u32 (time + to_u32 msecs) })
        (if usteer_timeout_isset q a then avl_delete q.tree a else q.tree)

  pub usteer_timeout_set : ℕ → TimeoutQueue A → A → ℤ → TimeoutQueue A
  usteer_timeout_set time q a msecs =
      let was_first = usteer_timeout_isset q a && avl_is_first q.tree a in
      let tree = set_tree time q a msecs in
      let q' : TimeoutQueue A = record q { tree = tree } in
      if was_first || avl_is_first tree a then usteer_timeout_recalc q' time else q'

-- The callback of a queue that lives in a larger state; a null callback is the identity.
module _ {A S : Type 0} ⦃k : Key A⦄ (queue : S → TimeoutQueue A)
    (put_queue : TimeoutQueue A → S → S) (cb : A → S → S) where
  pub fire : A → S → S
  fire a s = cb a (put_queue (usteer_timeout_cancel (queue s) a) s)

  -- One pass of `avl_for_each_element_safe` over the tree, and whether a timeout was found.
  pub expire_round : ℕ → List (Timeout A) → Bool → S → Bool × S
  unfolding fire
  expire_round time [] found s = (found, s)
  expire_round time (t ∷ ts) found s =
      let rest = expire_round time ts true (fire t.owner s) in
      if ltb_ℤ (pos 0) (usteer_timeout_delta t time) then (found, s) else rest

  -- The `do … while (found)` loop reads the clock once for each round; `none` if it needs more
  -- readings than are given.
  pub usteer_timeout_cb : List ℕ → S → Option S
  usteer_timeout_cb [] s = none
  usteer_timeout_cb (time ∷ times) s =
      let (found, s') = expire_round time (queue s).tree false s in
      let again = usteer_timeout_cb times s' in
      if found then again else some (put_queue (usteer_timeout_recalc (queue s') time) s')

  flush_each : List (Timeout A) → S → S
  flush_each [] s = s
  flush_each (t ∷ ts) s = flush_each ts (cb t.owner s)

  pub usteer_timeout_flush : S → S
  unfolding flush_each
  usteer_timeout_flush s =
      flush_each (queue s).tree (put_queue (record { tree = []; timer = none }) s)
