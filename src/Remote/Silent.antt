-- ===== src/Remote/Silent.antt =====
-- The check of the other daemons' nodes: which go, and which are counted on.
use usteer.Base.{
  ℕ, ◌≡◌, refl, ap, sym, ◌∙◌, Bool, true, false, not, ◌||◌, any, filter, List, [], ◌∷◌, ◌++◌, map,
  some, ◌==◌, arith, Bool-cases, inl, inr, if◌then◌else◌, ℤ, pos, ◌+ℤ◌, ltb_ℤ, i32, to_i32, ◌/◌,
}
use usteer.State.Node.{Node, RemoteNode}
use usteer.State.Station.{Ref, StaInfo}
use usteer.State.Store.{Store, update_remote, update_node, of_node}
use usteer.Sta.Info.{
  usteer_sta_info_del, usteer_sta_del, del_each, drop_rrm_nr, usteer_sta_node_cleanup,
}
use usteer.Remote.Send.{
  drop_remote, remote_node_free, count_check, check_each, usteer_check_timeout,
}

abbrev pub has_ptr : ℕ → List RemoteNode → Bool
has_ptr p = any (λ r. r.node.ptr == p)

-- No two nodes have the same address.
abbrev pub HasUniquePtrs : List RemoteNode → Type 0
HasUniquePtrs [] = Unit {0}
HasUniquePtrs (r ∷ rs) = (has_ptr r.node.ptr rs ≡ false) × HasUniquePtrs rs

abbrev pub counted : RemoteNode → RemoteNode
counted r = record r { check = i32 (r.check +ℤ pos 1) }

-- The nodes that stay, counted.
abbrev pub still_heard : ℤ → List RemoteNode → List RemoteNode
still_heard timeout rs = map counted (filter (λ r. not (ltb_ℤ timeout r.check)) rs)

info_del-remote_nodes :
    (r : Ref) (s : Store) → (usteer_sta_info_del r s).remote_nodes ≡ s.remote_nodes
unfolding usteer_sta_info_del usteer_sta_del
info_del-remote_nodes r s = ground arith

del_each-remote_nodes :
    (sis : List StaInfo) (s : Store) → (del_each sis s).remote_nodes ≡ s.remote_nodes
unfolding del_each
del_each-remote_nodes [] s = refl
del_each-remote_nodes (x ∷ xs) s =
    del_each-remote_nodes xs (usteer_sta_info_del x.self s) ∙ info_del-remote_nodes x.self s

update_remote-has_ptr :
    (p : ℕ) (g : Node → Node) (rs : List RemoteNode)
    → has_ptr p rs ≡ false
    → map (update_remote p g) rs ≡ rs
unfolding update_remote
update_remote-has_ptr p g [] h = refl
update_remote-has_ptr p g (r ∷ rs) h = ground (arith, update_remote-has_ptr p g rs)

drop_remote-has_ptr : (p : ℕ) (rs : List RemoteNode) → has_ptr p rs ≡ false → drop_remote p rs ≡ rs
unfolding drop_remote
drop_remote-has_ptr p [] h = refl
drop_remote-has_ptr p (r ∷ rs) h = ground (arith, drop_remote-has_ptr p rs)

-- The node in question stands between nodes of other addresses.
drop_between :
    (r : RemoteNode) (xs rs : List RemoteNode)
    → has_ptr r.node.ptr xs ≡ false
    → has_ptr r.node.ptr rs ≡ false
    → drop_remote r.node.ptr (xs ++ r ∷ rs) ≡ xs ++ rs
unfolding drop_remote
drop_between r [] rs h k = ground (arith, drop_remote-has_ptr r.node.ptr rs k)
drop_between r (x ∷ xs) rs h k = ground (arith, drop_between r xs rs)

count_between :
    (r : RemoteNode) (xs rs : List RemoteNode)
    → has_ptr r.node.ptr xs ≡ false
    → count_check r.node.ptr (xs ++ r ∷ rs) ≡ xs ++ counted r ∷ rs
unfolding count_check
count_between r [] rs h = ground arith
count_between r (x ∷ xs) rs h = ground (arith, count_between r xs rs)

has_ptr-append :
    (p : ℕ) (xs ys : List RemoteNode) → has_ptr p (xs ++ ys) ≡ (has_ptr p xs || has_ptr p ys)
has_ptr-append p [] ys = refl
has_ptr-append p (x ∷ xs) ys = ground (arith, has_ptr-append p xs ys)

remote_node_free-remote_nodes :
    (p : ℕ) (s : Store)
    → has_ptr p (drop_remote p s.remote_nodes) ≡ false
    → (remote_node_free p s).remote_nodes ≡ drop_remote p s.remote_nodes
unfolding remote_node_free usteer_sta_node_cleanup update_node
remote_node_free-remote_nodes p s h =
    del_each-remote_nodes (of_node p s.infos) _
    ∙ update_remote-has_ptr p drop_rrm_nr (drop_remote p s.remote_nodes) h

-- No address of the one list is in the other.
abbrev are_apart : List RemoteNode → List RemoteNode → Bool
are_apart xs rs = not (any (λ (r : RemoteNode). has_ptr r.node.ptr xs) rs)

apart_from_one :
    (r : RemoteNode) (xs rs : List RemoteNode)
    → has_ptr r.node.ptr rs ≡ false
    → are_apart xs rs ≡ true
    → are_apart (xs ++ counted r ∷ []) rs ≡ true
apart_from_one r xs [] h k = refl
apart_from_one r xs (q ∷ rs) h k =
    ground (arith, apart_from_one r xs rs, has_ptr-append q.node.ptr xs (counted r ∷ []))

append_one :
    (xs : List RemoteNode) (r : RemoteNode) (rs : List RemoteNode)
    → xs ++ r ∷ rs ≡ (xs ++ r ∷ []) ++ rs
append_one [] r rs = refl
append_one (x ∷ xs) r rs = ap (λ l. x ∷ l) (append_one xs r rs)

freed_between :
    (r : RemoteNode) (xs rs : List RemoteNode) (s : Store)
    → s.remote_nodes ≡ xs ++ counted r ∷ rs
    → has_ptr r.node.ptr xs ≡ false
    → has_ptr r.node.ptr rs ≡ false
    → (remote_node_free r.node.ptr s).remote_nodes ≡ xs ++ rs
freed_between r xs rs s e h k =
    let gone : drop_remote r.node.ptr s.remote_nodes ≡ xs ++ rs =
      rw e (drop_between (counted r) xs rs h k) in
    remote_node_free-remote_nodes r.node.ptr s
      (rw gone (ground (arith, has_ptr-append r.node.ptr xs rs)))
    ∙ gone

-- A step of the loop.
check_next :
    (timeout : ℤ) (r : RemoteNode) (rs : List RemoteNode) (s : Store)
    → check_each timeout (r ∷ rs) s
      ≡ check_each timeout rs (
          if ltb_ℤ timeout r.check
          then remote_node_free r.node.ptr
              (record s { remote_nodes = count_check r.node.ptr s.remote_nodes })
          else record s { remote_nodes = count_check r.node.ptr s.remote_nodes })
unfolding check_each
check_next timeout r rs s = refl

check_each-still_heard :
    (timeout : ℤ) (xs rs : List RemoteNode) (s : Store)
    → s.remote_nodes ≡ xs ++ rs
    → are_apart xs rs ≡ true
    → HasUniquePtrs rs
    → (check_each timeout rs s).remote_nodes ≡ xs ++ still_heard timeout rs
unfolding check_each
check_each-still_heard timeout xs [] s e h u = e
check_each-still_heard timeout xs (r ∷ rs) s e h u =
    let p = r.node.ptr in
    let out : has_ptr p xs ≡ false = ground arith in
    let rest : are_apart xs rs ≡ true = ground arith in
    let nodes = count_check p s.remote_nodes in
    let s1 : Store = record s { remote_nodes = nodes } in
    let here : nodes ≡ xs ++ counted r ∷ rs = rw e (count_between r xs rs out) in
    elim (Bool-cases (ltb_ℤ timeout r.check)) [
      | inl q ↦
          rw (check_next timeout r rs s, q)
            (check_each-still_heard timeout xs rs (remote_node_free p s1)
              (freed_between r xs rs s1 here out u.0) rest u.1)
      | inr q ↦
          rw (check_next timeout r rs s, q)
            (check_each-still_heard timeout (xs ++ counted r ∷ []) rs s1
                (here ∙ append_one xs (counted r) rs) (apart_from_one r xs rs u.0 rest) u.1
              ∙ sym (append_one xs (counted r) (still_heard timeout rs)))
    ]

apart_from_none : (rs : List RemoteNode) → are_apart [] rs ≡ true
apart_from_none [] = refl
apart_from_none (r ∷ rs) = apart_from_none rs

-- With an update interval other than 0, and no two nodes at the same address in memory, the check
-- of the other daemons' nodes returns, and leaves in their order exactly those whose count was not
-- over the timeout in intervals, each counted once more.
pub usteer_check_timeout-still_heard :
    (s : Store)
    → HasUniquePtrs s.remote_nodes
    → ¬ (s.config.remote_update_interval ≡ 0)
    → (s' : Store) × (usteer_check_timeout s ≡ some s')
      × (s'.remote_nodes
          ≡ still_heard
              (to_i32 (s.config.remote_node_timeout / s.config.remote_update_interval))
              s.remote_nodes)
unfolding usteer_check_timeout
usteer_check_timeout-still_heard s u h =
    let timeout = to_i32 (s.config.remote_node_timeout / s.config.remote_update_interval) in
    (
      check_each timeout s.remote_nodes s,
      ground arith,
      check_each-still_heard timeout [] s.remote_nodes s refl (apart_from_none s.remote_nodes) u,
    )
