-- ===== src/Remote/Sound.antt =====
-- The check of other daemons' nodes keeps the invariant of stations, entries, timeouts and nodes.
use usteer.Base.{
  ℕ, ◌≡◌, ◌∙◌, refl, ap, if◌then◌else◌, subst, Bool, false, List, [], ◌∷◌, map, some, String, arith,
  Option-cases, Bool-cases, inl, inr, ℤ, ltb_ℤ, to_i32, ◌/◌, ◌==◌, ==_iff,
}
use usteer.State.Node.{RemoteNode}
use usteer.State.Store.{Store, usteer_update_time, update_remote}
use usteer.Sta.Info.{usteer_sta_node_cleanup, drop_rrm_nr}
use usteer.Sta.Info.Invariant.{IsSound, IsSafe}
use usteer.Sta.Info.Sound.{usteer_sta_node_cleanup-IsSound}
use usteer.Sta.Info.Nodes.{
  has_remote, remotes_kept, same_remotes, IsSound-IsSafe, cleanup-remotes, cleanup-others,
}
use usteer.Remote.Send.{
  Remote, remote_node_free, drop_remote, count_check, check_each, usteer_check_timeout,
  usteer_send_update_timer,
}

pub update_time-IsSound :
    {N : ℕ → Bool} (s : Store) → IsSound N s → IsSound N (usteer_update_time s)
unfolding usteer_update_time
update_time-IsSound s h = h

-- The nodes of other addresses stay.
drop_remote-has_remote :
    (p q : ℕ) (rs : List RemoteNode)
    → (q == p) ≡ false
    → has_remote q (map (update_remote p drop_rrm_nr) (drop_remote p rs))
      ≡ has_remote q (map (update_remote p drop_rrm_nr) rs)
unfolding drop_remote update_remote
drop_remote-has_remote p q [] h = refl
drop_remote-has_remote p q (r ∷ rs) h = elim (Bool-cases (r.node.ptr == p)) [
  | inl e ↦ rw e (
      ground (
        arith,
        drop_remote-has_remote p q rs h,
        ==_iff r.node.ptr p,
        ==_iff r.node.ptr q,
        ==_iff q p,
      ))
  | inr e ↦ rw (e, e) (ground (arith, drop_remote-has_remote p q rs h))
]

remote_node_free-IsSafe : (p : ℕ) (s : Store) → IsSafe s → IsSafe (remote_node_free p s)
unfolding remote_node_free
remote_node_free-IsSafe p s h =
    let left = drop_remote p s.remote_nodes in
    let s1 = usteer_sta_node_cleanup p s in
    let kept : s1.remote_nodes ≡ map (update_remote p drop_rrm_nr) s.remote_nodes =
      ap (λ (t : Store). t.remote_nodes) (cleanup-remotes p s.remote_nodes s) in
    rw (cleanup-remotes p left s) (
      remotes_kept (map (update_remote p drop_rrm_nr) left) s1
        (λ q e there.
          drop_remote-has_remote p q.node s.remote_nodes (cleanup-others p q s e)
          ∙ rw (← kept) there)
        (usteer_sta_node_cleanup-IsSound p s h))

count_check-has_remote :
    (p q : ℕ) (rs : List RemoteNode) → has_remote q (count_check p rs) ≡ has_remote q rs
unfolding count_check
count_check-has_remote p q [] = refl
count_check-has_remote p q (r ∷ rs) = ground (arith, count_check-has_remote p q rs)

check_each-IsSafe :
    (timeout : ℤ) (rs : List RemoteNode) (s : Store) → IsSafe s → IsSafe (check_each timeout rs s)
unfolding check_each
check_each-IsSafe timeout [] s h = h
check_each-IsSafe timeout (r ∷ rs) s h =
    let nodes = count_check r.node.ptr s.remote_nodes in
    let s1 : Store = record s { remote_nodes = nodes } in
    let k1 : IsSafe s1 =
      IsSound-IsSafe s1
        (same_remotes nodes s (λ q. count_check-has_remote r.node.ptr q s.remote_nodes) h) in
    let s2 : Store = if ltb_ℤ timeout r.check then remote_node_free r.node.ptr s1 else s1 in
    let k2 : IsSafe s2 = elim (Bool-cases (ltb_ℤ timeout r.check)) [
      | inl p ↦ rw p (remote_node_free-IsSafe r.node.ptr s1 k1)
      | inr p ↦ rw p k1
    ] in
    check_each-IsSafe timeout rs s2 k2

usteer_check_timeout-IsSafe :
    (s s' : Store) → usteer_check_timeout s ≡ some s' → IsSafe s → IsSafe s'
unfolding usteer_check_timeout
usteer_check_timeout-IsSafe s s' e h =
    let timeout = to_i32 (s.config.remote_node_timeout / s.config.remote_update_interval) in
    let p : check_each timeout s.remote_nodes s ≡ s' = ground arith in
    subst IsSafe p (check_each-IsSafe timeout s.remote_nodes s h)

pub usteer_send_update_timer-IsSafe :
    (ether_ntoa : ℕ → String) (s s' : Store) (r r' : Remote)
    → usteer_send_update_timer ether_ntoa s r ≡ some (s', r')
    → IsSafe s
    → IsSafe s'
unfolding usteer_send_update_timer
usteer_send_update_timer-IsSafe ether_ntoa s s' r r' e h =
    elim (Option-cases (usteer_check_timeout (usteer_update_time s))) [
      | inl q ↦ absurd (ground arith)
      | inr (s1, q) ↦
          let p : s1 ≡ s' = ground arith in
          subst IsSafe p (
            usteer_check_timeout-IsSafe (usteer_update_time s) s1 q
              (IsSound-IsSafe (usteer_update_time s) (update_time-IsSound s h)))
    ]
