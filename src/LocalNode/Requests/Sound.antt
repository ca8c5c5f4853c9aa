-- ===== src/LocalNode/Requests/Sound.antt =====
-- The timers of a local node, their replies and its end keep the invariant of stations, entries, timeouts and nodes.
use usteer.Base.{
  ℕ, ◌≡◌, refl, if◌then◌else◌, subst, ◌∙◌, ◌==◌, ==_iff, map, filter, not, Bool, false, [], true,
  List, ◌∷◌, ◌++◌, Option, none, some, String, arith, Option-cases, Bool-cases, inl, inr,
}
use usteer.State.Node.{Node, LocalNode, StringArray, parse_array, usteer_node_set_blob, req_idle}
use usteer.State.Store.{Store, abort_request, abort_status, status, local_at, send, update_node}
use usteer.Sta.Info.Invariant.{IsSound, IsSafe, carry}
use usteer.Sta.Info.Sound.{usteer_sta_node_cleanup-IsSound}
use usteer.Sta.Info.Known.{update_node-IsSound}
use usteer.Sta.Info.Nodes.{has_local, locals_kept, same_locals, IsSound-IsSafe, cleanup-others}
use usteer.Sta.Info.{usteer_sta_node_cleanup}
use usteer.LocalNode.State.{write_local, update_local_node}
use usteer.Netifd.{netifd_update_node, netifd_free_node}
use usteer.Policy.Kick.{usteer_local_node_kick}
use usteer.Policy.Kept.{IsSound-IsKept}
use usteer.Policy.Kick.Kept.{usteer_local_node_kick_kept}
use usteer.Ubus.Ssids.{usteer_is_valid_ssid}
use usteer.LocalNode.Requests.{
  set_req_timer, put_state, usteer_local_node_state_reset, drop_local, usteer_free_node,
  usteer_handle_remove, next_state, request_of, usteer_local_node_state_next,
  usteer_local_node_req_cb, set_bssid, free_unless_valid, usteer_local_node_rrm_nr_cb,
  usteer_local_node_update, is_idle,
}

pub write_local-has_local :
    (p q : ℕ) (g : LocalNode → LocalNode) (ls : List LocalNode)
    → ((l : LocalNode) → l.node.ptr ≡ p → (g l).node.ptr ≡ p)
    → has_local q (map (write_local p g) ls) ≡ has_local q ls
unfolding write_local
write_local-has_local p q g [] k = refl
write_local-has_local p q g (l ∷ ls) k =
    ground (arith, write_local-has_local p q g ls k, k l, ==_iff l.node.ptr p)

-- A write to a local node is none to the addresses.
pub update_local_node-IsSound :
    {N : ℕ → Bool} (p : ℕ) (g : LocalNode → LocalNode) (s : Store)
    → ((l : LocalNode) → l.node.ptr ≡ p → (g l).node.ptr ≡ p)
    → IsSound N s
    → IsSound N (update_local_node p g s)
unfolding update_local_node
update_local_node-IsSound p g s k h =
    same_locals (map (write_local p g) s.local_nodes) s
      (λ q. write_local-has_local p q g s.local_nodes k) h

netifd_free_node-IsSound :
    {N : ℕ → Bool} (ln : LocalNode) (s : Store) → IsSound N s → IsSound N (netifd_free_node ln s)
unfolding netifd_free_node
netifd_free_node-IsSound ln s h = elim (Bool-cases ln.req_pending) [
  | inl p ↦ rw p h
  | inr p ↦ rw p h
]

-- An update aborts a request as the end of the node does.
free_node-aborts :
    (ln : LocalNode) (s : Store)
    → netifd_free_node ln s ≡ (if ln.req_pending then send abort_status s else s)
unfolding netifd_free_node
free_node-aborts ln s = refl

pub netifd_update_node-IsSound :
    {N : ℕ → Bool} (wireless : Option ℕ) (ln : LocalNode) (s : Store)
    → IsSound N s
    → IsSound N (netifd_update_node wireless ln s)
unfolding netifd_update_node
netifd_update_node-IsSound {N} wireless ln s h =
    let s1 : Store = if ln.req_pending then send abort_status s else s in
    let k1 : IsSound N s1 = rw (← free_node-aborts ln s) (netifd_free_node-IsSound ln s h) in
    let g : LocalNode → LocalNode = λ l. record l { req_pending = true } in
    elim (Bool-cases ln.status_complete) [
      | inl p ↦ rw p h
      | inr p ↦ elim (Option-cases wireless) [
        | inl q ↦ rw (p, q) k1
        | inr (id, q) ↦
            rw (p, q) (update_local_node-IsSound ln.node.ptr g (send (status id) s1) (λ l e. e) k1)
      ]
    ]

pub state_reset-IsSound :
    {N : ℕ → Bool} (ln : LocalNode) (s : Store)
    → IsSound N s
    → IsSound N (usteer_local_node_state_reset ln s)
unfolding usteer_local_node_state_reset
state_reset-IsSound ln s h = elim (Bool-cases (is_idle ln.req_state)) [
  | inl p ↦ rw p h
  | inr p ↦ rw p (
      update_local_node-IsSound ln.node.ptr (put_state req_idle) (send (abort_request ln.obj_id) s)
        (λ l e. e) h)
]

drop_local-has_local :
    (p q : ℕ) (ls : List LocalNode)
    → (q == p) ≡ false
    → has_local q (filter (λ l. not (l.node.ptr == p)) ls) ≡ has_local q ls
drop_local-has_local p q [] h = refl
drop_local-has_local p q (l ∷ ls) h = elim (Bool-cases (l.node.ptr == p)) [
  | inl e ↦ rw e (
      ground (
        arith,
        drop_local-has_local p q ls h,
        ==_iff l.node.ptr p,
        ==_iff l.node.ptr q,
        ==_iff q p,
      ))
  | inr e ↦ rw e (ground (arith, drop_local-has_local p q ls h))
]

usteer_free_node-IsSafe : (ln : LocalNode) (s : Store) → IsSafe s → IsSafe (usteer_free_node ln s)
unfolding usteer_free_node drop_local
usteer_free_node-IsSafe ln s h =
    let p = ln.node.ptr in
    let s1 = usteer_local_node_state_reset ln (netifd_free_node ln s) in
    let s2 = usteer_sta_node_cleanup p s1 in
    locals_kept (filter (λ l. not (l.node.ptr == p)) s2.local_nodes) s2
      (λ q e there. drop_local-has_local p q.node s2.local_nodes (cleanup-others p q s1 e) ∙ there)
      (usteer_sta_node_cleanup-IsSound p s1
        (state_reset-IsSound ln (netifd_free_node ln s) (netifd_free_node-IsSound ln s h)))

pub usteer_handle_remove-IsSafe :
    (p : ℕ) (s s' : Store) → usteer_handle_remove p s ≡ some s' → IsSafe s → IsSafe s'
unfolding usteer_handle_remove
usteer_handle_remove-IsSafe p s s' e h = elim (Option-cases (local_at s p)) [
  | inl q ↦ absurd (ground arith)
  | inr (ln, q) ↦
      let r : usteer_free_node ln s ≡ s' = ground arith in
      subst IsSafe r (usteer_free_node-IsSafe ln s h)
]

pub usteer_local_node_state_next-IsSound :
    {N : ℕ → Bool} (p : ℕ) (s s' : Store)
    → usteer_local_node_state_next p s ≡ some s'
    → IsSound N s
    → IsSound N s'
unfolding usteer_local_node_state_next
usteer_local_node_state_next-IsSound p s s' e h = elim (Option-cases (local_at s p)) [
  | inl q ↦ absurd (ground arith)
  | inr (ln, q) ↦
      let st = next_state ln.req_state in
      let g : LocalNode → LocalNode = λ l. record l { req_state = st; req_timer = none } in
      let s1 : Store = record s { sent = request_of st ln s ++ s.sent } in
      let r : update_local_node p g s1 ≡ s' = ground arith in
      carry r (update_local_node-IsSound p g s1 (λ l e. e) h)
]

pub usteer_local_node_req_cb-IsSound :
    {N : ℕ → Bool} (p : ℕ) (s : Store) → IsSound N s → IsSound N (usteer_local_node_req_cb p s)
unfolding usteer_local_node_req_cb
usteer_local_node_req_cb-IsSound p s h =
    update_local_node-IsSound p (set_req_timer 1) s (λ l e. e) h

pub usteer_local_node_update-IsSound :
    {N : ℕ → Bool} (wireless : Option ℕ) (p : ℕ) (s s' : Store)
    → usteer_local_node_update wireless p s ≡ some s'
    → IsSound N s
    → IsSound N s'
unfolding usteer_local_node_update
usteer_local_node_update-IsSound {N} wireless p s s' e h = elim (Option-cases (local_at s p)) [
  | inl q ↦ absurd (ground arith)
  | inr (ln, q) ↦
      let s0 = usteer_local_node_state_reset ln (netifd_update_node wireless ln s) in
      let k0 =
        state_reset-IsSound ln (netifd_update_node wireless ln s)
          (netifd_update_node-IsSound wireless ln s h) in
      let s1 = update_local_node p (set_req_timer 1) s0 in
      elim (Option-cases (usteer_local_node_kick p s1)) [
        | inl t ↦ absurd (ground arith)
        | inr (s2, t) ↦
            let g : LocalNode → LocalNode =
              λ l. record l { update = some s2.config.local_sta_update } in
            let r : update_local_node p g s2 ≡ s' = ground arith in
            carry r (
              update_local_node-IsSound p g s2 (λ l e. e)
                (usteer_local_node_kick_kept (IsSound-IsKept N) p s1 s2 t
                  (update_local_node-IsSound p (set_req_timer 1) s0 (λ l e. e) k0)))
      ]
]

module _ (ether_aton : String → Option ℕ) where
  set_bssid-IsSound :
      {N : ℕ → Bool} (p : ℕ) (text : Option String) (s s' : Store)
      → set_bssid ether_aton p text s ≡ some s'
      → IsSound N s
      → IsSound N s'
  unfolding set_bssid
  set_bssid-IsSound p none s s' e h = let r : s ≡ s' = ground arith in carry r h
  set_bssid-IsSound p (some text) s s' e h = elim (Option-cases (ether_aton text)) [
    | inl q ↦ absurd (ground arith)
    | inr (b, q) ↦
        let g : Node → Node = λ n. record n { bssid = b } in
        let r : update_node p g s ≡ s' = ground arith in
        carry r (update_node-IsSound p g s (λ _. refl) h)
  ]

  free_unless_valid-IsSafe :
      (p : ℕ) (ssid : Option String) (s s' : Store)
      → free_unless_valid ether_aton p ssid s ≡ some s'
      → IsSafe s
      → IsSafe s'
  unfolding free_unless_valid
  free_unless_valid-IsSafe p none s s' e h = let r : s ≡ s' = ground arith in subst IsSafe r h
  free_unless_valid-IsSafe p (some ssid) s s' e h =
      elim (Bool-cases (usteer_is_valid_ssid s ssid)) [
        | inl q ↦ let r : s ≡ s' = ground arith in subst IsSafe r h
        | inr q ↦ usteer_handle_remove-IsSafe p s s' (ground arith) h
      ]

  pub usteer_local_node_rrm_nr_cb-IsSafe :
      (p : ℕ) (value : Option StringArray) (s s' : Store)
      → usteer_local_node_rrm_nr_cb ether_aton p value s ≡ some s'
      → IsSafe s
      → IsSafe s'
  unfolding usteer_local_node_rrm_nr_cb
  usteer_local_node_rrm_nr_cb-IsSafe p none s s' e h =
      let r : s ≡ s' = ground arith in subst IsSafe r h
  usteer_local_node_rrm_nr_cb-IsSafe p (some value) s s' e h =
      let g : Node → Node = λ n. record n { rrm_nr = usteer_node_set_blob n.rrm_nr (some value) } in
      let s1 = update_node p g s in
      elim (Option-cases (set_bssid ether_aton p (parse_array 0 value) s1)) [
        | inl q ↦ absurd (ground arith)
        | inr (s2, q) ↦ free_unless_valid-IsSafe p (parse_array 1 value) s2 s' (ground arith) (
            IsSound-IsSafe s2 (
              set_bssid-IsSound p (parse_array 0 value) s1 s2 q
                (update_node-IsSound p g s (λ _. refl) h)))
      ]
