-- ===== src/LocalNode/Requests/Total.antt =====
-- The periodic update of a local node that is there returns.
use usteer.Base.{
  ℕ, ◌≡◌, ◌≢◌, ◌∙◌, ◌<◌, refl, true, Option, none, some, arith, Option-cases, Bool-cases, inl, inr,
  Bool, if◌then◌else◌,
}
use usteer.State.Node.{LocalNode, req_idle}
use usteer.State.Store.{Store, abort_status, abort_request, status, local_at, send}
use usteer.Sta.Info.Invariant.{IsSound}
use usteer.Sta.Info.Nodes.{has_local}
use usteer.LocalNode.State.{update_local_node}
use usteer.Netifd.{netifd_update_node}
use usteer.Policy.Kick.Total.{usteer_local_node_kick_total}
use usteer.LocalNode.Requests.{
  set_req_timer, put_state, is_idle, usteer_local_node_state_reset, usteer_local_node_update,
}
use usteer.LocalNode.Requests.Sound.{
  write_local-has_local, update_local_node-IsSound, netifd_update_node-IsSound, state_reset-IsSound,
}

-- The settings stay, and so do the addresses of the local nodes.
abbrev Stays : Store → Store → Type 0
Stays s s' =
    (s'.config ≡ s.config) × ((q : ℕ) → has_local q s'.local_nodes ≡ has_local q s.local_nodes)

update_local_node-Stays :
    (p : ℕ) (g : LocalNode → LocalNode) (s : Store)
    → ((l : LocalNode) → l.node.ptr ≡ p → (g l).node.ptr ≡ p)
    → Stays s (update_local_node p g s)
unfolding update_local_node
update_local_node-Stays p g s k = (refl, λ q. write_local-has_local p q g s.local_nodes k)

netifd_update_node-Stays :
    (wireless : Option ℕ) (ln : LocalNode) (s : Store) → Stays s (netifd_update_node wireless ln s)
unfolding netifd_update_node
netifd_update_node-Stays wireless ln s =
    let s1 : Store = if ln.req_pending then send abort_status s else s in
    let k1 : Stays s s1 = elim (Bool-cases ln.req_pending) [
      | inl p ↦ rw p (refl, λ q. refl)
      | inr p ↦ rw p (refl, λ q. refl)
    ] in
    let g : LocalNode → LocalNode = λ l. record l { req_pending = true } in
    elim (Bool-cases ln.status_complete) [
      | inl p ↦ rw p (refl, λ q. refl)
      | inr p ↦ elim (Option-cases wireless) [
        | inl e ↦ rw (p, e) k1
        | inr (id, e) ↦
            let k2 = update_local_node-Stays ln.node.ptr g (send (status id) s1) (λ l f. f) in
            rw (p, e) (k2.0 ∙ k1.0, λ q. k2.1 q ∙ k1.1 q)
      ]
    ]

state_reset-Stays : (ln : LocalNode) (s : Store) → Stays s (usteer_local_node_state_reset ln s)
unfolding usteer_local_node_state_reset
state_reset-Stays ln s = elim (Bool-cases (is_idle ln.req_state)) [
  | inl p ↦ rw p (refl, λ q. refl)
  | inr p ↦ rw p (
      update_local_node-Stays ln.node.ptr (put_state req_idle) (send (abort_request ln.obj_id) s)
        (λ l e. e))
]

pub usteer_local_node_update_total :
    {N : ℕ → Bool} (wireless : Option ℕ) (p : ℕ) (ln : LocalNode) (s : Store)
    → local_at s p ≡ some ln
    → 0 < s.config.kick_client_active_sec
    → 0 < s.config.local_sta_update
    → has_local p s.local_nodes ≡ true
    → IsSound N s
    → usteer_local_node_update wireless p s ≢ none
unfolding usteer_local_node_update
usteer_local_node_update_total wireless p ln s at c d there h e =
    let s1 = netifd_update_node wireless ln s in
    let s2 = usteer_local_node_state_reset ln s1 in
    let s3 = update_local_node p (set_req_timer 1) s2 in
    let k1 = netifd_update_node-Stays wireless ln s in
    let k2 = state_reset-Stays ln s1 in
    let k3 = update_local_node-Stays p (set_req_timer 1) s2 (λ l f. f) in
    let same : s3.config ≡ s.config = k3.0 ∙ k2.0 ∙ k1.0 in
    let there3 = k3.1 p ∙ k2.1 p ∙ k1.1 p ∙ there in
    let sound =
      update_local_node-IsSound p (set_req_timer 1) s2 (λ l f. f)
        (state_reset-IsSound ln s1 (netifd_update_node-IsSound wireless ln s h)) in
    ground (arith, usteer_local_node_kick_total p s3 (rw same c) (rw same d) there3 sound)
