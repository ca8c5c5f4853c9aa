-- ===== src/EventLoop/Progress.antt =====
-- Callbacks that cannot fail in a state that the daemon can reach.
use usteer.Base.{
  ℕ, ◌≡◌, ◌≢◌, ◌<◌, true, List, [], ◌∷◌, find?, Option, none, some, String, ◌==◌, arith,
  Option-cases, inl, inr,
}
use usteer.State.Node.{Node, LocalNode}
use usteer.State.Station.{EventType}
use usteer.State.Store.{Store, local_at, node_at}
use usteer.Sta.Info.Nodes.{has_local}
use usteer.Sta.Info.Kept.{KeepsEntries}
use usteer.LocalNode.Events.{EventMsg, EventStatus, event_type_of, usteer_handle_event}
use usteer.LocalNode.Events.Total.{IsStaEvent, usteer_handle_event_total}
use usteer.LocalNode.Requests.{usteer_local_node_update}
use usteer.LocalNode.Requests.Total.{usteer_local_node_update_total}
use usteer.EventLoop.{Libraries, IsReachable}
use usteer.EventLoop.Sound.{IsReachable-IsSafe}

found_local :
    (p : ℕ) (ln : LocalNode) (ls : List LocalNode)
    → find? (λ (l : LocalNode). l.node.ptr == p) ls ≡ some ln
    → has_local p ls ≡ true
found_local p ln [] h = absurd (ground arith)
found_local p ln (l ∷ ls) h = ground (arith, found_local p ln ls)

returned : {A : Type 0} (r : Option A) → r ≢ none → (x : A) × (r ≡ some x)
returned r h = elim (Option-cases r) [ inl e ↦ absurd (h e) | inr (x, e) ↦ (x, e) ]

-- In every state that the daemon can reach, the periodic update of a local node that is there
-- returns, with its roaming check and its kick checks over all clients of the node, if neither
-- kick_client_active_sec nor local_sta_update is 0.
pub usteer_local_node_update_returns :
    (lib : Libraries) (wireless : Option ℕ) (p : ℕ) (ln : LocalNode) (s : Store)
    → IsReachable lib s
    → local_at s p ≡ some ln
    → 0 < s.config.kick_client_active_sec
    → 0 < s.config.local_sta_update
    → (s' : Store) × (usteer_local_node_update wireless p s ≡ some s')
usteer_local_node_update_returns lib wireless p ln s h at c d =
    returned (usteer_local_node_update wireless p s) (
      usteer_local_node_update_total wireless p ln s at c d (found_local p ln s.local_nodes at)
        (IsReachable-IsSafe lib s h))

-- In every state that the daemon can reach, a probe, association or authentication event of a node
-- that is there is handled to its end, whatever the message holds, if local_sta_timeout as an int
-- is above 0.
pub usteer_handle_event_returns :
    (lib : Libraries) (p : ℕ) (method : String) (type : EventType) (msg : EventMsg) (n : Node)
    (s : Store)
    → IsReachable lib s
    → node_at s p ≡ some n
    → event_type_of method ≡ some type
    → IsStaEvent type
    → KeepsEntries s.config
    → (r : EventStatus) × (s' : Store) × (usteer_handle_event lib.avl lib.ether_aton p method msg s
        ≡ some (r, s'))
usteer_handle_event_returns lib p method type msg n s h at of is c =
    let ((r, s'), e) = returned (usteer_handle_event lib.avl lib.ether_aton p method msg s) (
      usteer_handle_event_total lib.avl lib.ether_aton p method type msg n s at of is c
        (IsReachable-IsSafe lib s h)) in
    (r, s', e)
