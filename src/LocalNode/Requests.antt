-- ===== src/LocalNode/Requests.antt =====
-- local_node.c: the timers of a local node, the requests to hostapd that they make in turn, and the end
-- of a node.
pub mod Sound
pub mod Total
pub mod Cycle
use usteer.Base.{
  ℕ, zero, suc, Bool, true, false, not, List, [], ◌∷◌, ◌++◌, map, filter, Option, none, some,
  String, ◌>>=◌, ◌==◌, if◌then◌else◌, str_eq,
}
use usteer.State.Node.{
  Node, LocalNode, StringArray, parse_array, LocalReqState, req_idle, req_clients, req_rrm_set_list,
  req_rrm_get_own, usteer_node_set_blob,
}
use usteer.State.Store.{
  Store, Request, get_clients, rrm_nr_set, rrm_nr_get_own, abort_request, all_nodes, local_at, send,
  update_node,
}
use usteer.Sta.Info.{usteer_sta_node_cleanup}
use usteer.LocalNode.State.{update_local_node}
use usteer.Netifd.{netifd_update_node, netifd_free_node}
use usteer.Ubus.Ssids.{usteer_is_valid_ssid}
use usteer.Policy.Kick.{usteer_local_node_kick}

abbrev pub set_req_timer : ℕ → LocalNode → LocalNode
set_req_timer delay l = record l { req_timer = some delay }

abbrev pub put_state : LocalReqState → LocalNode → LocalNode
put_state st l = record l { req_state = st }

abbrev is_idle : LocalReqState → Bool
is_idle req_idle = true
is_idle _ = false

unfoldable pub usteer_local_node_state_reset : LocalNode → Store → Store
usteer_local_node_state_reset ln s =
    if is_idle ln.req_state
    then s
    else update_local_node ln.node.ptr (put_state req_idle) (send (abort_request ln.obj_id) s)

drop_local : ℕ → Store → Store
drop_local p s = record s { local_nodes = filter (λ l. not (l.node.ptr == p)) s.local_nodes }

-- The handlers' `free_node` first. The node's timers, that of nl80211.c too, go with it.
unfoldable pub usteer_free_node : LocalNode → Store → Store
unfolding drop_local
usteer_free_node ln s =
    drop_local ln.node.ptr (
      usteer_sta_node_cleanup ln.node.ptr
        (usteer_local_node_state_reset ln (netifd_free_node ln s)))

-- The callback of the subscription, when hostapd's object goes.
unfoldable pub usteer_handle_remove : ℕ → Store → Option Store
usteer_handle_remove p s = do ln ← local_at s p; some (usteer_free_node ln s)

-- The neighbour report of another node of the same network.
unfoldable pub usteer_add_rrm_data : LocalNode → Node → List StringArray
usteer_add_rrm_data ln node = if (node.ptr == ln.node.ptr) then [] else elim node.rrm_nr [
  | none ↦ []
  | some nr ↦ if not (str_eq ln.node.ssid node.ssid) then [] else nr ∷ []
]

add_each_rrm : LocalNode → List Node → List StringArray
add_each_rrm ln [] = []
add_each_rrm ln (n ∷ ns) = usteer_add_rrm_data ln n ++ add_each_rrm ln ns

unfoldable pub usteer_local_node_prepare_rrm_set : LocalNode → Store → List StringArray
unfolding add_each_rrm
usteer_local_node_prepare_rrm_set ln s = add_each_rrm ln (all_nodes s)

-- `req_state++`, back to REQ_IDLE from the last one.
abbrev pub next_state : LocalReqState → LocalReqState
next_state req_idle = req_clients
next_state req_clients = req_rrm_set_list
next_state req_rrm_set_list = req_rrm_get_own
next_state req_rrm_get_own = req_idle

-- The call of each state, if it has one.
unfoldable pub request_of : LocalReqState → LocalNode → Store → List Request
request_of req_idle ln s = []
request_of req_clients ln s = get_clients ln.obj_id ∷ []
request_of req_rrm_set_list ln s =
    rrm_nr_set ln.obj_id (usteer_local_node_prepare_rrm_set ln s) ∷ []
request_of req_rrm_get_own ln s = rrm_nr_get_own ln.obj_id ∷ []

-- The callback of `req_timer`, which uloop has taken off its list.
unfoldable pub usteer_local_node_state_next : ℕ → Store → Option Store
usteer_local_node_state_next p s = do
  ln ← local_at s p
  let st = next_state ln.req_state
  let s1 : Store = record s { sent = request_of st ln s ++ s.sent }
  some (update_local_node p (λ l. record l { req_state = st; req_timer = none }) s1)

-- A request is complete.
unfoldable pub usteer_local_node_req_cb : ℕ → Store → Store
usteer_local_node_req_cb p s = update_local_node p (set_req_timer 1) s

-- `ether_aton` is the C library's; a copy from its null pointer is a fault.
module _ (ether_aton : String → Option ℕ) where
  set_bssid : ℕ → Option String → Store → Option Store
  set_bssid p none s = some s
  set_bssid p (some text) s = do
    bssid ← ether_aton text
    some (update_node p (λ n. record n { bssid = bssid }) s)

  free_unless_valid : ℕ → Option String → Store → Option Store
  free_unless_valid p none s = some s
  free_unless_valid p (some ssid) s =
      if usteer_is_valid_ssid s ssid then some s else usteer_handle_remove p s

  -- The reply to "rrm_nr_get_own": its "value".
  unfoldable pub usteer_local_node_rrm_nr_cb : ℕ → Option StringArray → Store → Option Store
  unfolding set_bssid free_unless_valid
  usteer_local_node_rrm_nr_cb p none s = some s
  usteer_local_node_rrm_nr_cb p (some value) s = do
    let s1 = update_node p (λ n. record n { rrm_nr = usteer_node_set_blob n.rrm_nr (some value) }) s
    s2 ← set_bssid p (parse_array 0 value) s1
    free_unless_valid p (parse_array 1 value) s2

-- The callback of `update`. Of the handlers netifd's has an `update_node`.
unfoldable pub usteer_local_node_update : Option ℕ → ℕ → Store → Option Store
usteer_local_node_update wireless p s = do
  ln ← local_at s p
  let s0 = usteer_local_node_state_reset ln (netifd_update_node wireless ln s)
  s1 ← usteer_local_node_kick p (update_local_node p (set_req_timer 1) s0)
  some (update_local_node p (λ l. record l { update = some s1.config.local_sta_update }) s1)
