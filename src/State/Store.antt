-- ===== src/State/Store.antt =====
-- The daemon's global state: `config`, `current_time`, the trees `stations`, `local_nodes` and
-- `remote_nodes`, the queue `tq`, the clock that it reads, the requests that it sends to hostapd and the
-- list `config_ssid_list`.
pub mod Entries
use usteer.Base.{
  ℕ, ◌+◌, ◌*◌, ◌/◌, Bool, true, false, not, ◌&&◌, List, [], ◌∷◌, ◌++◌, map, Option, none, some,
  ◌==◌, if◌then◌else◌, filter, find?, u64, ℤ, String,
}
use usteer.Timeout.{TimeoutQueue, Timespec}
use usteer.State.Config.{Config}
use usteer.State.Node.{StringArray, Node, LocalNode, RemoteNode}
use usteer.State.Station.{Ref, ref_eq, StaInfo, Sta}

-- What the daemon sends: calls on the hostapd object of a station's node, by method and arguments,
-- and the announcement of an entry to the other daemons.
pub data Request : Type 0 where
  rrm_beacon_req : Ref → Bool → Request  -- a scan of all channels, the new `scan_band`
  rrm_beacon_req_on : Ref → ℕ → ℤ → ℤ → Request  -- mode, channel, operating class
  wnm_disassoc_imminent : Ref → ℕ → List String → Request  -- duration, neighbours
  del_client : Ref → ℕ → Request  -- reason code
  sta_update : StaInfo → Request
  get_clients : ℕ → Request  -- the calls on a local node's own hostapd object, by its id
  rrm_nr_set : ℕ → List StringArray → Request
  rrm_nr_get_own : ℕ → Request
  abort_request : ℕ → Request
  notify_response : ℕ → Request
  bss_mgmt_enable : ℕ → Request
  subscribe : ℕ → Request
  status : ℕ → Request  -- netifd's status, by the id of its object
  abort_status : Request
  set_vendor_elements : ℕ → List ℕ → Request  -- the object, the text's memory

-- `infos` holds every `struct sta_info`, newest first. Both lists that link them, `sta->nodes` and
-- `node->sta_info`, grow at the head, so each is a part of this list, in its order.
pub record Store : Type 0 where
  pub config : Config
  pub current_time : ℕ
  pub clock : Timespec
  pub stations : List Sta
  pub local_nodes : List LocalNode
  pub remote_nodes : List RemoteNode
  pub infos : List StaInfo
  pub tq : TimeoutQueue Ref
  pub sent : List Request
  pub ssid_list : Option (List String)  -- config_ssid_list

unfoldable pub usteer_update_time : Store → Store
usteer_update_time s = record s {
  current_time = u64 (s.clock.tv_sec * 1000 + s.clock.tv_nsec / 1000000);
}

abbrev pub of_sta : ℕ → List StaInfo → List StaInfo
of_sta addr = filter (λ si. si.self.sta == addr)

abbrev pub of_node : ℕ → List StaInfo → List StaInfo
of_node ptr = filter (λ si. si.self.node == ptr)

abbrev pub find_info : Ref → List StaInfo → Option StaInfo
find_info r = find? (λ si. ref_eq si.self r)

-- The `usteer_node`s in the order in which both trees are walked.
abbrev pub all_nodes : Store → List Node
all_nodes s =
    map (λ (l : LocalNode). l.node) s.local_nodes ++ map (λ (r : RemoteNode). r.node) s.remote_nodes

-- A pointer to a node, followed; `none` if it dangles.
abbrev pub node_at : Store → ℕ → Option Node
node_at s p = find? (λ n. n.ptr == p) (all_nodes s)

unfoldable pub replace : StaInfo → List StaInfo → List StaInfo
replace si [] = []
replace si (x ∷ xs) = if ref_eq x.self si.self then si ∷ xs else x ∷ replace si xs

abbrev pub local_at : Store → ℕ → Option LocalNode
local_at s p = find? (λ l. l.node.ptr == p) s.local_nodes

-- Writes through a pointer to a `struct sta_info`.
unfoldable pub put_info : StaInfo → Store → Store
unfolding replace
put_info si s = record s { infos = replace si s.infos }

unfoldable pub update_local : ℕ → (Node → Node) → LocalNode → LocalNode
update_local p f l = if l.node.ptr == p then record l { node = f l.node } else l

unfoldable pub update_remote : ℕ → (Node → Node) → RemoteNode → RemoteNode
update_remote p f r = if r.node.ptr == p then record r { node = f r.node } else r

-- A write through a pointer to a `struct usteer_node`.
unfoldable pub update_node : ℕ → (Node → Node) → Store → Store
unfolding update_local update_remote
update_node p f s = record s {
  local_nodes = map (update_local p f) s.local_nodes;
  remote_nodes = map (update_remote p f) s.remote_nodes;
}

abbrev pub send : Request → Store → Store
send r s = record s { sent = r ∷ s.sent }
