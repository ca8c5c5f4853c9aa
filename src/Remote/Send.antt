-- ===== src/Remote/Send.antt =====
-- remote.c: the messages that are sent, and the timer that sends them.
use usteer.Base.{
  ℕ, ◌+◌, ◌/◌, List, [], ◌∷◌, ◌++◌, Option, none, some, String, ◌>>=◌, ◌==◌, if◌then◌else◌, map, ℤ,
  pos, ◌+ℤ◌, ltb_ℤ, to_u32, to_i32, i32, u32, sub32, sub64,
}
use usteer.State.Node.{Node, LocalNode, RemoteNode, StringArray, Blob}
use usteer.State.Station.{StaInfo}
use usteer.State.Config.{Config}
use usteer.State.Store.{Store, of_node, node_at, usteer_update_time}
use usteer.Sta.Info.{usteer_sta_node_cleanup}
use usteer.Remote.Blob.{Attr, int8, int32, string, binary, nested, array, of_list, addr_bytes}
use usteer.Remote.Ids.{
  apmsg_id, apmsg_seq, apmsg_nodes, apmsg_node_name, apmsg_node_freq, apmsg_node_n_assoc,
  apmsg_node_stations, apmsg_node_noise, apmsg_node_load, apmsg_node_ssid, apmsg_node_bssid,
  apmsg_node_max_assoc, apmsg_node_rrm_nr, apmsg_node_script_data, apmsg_sta_addr, apmsg_sta_signal,
  apmsg_sta_timeout, apmsg_sta_seen, apmsg_sta_connected,
}

pub record Interface : Type 0 where
  pub name : String
  pub ifindex : ℕ

-- The module's own variables, and the datagrams that it sends.
pub record Remote : Type 0 where
  pub local_id : ℕ
  pub msg_seq : ℕ
  pub interfaces : List Interface
  pub out : List (ℕ × List Attr)  -- ifindex, message

-- `int seen = current_time - sta->seen`.
abbrev pub seen_for : StaInfo → Store → ℤ
seen_for si s = to_i32 (u32 (sub64 s.current_time si.seen))

unfoldable pub usteer_send_sta_info : StaInfo → Store → Attr
usteer_send_sta_info si s =
    let seen = seen_for si s in
    nested 0 (
      of_list (
        binary apmsg_sta_addr (addr_bytes si.self.sta)
        ∷ int8 apmsg_sta_connected (if si.connected == 0 then 0 else 1)
        ∷ int32 apmsg_sta_signal (to_u32 si.signal)
        ∷ int32 apmsg_sta_seen (to_u32 seen)
        ∷ int32 apmsg_sta_timeout (sub32 s.config.local_sta_timeout (to_u32 seen))
        ∷ []))

unfoldable pub rrm_attrs : Option StringArray → List Attr
rrm_attrs none = []
rrm_attrs (some es) = nested apmsg_node_rrm_nr (of_list (array 0 es ∷ [])) ∷ []

unfoldable pub script_attrs : Option Blob → List Attr
script_attrs none = []
script_attrs (some bytes) = binary apmsg_node_script_data bytes ∷ []

-- The entries that are put into the message of a node: the one that is given, or all.
unfoldable pub station_attrs : Node → Option StaInfo → Store → List Attr
station_attrs n sta s = if s.config.remote_disabled then [] else elim sta [
  | some si ↦ usteer_send_sta_info si s ∷ []
  | none ↦ map (λ si. usteer_send_sta_info si s) (of_node n.ptr s.infos)
]

-- `ether_ntoa` is the C library's.
module _ (ether_ntoa : ℕ → String) where
  unfoldable pub node_attrs : Node → Option StaInfo → Store → List Attr
  unfolding rrm_attrs script_attrs station_attrs
  node_attrs n sta s =
      string apmsg_node_name n.name
      ∷ string apmsg_node_ssid n.ssid
      ∷ string apmsg_node_bssid (ether_ntoa n.bssid)
      ∷ int32 apmsg_node_freq (to_u32 n.freq)
      ∷ int32 apmsg_node_noise (to_u32 n.noise)
      ∷ int32 apmsg_node_load (to_u32 n.load)
      ∷ int32 apmsg_node_n_assoc (to_u32 n.n_assoc)
      ∷ int32 apmsg_node_max_assoc (to_u32 n.max_assoc)
      ∷ (rrm_attrs n.rrm_nr
          ++ (script_attrs n.script_data
              ++ nested apmsg_node_stations (of_list (station_attrs n sta s)) ∷ []))

  unfoldable pub usteer_send_node : Node → Option StaInfo → Store → Attr
  usteer_send_node n sta s = nested 0 (of_list (node_attrs n sta s))

  -- `usteer_update_init` and the attributes of the nodes, as `usteer_update_send` ends them.
  unfoldable pub message : Remote → List Attr → List Attr
  message r nodes =
      int32 apmsg_id r.local_id
      ∷ int32 apmsg_seq (u32 (r.msg_seq + 1))
      ∷ nested apmsg_nodes (of_list nodes)
      ∷ []

  -- One datagram for each interface, unless remote messages are disabled.
  interface_send_msg : Config → List Attr → Interface → List (ℕ × List Attr)
  interface_send_msg c data' iface = if c.remote_disabled then [] else (iface.ifindex, data') ∷ []

  send_each : Config → List Attr → List Interface → List (ℕ × List Attr)
  unfolding interface_send_msg
  send_each c data' [] = []
  send_each c data' (i ∷ is) = interface_send_msg c data' i ++ send_each c data' is

  unfoldable pub usteer_update_send : List Attr → Store → Remote → Remote
  unfolding send_each message
  usteer_update_send nodes s r = record r {
    msg_seq = u32 (r.msg_seq + 1);
    out = r.out ++ send_each s.config (message r nodes) r.interfaces;
  }

  unfoldable pub usteer_send_sta_update : StaInfo → Store → Remote → Option Remote
  usteer_send_sta_update si s r = do
    n ← node_at s si.self.node
    some (usteer_update_send (usteer_send_node n (some si) s ∷ []) s r)

  -- Every node's entries, after the clock is read.
  unfoldable pub all_local : Store → List Attr
  all_local s = map (λ (l : LocalNode). usteer_send_node l.node none s) s.local_nodes

unfoldable pub drop_remote : ℕ → List RemoteNode → List RemoteNode
drop_remote p [] = []
drop_remote p (r ∷ rs) = let rest = drop_remote p rs in if r.node.ptr == p then rest else r ∷ rest

-- The node goes from its tree first, and then its entries.
unfoldable pub remote_node_free : ℕ → Store → Store
unfolding drop_remote
remote_node_free p s =
    usteer_sta_node_cleanup p (record s { remote_nodes = drop_remote p s.remote_nodes })

unfoldable pub count_check : ℕ → List RemoteNode → List RemoteNode
count_check p [] = []
count_check p (r ∷ rs) =
    if r.node.ptr == p
    then record r { check = i32 (r.check +ℤ pos 1) } ∷ rs
    else r ∷ count_check p rs

-- `node->check++ > timeout` for each node of the tree.
unfoldable pub check_each : ℤ → List RemoteNode → Store → Store
unfolding count_check
check_each timeout [] s = s
check_each timeout (r ∷ rs) s =
    let s' : Store = record s { remote_nodes = count_check r.node.ptr s.remote_nodes } in
    check_each timeout rs (if ltb_ℤ timeout r.check then remote_node_free r.node.ptr s' else s')

-- The division faults if the interval is 0.
unfoldable pub usteer_check_timeout : Store → Option Store
usteer_check_timeout s =
    if s.config.remote_update_interval == 0
    then none
    else some (
        check_each (to_i32 (s.config.remote_node_timeout / s.config.remote_update_interval))
          s.remote_nodes s)

unfoldable pub usteer_send_update_timer : (ℕ → String) → Store → Remote → Option (Store × Remote)
usteer_send_update_timer ether_ntoa s r =
    let now = usteer_update_time s in
    do
      s' ← usteer_check_timeout now
      some (s', usteer_update_send ether_ntoa (all_local ether_ntoa now) now r)
