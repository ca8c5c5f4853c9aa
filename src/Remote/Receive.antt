-- ===== src/Remote/Receive.antt =====
-- remote.c: what a message of another daemon does.
pub mod Sound
use usteer.Base.{
  ℕ, ◌^◌, ◌-◌, true, not, List, [], ◌∷◌, Option, none, some, String, ◌>>=◌, ◌==◌, find?,
  if◌then◌else◌, str_eq, strcat, truncate, ℤ, pos, negsuc, leb_ℤ, to_i32, u32, sub64,
}
use usteer.Base.Avl.{AvlTree, AvlLookup}
use usteer.State.Node.{Node, node_type_remote, RemoteNode, usteer_node_set_blob}
use usteer.State.Station.{StaInfo}
use usteer.State.Store.{Store, put_info}
use usteer.Sta.Info.{usteer_sta_get, usteer_sta_info_get, usteer_sta_info_update_timeout}
use usteer.Ubus.Ssids.{usteer_is_valid_ssid}
use usteer.Remote.Blob.{Attr, inside, BlobParse}
use usteer.Remote.Message.{ApmsgNode, ApmsgSta, parse_apmsg, parse_apmsg_node, parse_apmsg_sta}
use usteer.Remote.Send.{Interface}

-- `v2 - v1` of two `unsigned long`, as an int.
unfoldable pub remote_node_cmp : ℕ → ℕ → ℤ
remote_node_cmp v1 v2 = to_i32 (u32 (sub64 v2 v1))

-- The uint64_t that an int becomes beside one.
abbrev pub to_u64 : ℤ → ℕ
to_u64 (pos n) = n
to_u64 (negsuc n) = 2 ^ 64 - 1 - n

-- What the message says of the station.
unfoldable pub stored_info : ApmsgSta → ℕ → StaInfo → StaInfo
stored_info msg now si = record si {
  connected = if msg.connected then 1 else 0;
  signal = msg.signal;
  seen = sub64 now (to_u64 msg.seen);
}

module _ (avl : AvlTree) where
  unfoldable pub add_parsed_station : Node → ApmsgSta → Store → Option Store
  add_parsed_station n msg s = if leb_ℤ msg.timeout (pos 0) then some s else do
    let (_, s1) = usteer_sta_get avl msg.addr true s
    let (found, s2) = usteer_sta_info_get msg.addr n true s1
    (si, _) ← found
    let si' = stored_info msg s2.current_time si
    some (usteer_sta_info_update_timeout avl si' msg.timeout (put_info si' s2))

-- The node as `calloc_a` leaves it, with its name.
abbrev pub fresh_remote : ℕ → String → ℕ → String → RemoteNode
fresh_remote ptr addr id name = record {
  node = record {
    ptr = ptr;
    name = strcat addr (strcat "#" name);
    type = node_type_remote;
    rrm_nr = none;
    script_data = none;
    ssid = "";
    bssid = 0;
    freq = pos 0;
    noise = pos 0;
    n_assoc = pos 0;
    max_assoc = pos 0;
    load = pos 0;
  };
  id = id;
  name = name;
  iface = "";
  check = pos 0;
}

-- The walk from the node that was found, while the id is the same.
pub named : ℕ → String → List RemoteNode → Option RemoteNode
named id name [] = none
named id name (r ∷ rs) =
    let rest = named id name rs in
    if not (r.id == id) then none else if str_eq r.name name then some r else rest

pub update_at : ℕ → (RemoteNode → RemoteNode) → List RemoteNode → List RemoteNode
update_at p f [] = []
update_at p f (r ∷ rs) = if r.node.ptr == p then f r ∷ rs else r ∷ update_at p f rs

-- The fields of the message but the bssid; `snprintf` cuts the SSID to 32 bytes.
abbrev pub take_over : String → ApmsgNode → RemoteNode → RemoteNode
take_over iface msg r =
    let n = r.node in
    record r {
      check = pos 0;
      iface = iface;
      node = record n {
        freq = msg.freq;
        n_assoc = msg.n_assoc;
        max_assoc = msg.max_assoc;
        noise = msg.noise;
        load = msg.load;
        ssid = truncate 32 msg.ssid;
        rrm_nr = usteer_node_set_blob n.rrm_nr msg.rrm_nr;
        script_data = usteer_node_set_blob n.script_data msg.script_data;
      };
    }

abbrev pub with_bssid : ℕ → RemoteNode → RemoteNode
with_bssid b r = let n = r.node in record r { node = record n { bssid = b } }

-- What `recvmsg` reads: the sender's scope and address, and the message.
pub record Datagram : Type 0 where
  pub scope_id : ℕ
  pub addr : String
  pub pad_len : ℕ
  pub len : ℕ
  pub contents : List Attr

unfoldable pub interface_find_by_ifindex : ℕ → List Interface → Option Interface
interface_find_by_ifindex index = find? (λ i. i.ifindex == index)

-- `calloc` gives the address of the new node; `ether_aton` and `inet_ntop` are the C library's.
module _ (avl : AvlTree) (lookup : AvlLookup) (calloc : Store → ℕ) where
  unfoldable pub interface_get_node : String → ℕ → String → Store → RemoteNode × Store
  unfolding named remote_node_cmp
  interface_get_node addr id name s =
      elim (named id name
        (lookup.avl_find (λ (r : RemoteNode). remote_node_cmp id r.id) s.remote_nodes)) [
          | some r ↦ (r, s)
          | none ↦
              let fresh = fresh_remote (calloc s) addr id name in
              (
                fresh,
                record s {
                  remote_nodes =
                      avl.avl_insert (λ (a b : RemoteNode). remote_node_cmp a.id b.id) fresh
                        s.remote_nodes;
                },
              )
        ]

  module _ (blob : BlobParse) (ether_aton : String → Option ℕ) where
    unfoldable pub interface_add_station : Node → Attr → Store → Option Store
    interface_add_station n data' s = do
      parsed ← parse_apmsg_sta blob (inside blob data')
      elim parsed [ none ↦ some s | some msg ↦ add_parsed_station avl n msg s ]

    unfoldable pub add_stations : Node → List Attr → Store → Option Store
    add_stations n [] s = some s
    add_stations n (a ∷ l) s = do s' ← interface_add_station n a s; add_stations n l s'

    -- After `parse_apmsg_node`. Where the bssid is missing or no address, the copy of it is a fault.
    unfoldable pub add_parsed_node : String → String → ℕ → ApmsgNode → Store → Option Store
    unfolding update_at
    add_parsed_node iface addr id msg s =
        if not (usteer_is_valid_ssid s msg.ssid) then some s else do
          let (r, s1) = interface_get_node addr id msg.name s
          text ← msg.bssid
          bssid ← ether_aton text
          let r' = with_bssid bssid (take_over iface msg r)
          add_stations r'.node msg.stations
              (record s1 { remote_nodes = update_at r.node.ptr (λ _. r') s1.remote_nodes })

    unfoldable pub interface_add_node : String → String → ℕ → Attr → Store → Option Store
    interface_add_node iface addr id data' s = do
      parsed ← parse_apmsg_node blob (inside blob data')
      elim parsed [ none ↦ some s | some msg ↦ add_parsed_node iface addr id msg s ]

    unfoldable pub add_nodes : String → String → ℕ → List Attr → Store → Option Store
    add_nodes iface addr id [] s = some s
    add_nodes iface addr id (a ∷ l) s = do
      s' ← interface_add_node iface addr id a s
      add_nodes iface addr id l s'

    -- `len` is the length that was received, and `pad_len` that of the header.
    unfoldable pub interface_recv_msg :
        ℕ → String → String → ℕ → ℕ → List Attr → Store → Option Store
    interface_recv_msg local_id iface addr pad_len len data' s =
        if not (pad_len == len) then some s else do
          parsed ← parse_apmsg blob data'
          elim parsed [
            | none ↦ some s
            | some msg ↦
                if msg.id == local_id then some s else add_nodes iface addr msg.id msg.nodes s
          ]

    -- The datagrams that are there when the socket is readable; each has an interface's index.
    unfoldable pub interface_recv : ℕ → List Interface → List Datagram → Store → Option Store
    unfolding interface_find_by_ifindex
    interface_recv local_id ifaces [] s = some s
    interface_recv local_id ifaces (d ∷ ds) s =
        if s.config.remote_disabled
        then some s
        else elim (interface_find_by_ifindex d.scope_id ifaces) [
          | none ↦ interface_recv local_id ifaces ds s
          | some iface ↦ do
            s' ← interface_recv_msg local_id iface.name d.addr d.pad_len d.len d.contents s
            interface_recv local_id ifaces ds s'
        ]
