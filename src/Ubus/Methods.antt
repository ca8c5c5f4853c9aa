-- ===== src/Ubus/Methods.antt =====
-- ubus.c, hearing_map.c: the replies of the methods that describe nodes and clients.
pub mod Clients
use usteer.Base.{
  ℕ, Bool, true, false, not, ◌&&◌, List, [], ◌∷◌, Option, none, some, String, ◌>>=◌, ◌==◌,
  if◌then◌else◌, ℤ, to_u32,
}
use usteer.Base.Avl.{AvlTree}
use usteer.State.Config.{Config}
use usteer.State.Node.{
  Node, NodeType, node_type_local, node_type_remote, LocalNode, RemoteNode, StringArray,
}
use usteer.State.Station.{
  EventType, probe, assoc, auth, beacon, StaInfo, StaInfoStats, BeaconReport, Sta, stats_of,
}
use usteer.State.Store.{Store, node_at, of_sta}
use usteer.HearingMap.Nodes.{get_usteer_node_from_bssid}
use usteer.HearingMap.Reports.{report_ttl}
use usteer.Sta.Info.{usteer_sta_get}
use usteer.Policy.Roam.{usteer_get_client_active_bits}
use usteer.Ubus.Settings.{of_bool}

-- What a `struct blob_buf` holds: fields in their order, each a number of some width, a text, an array
-- or a table of fields.
mutual
  pub data Value : Type 0 where
    as_u8 as_u16 as_u32 as_u64 : ℕ → Value
    as_text : String → Value
    as_array : StringArray → Value
    as_table : Fields → Value

  pub data Fields : Type 0 where
    done : Fields
    field : String → Value → Fields → Fields

-- Fields after fields that are there.
pub then_fields : Fields → Fields → Fields
then_fields done gs = gs
then_fields (field k v fs) gs = field k v (then_fields fs gs)

abbrev pub both : ℕ → ℤ → Fields → Fields
both connected signal rest =
    field "connected" (as_u8 connected) (field "signal" (as_u32 (to_u32 signal)) rest)

-- `event_types`, with the event of each.
abbrev name_of : EventType → String
name_of probe = "probe"
name_of assoc = "assoc"
name_of auth = "auth"
name_of beacon = "beacon-report"

unfoldable pub usteer_ubus_add_stats : StaInfoStats → String → Fields → Fields
usteer_ubus_add_stats st name rest =
    field name
      (as_table (
        field "requests" (as_u32 st.requests) (
          field "blocked_cur" (as_u32 st.blocked_cur)
            (field "blocked_total" (as_u32 st.blocked_total) done))))
      rest

-- The loop over the event types: it reads the counts of probes for each of them.
unfoldable pub stats_fields : StaInfo → Fields
stats_fields si = usteer_ubus_add_stats (stats_of probe si.stats) (name_of probe) (
    usteer_ubus_add_stats (stats_of probe si.stats) (name_of assoc) (
      usteer_ubus_add_stats (stats_of probe si.stats) (name_of auth)
        (usteer_ubus_add_stats (stats_of probe si.stats) (name_of beacon) done)))

abbrev pub info_fields : Sta → Fields → Fields
info_fields t nodes =
    field "2ghz" (as_u8 (of_bool t.seen_2ghz))
      (field "5ghz" (as_u8 (of_bool t.seen_5ghz)) (field "nodes" (as_table nodes) done))

pub data InfoReply : Type 0 where
  invalid_argument not_found : InfoReply
  reply : Fields → InfoReply

-- `mac_text` prints an address, with MAC_ADDR_FMT or as `ether_ntoa` does.
module _ (mac_text : ℕ → String) where
  -- The entries of a station; a node that dangles is a fault.
  unfoldable pub client_nodes : Store → List StaInfo → Option Fields
  client_nodes s [] = some done
  client_nodes s (si ∷ sis) = do
    n ← node_at s si.self.node
    rest ← client_nodes s sis
    some (field n.name (as_table (both si.connected si.signal done)) rest)

  unfoldable pub clients_of : Store → List Sta → Option Fields
  unfolding client_nodes
  clients_of s [] = some done
  clients_of s (t ∷ ts) = do
    nodes ← client_nodes s (of_sta t.addr s.infos)
    rest ← clients_of s ts
    some (field (mac_text t.addr) (as_table nodes) rest)

  unfoldable pub usteer_ubus_get_clients : Store → Option Fields
  unfolding clients_of
  usteer_ubus_get_clients s = clients_of s s.stations

  -- One report's table.
  unfoldable pub report_fields : Store → BeaconReport → Fields
  report_fields s br =
      let rest = field "rcpi" (as_u16 br.rcpi) (
        field "rsni" (as_u16 br.rsni) (
          field "op_class" (as_u16 br.op_class) (
            field "channel" (as_u16 br.channel)
              (field "time-to-live" (as_u64 (report_ttl s.config s.current_time br)) done)))) in
      elim (get_usteer_node_from_bssid s br.bssid) [
        | none ↦ rest
        | some n ↦ field "node" (as_text n.name) rest
      ]

  reports_fields : Store → List BeaconReport → Fields
  unfolding report_fields
  reports_fields s [] = done
  reports_fields s (br ∷ brs) =
      field (mac_text br.bssid) (as_table (report_fields s br)) (reports_fields s brs)

  unfoldable pub usteer_ubus_hearing_map : Store → StaInfo → Fields
  unfolding reports_fields
  usteer_ubus_hearing_map s si =
      field "hearing_map" (as_table (reports_fields s si.beacon_reports)) done

  abbrev pub is_local : NodeType → Bool
  is_local node_type_local = true
  is_local node_type_remote = false

  -- The last two fields of a client's node.
  unfoldable pub more_of : Store → Node → StaInfo → Option Fields
  unfolding usteer_ubus_hearing_map
  more_of s n si =
      if is_local n.type && not (si.connected == 0)
      then (do
        rate ← usteer_get_client_active_bits s.config si
        some (field "average_data_rate" (as_u64 rate) (usteer_ubus_hearing_map s si)))
      else some done

  unfoldable pub info_nodes : Store → List StaInfo → Option Fields
  unfolding more_of
  info_nodes s [] = some done
  info_nodes s (si ∷ sis) = do
    n ← node_at s si.self.node
    more ← more_of s n si
    rest ← info_nodes s sis
    some (
        field n.name
          (as_table (both si.connected si.signal (field "stats" (as_table (stats_fields si)) more)))
          rest)

  -- `address` is what `blobmsg_parse` finds, and `ether_aton` the C library's.
  module _ (avl : AvlTree) (ether_aton : String → Option ℕ) where
    unfoldable pub usteer_ubus_get_client_info : Option String → Store → Option InfoReply
    unfolding info_nodes
    usteer_ubus_get_client_info none s = some invalid_argument
    usteer_ubus_get_client_info (some address) s = elim (ether_aton address) [
      | none ↦ some invalid_argument
      | some mac ↦ elim (usteer_sta_get avl mac false s).0 [
        | none ↦ some not_found
        | some sta ↦ do
          nodes ← info_nodes s (of_sta sta.addr s.infos)
          some (reply (info_fields sta nodes))
      ]
    ]

unfoldable pub usteer_dump_node_info : Node → Fields → Fields
usteer_dump_node_info n rest =
    let rrm : Fields = elim n.rrm_nr [
      | none ↦ done
      | some nr ↦ field "rrm_nr" (as_array nr) done
    ] in
    field n.name
      (as_table (
        field "freq" (as_u32 (to_u32 n.freq)) (
          field "n_assoc" (as_u32 (to_u32 n.n_assoc)) (
            field "noise" (as_u32 (to_u32 n.noise)) (
              field "load" (as_u32 (to_u32 n.load))
                (field "max_assoc" (as_u32 (to_u32 n.max_assoc)) rrm))))))
      rest

dump_local : List LocalNode → Fields
unfolding usteer_dump_node_info
dump_local [] = done
dump_local (l ∷ ls) = usteer_dump_node_info l.node (dump_local ls)

dump_remote : List RemoteNode → Fields
unfolding usteer_dump_node_info
dump_remote [] = done
dump_remote (r ∷ rs) = usteer_dump_node_info r.node (dump_remote rs)

unfoldable pub usteer_ubus_local_info : Store → Fields
unfolding dump_local
usteer_ubus_local_info s = dump_local s.local_nodes

unfoldable pub usteer_ubus_remote_info : Store → Fields
unfolding dump_remote
usteer_ubus_remote_info s = dump_remote s.remote_nodes
