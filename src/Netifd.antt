-- ===== src/Netifd.antt =====
-- netifd.c: how many clients a node may have, which is asked of netifd.
pub mod Limit
use usteer.Base.{
  ℕ, Bool, true, false, List, [], ◌∷◌, Option, none, some, String, if◌then◌else◌, str_eq, ℤ, pos,
  to_i32,
}
use usteer.State.Node.{Node, LocalNode}
use usteer.State.Store.{Store, status, abort_status, local_at, send}
use usteer.LocalNode.State.{update_local_node}

-- What `blobmsg_parse` finds in an interface: "config", with its "maxassoc", and "ifname".
pub record InterfaceMsg : Type 0 where
  pub config : Option (Option ℕ)
  pub ifname : Option String

-- A radio or an interface is `none` where it is no table.
abbrev pub RadioMsg : Type 0
RadioMsg = Option (Option (List (Option InterfaceMsg)))

val_of : Option ℕ → ℤ
val_of none = pos 0
val_of (some v) = to_i32 v

unfoldable pub netifd_parse_interface_config : Option ℕ → LocalNode → LocalNode
unfolding val_of
netifd_parse_interface_config cur ln =
    let n = ln.node in
    record ln { node = record n { max_assoc = val_of cur }; status_complete = true }

parse_named : Option (Option ℕ) → Option String → LocalNode → LocalNode
parse_named (some config) (some ifname) ln =
    if str_eq ifname ln.iface then netifd_parse_interface_config config ln else ln
parse_named _ _ ln = ln

unfoldable pub netifd_parse_interface : Option InterfaceMsg → LocalNode → LocalNode
unfolding parse_named
netifd_parse_interface none ln = ln
netifd_parse_interface (some msg) ln = parse_named msg.config msg.ifname ln

parse_interfaces : List (Option InterfaceMsg) → LocalNode → LocalNode
parse_interfaces [] ln = ln
parse_interfaces (i ∷ is) ln = parse_interfaces is (netifd_parse_interface i ln)

unfoldable pub netifd_parse_radio : RadioMsg → LocalNode → LocalNode
unfolding parse_interfaces
netifd_parse_radio none ln = ln
netifd_parse_radio (some none) ln = ln
netifd_parse_radio (some (some is)) ln = parse_interfaces is ln

parse_radios : List RadioMsg → LocalNode → LocalNode
parse_radios [] ln = ln
parse_radios (r ∷ rs) ln = parse_radios rs (netifd_parse_radio r ln)

unfoldable pub netifd_status_cb : List RadioMsg → LocalNode → LocalNode
unfolding parse_radios
netifd_status_cb msg ln = parse_radios msg (record ln { req_pending = false })

-- `wireless` is what `ubus_lookup_id` finds for "network.wireless".
unfoldable pub netifd_update_node : Option ℕ → LocalNode → Store → Store
netifd_update_node wireless ln s =
    if ln.status_complete
    then s
    else let s1 = if ln.req_pending then send abort_status s else s in
      elim wireless [
        | none ↦ s1
        | some id ↦
            update_local_node ln.node.ptr (λ l. record l { req_pending = true })
              (send (status id) s1)
      ]

unfoldable pub netifd_init_node : Option ℕ → LocalNode → Store → Store
netifd_init_node wireless ln s =
    let ln' : LocalNode = record ln { status_complete = false } in
    netifd_update_node wireless ln'
      (update_local_node ln.node.ptr (λ l. record l { status_complete = false }) s)

unfoldable pub netifd_free_node : LocalNode → Store → Store
netifd_free_node ln s = if ln.req_pending then send abort_status s else s
