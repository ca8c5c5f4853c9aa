-- ===== src/Netifd/Limit.antt =====
-- Which limit the reply of netifd sets.
use usteer.Base.{
  ℕ, ◌≡◌, refl, ◌∙◌, true, false, List, [], ◌∷◌, ◌++◌, Option, none, some, String, if◌then◌else◌,
  str_eq, pos, to_i32, arith,
}
use usteer.State.Node.{LocalNode}
use usteer.Netifd.{
  InterfaceMsg, RadioMsg, val_of, netifd_parse_interface_config, parse_named,
  netifd_parse_interface, parse_interfaces, netifd_parse_radio, parse_radios, netifd_status_cb,
}

-- The configuration of an interface, if it is the node's own.
abbrev pub own_config : String → Option InterfaceMsg → Option (Option ℕ)
own_config iface none = none
own_config iface (some msg) = elim msg.config [
  | none ↦ none
  | some config ↦ elim msg.ifname [
    | none ↦ none
    | some ifname ↦ if str_eq ifname iface then some config else none
  ]
]

-- The interfaces of all radios, in the order of the reply.
abbrev pub interfaces_of : List RadioMsg → List (Option InterfaceMsg)
interfaces_of [] = []
interfaces_of (none ∷ rs) = interfaces_of rs
interfaces_of (some none ∷ rs) = interfaces_of rs
interfaces_of (some (some is) ∷ rs) = is ++ interfaces_of rs

-- The last interface that is the node's own.
abbrev pub last_config : String → List (Option InterfaceMsg) → Option (Option ℕ)
last_config iface [] = none
last_config iface (i ∷ is) =
    let rest = last_config iface is in elim rest [ some c ↦ some c | none ↦ own_config iface i ]

abbrev pub with_config : Option (Option ℕ) → LocalNode → LocalNode
with_config none ln = ln
with_config (some c) ln =
    let n = ln.node in
    record ln {
      node = record n { max_assoc = elim c [ none ↦ pos 0 | some v ↦ to_i32 v ] };
      status_complete = true;
    }

parse_interface-own_config :
    (i : Option InterfaceMsg) (ln : LocalNode)
    → netifd_parse_interface i ln ≡ with_config (own_config ln.iface i) ln
unfolding netifd_parse_interface parse_named netifd_parse_interface_config val_of
parse_interface-own_config none ln = refl
parse_interface-own_config (some msg) ln = ground arith

-- The interface's name stays, and a later setting replaces an earlier one.
with_config-last :
    (a b : Option (Option ℕ)) (ln : LocalNode)
    → with_config b (with_config a ln) ≡ with_config (elim b [ some c ↦ some c | none ↦ a ]) ln
with_config-last a none ln = refl
with_config-last none (some c) ln = refl
with_config-last (some d) (some c) ln = refl

with_config-iface : (a : Option (Option ℕ)) (ln : LocalNode) → (with_config a ln).iface ≡ ln.iface
with_config-iface none ln = refl
with_config-iface (some c) ln = refl

parse_interfaces-last_config :
    (is : List (Option InterfaceMsg)) (ln : LocalNode)
    → parse_interfaces is ln ≡ with_config (last_config ln.iface is) ln
unfolding parse_interfaces
parse_interfaces-last_config [] ln = refl
parse_interfaces-last_config (i ∷ is) ln =
    let ln1 = with_config (own_config ln.iface i) ln in
    rw (parse_interface-own_config i ln) (
      parse_interfaces-last_config is ln1
      ∙ rw (with_config-iface (own_config ln.iface i) ln)
          (with_config-last (own_config ln.iface i) (last_config ln.iface is) ln))

parse_interfaces-append :
    (is js : List (Option InterfaceMsg)) (ln : LocalNode)
    → parse_interfaces js (parse_interfaces is ln) ≡ parse_interfaces (is ++ js) ln
unfolding parse_interfaces
parse_interfaces-append [] js ln = refl
parse_interfaces-append (i ∷ is) js ln = parse_interfaces-append is js (netifd_parse_interface i ln)

parse_radios-interfaces_of :
    (rs : List RadioMsg) (ln : LocalNode)
    → parse_radios rs ln ≡ parse_interfaces (interfaces_of rs) ln
unfolding parse_radios netifd_parse_radio parse_interfaces
parse_radios-interfaces_of [] ln = refl
parse_radios-interfaces_of (none ∷ rs) ln = parse_radios-interfaces_of rs ln
parse_radios-interfaces_of (some none ∷ rs) ln = parse_radios-interfaces_of rs ln
parse_radios-interfaces_of (some (some is) ∷ rs) ln =
    parse_radios-interfaces_of rs (parse_interfaces is ln)
    ∙ parse_interfaces-append is (interfaces_of rs) ln

-- The reply of netifd ends the pending request, and sets the client limit, 0 if it has none, by
-- the last interface of all radios that has the node's name and a configuration; without one,
-- nothing else changes.
pub netifd_status_cb_lem :
    (msg : List RadioMsg) (ln : LocalNode)
    → netifd_status_cb msg ln
      ≡ with_config (last_config ln.iface (interfaces_of msg)) (record ln { req_pending = false })
unfolding netifd_status_cb
netifd_status_cb_lem msg ln =
    parse_radios-interfaces_of msg (record ln { req_pending = false })
    ∙ parse_interfaces-last_config (interfaces_of msg) (record ln { req_pending = false })

parse_interfaces-ptr :
    (is : List (Option InterfaceMsg)) (ln : LocalNode)
    → (parse_interfaces is ln).node.ptr ≡ ln.node.ptr
unfolding parse_interfaces netifd_parse_interface parse_named netifd_parse_interface_config
parse_interfaces-ptr [] ln = refl
parse_interfaces-ptr (none ∷ is) ln = parse_interfaces-ptr is ln
parse_interfaces-ptr (some msg ∷ is) ln =
    parse_interfaces-ptr is (netifd_parse_interface (some msg) ln) ∙ ground arith

parse_radios-ptr :
    (msg : List RadioMsg) (ln : LocalNode) → (parse_radios msg ln).node.ptr ≡ ln.node.ptr
unfolding parse_radios netifd_parse_radio
parse_radios-ptr [] ln = refl
parse_radios-ptr (none ∷ rs) ln = parse_radios-ptr rs ln
parse_radios-ptr (some none ∷ rs) ln = parse_radios-ptr rs ln
parse_radios-ptr (some (some is) ∷ rs) ln =
    parse_radios-ptr rs (parse_interfaces is ln) ∙ parse_interfaces-ptr is ln

-- The reply of netifd moves no node.
pub netifd_status_cb-ptr :
    (msg : List RadioMsg) (ln : LocalNode) → (netifd_status_cb msg ln).node.ptr ≡ ln.node.ptr
unfolding netifd_status_cb
netifd_status_cb-ptr msg ln = parse_radios-ptr msg (record ln { req_pending = false })
