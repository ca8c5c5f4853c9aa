-- ===== src/LocalNode/Register.antt =====
-- local_node.c: a hostapd object comes, and its node with it; of nl80211.c how a node starts.
pub mod Sound
use usteer.Base.{
  ℕ, zero, suc, Bool, true, false, not, List, [], ◌∷◌, Option, none, some, String, if◌then◌else◌,
  str_eq, truncate, ℤ, pos,
}
use usteer.Base.Avl.{AvlTree, AvlLookup}
use usteer.State.Node.{Node, node_type_local, LocalNode, req_idle}
use usteer.State.Store.{Store, notify_response, bss_mgmt_enable, subscribe, local_at, send}
use usteer.LocalNode.State.{update_local_node}
use usteer.Netifd.{netifd_init_node}

-- A text from its n-th byte on.
abbrev pub from_byte : ℕ → String → String
from_byte zero s = s
from_byte (suc n) String.[] = ""
from_byte (suc n) (String.◌∷◌ c s) = from_byte n s

-- The node as `calloc_a` leaves it, with its name, its type and its timer set.
abbrev pub fresh_local : ℕ → String → LocalNode
fresh_local ptr name = record {
  node = record {
    ptr = ptr;
    name = name;
    type = node_type_local;
    rrm_nr = none;
    script_data = none;
    ssid = "";
    bssid = 0;
    freq = pos 0;
    noise = pos 0;
    n_assoc = pos 0;
    max_assoc = pos 0;
    load = pos 0;
  };
  obj_id = 0;
  req_state = req_idle;
  load_thr_count = pos 0;
  nl80211_present = false;
  req_timer = none;
  update = some 1;
  iface = "";
  req_pending = false;
  status_complete = false;
}

-- The kernel's answer about an interface that is there and has a wiphy, and the SSID in it.
unfoldable pub nl80211_init_node : Option (Option String) → LocalNode → LocalNode
nl80211_init_node none ln = record ln { nl80211_present = false }
nl80211_init_node (some none) ln = record ln { nl80211_present = true }
nl80211_init_node (some (some ssid)) ln =
    let n = ln.node in
    record ln { nl80211_present = true; node = record n { ssid = truncate 32 ssid } }

-- `strcmp` is the C library's, and `calloc` gives the address of the new node.
module _ (avl : AvlTree) (lookup : AvlLookup) (calloc : Store → ℕ)
    (strcmp : String → String → ℤ) where
  unfoldable pub usteer_get_node : String → Store → LocalNode × Store
  usteer_get_node name s =
      elim (lookup.avl_find (λ (l : LocalNode). strcmp name l.node.name) s.local_nodes) [
        | ln ∷ _ ↦ (ln, s)
        | [] ↦
            let fresh = fresh_local (calloc s) name in
            (
              fresh,
              record s {
                local_nodes =
                    avl.avl_insert (λ (a b : LocalNode). strcmp a.node.name b.node.name) fresh
                      s.local_nodes;
              },
            )
      ]

  -- The part after `usteer_get_node`. The handlers write fields apart, so their order is not told; the
  -- script that `usteer_node_run_update_script` runs is not modelled.
  connect_node : Option (Option String) → Option ℕ → LocalNode → ℕ → Store → Store
  connect_node interface wireless ln id s =
      let ln' : LocalNode =
        nl80211_init_node interface (record ln { obj_id = id; iface = from_byte 8 ln.node.name }) in
      netifd_init_node wireless ln' (
        send (subscribe id) (
          send (bss_mgmt_enable id)
            (send (notify_response id) (update_local_node ln.node.ptr (λ _. ln') s))))

  -- A path is a node's if it starts with "hostapd.".
  unfoldable pub usteer_register_node :
      Option (Option String) → Option ℕ → String → ℕ → Store → Store
  unfolding connect_node
  usteer_register_node interface wireless name id s =
      if not (str_eq (truncate 8 name) "hostapd.")
      then s
      else let (ln, s1) = usteer_get_node name s in connect_node interface wireless ln id s1

  -- "ubus.object.add", with its "id" and "path".
  unfoldable pub usteer_event_handler :
      Option (Option String) → Option ℕ → Option ℕ → Option String → Store → Store
  usteer_event_handler interface wireless none path s = s
  usteer_event_handler interface wireless (some id) none s = s
  usteer_event_handler interface wireless (some id) (some path) s =
      usteer_register_node interface wireless path id s
