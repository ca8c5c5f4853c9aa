-- ===== src/State/Node.antt =====
-- The nodes (usteer.h, node.h): `struct usteer_node` and the two structs that embed it.
use usteer.Base.{Bool, ℕ, zero, suc, List, [], ◌∷◌, Option, none, some, String, ℤ}

-- The bytes of a `struct blob_attr`.
abbrev pub Blob : Type 0
Blob = List ℕ

-- A `struct blob_attr` that holds an array, read element by element: a string's text, or `none` for
-- an element of another type.
abbrev pub StringArray : Type 0
StringArray = List (Option String)

-- `blobmsg_parse_array` with a table of strings: its entry for an index. It passes over elements of
-- another type.
unfoldable pub parse_array : ℕ → StringArray → Option String
parse_array n [] = none
parse_array n (none ∷ es) = parse_array n es
parse_array zero (some e ∷ es) = some e
parse_array (suc n) (some e ∷ es) = parse_array n es

-- node.c: what `*dest` points to afterwards. The old attribute is freed, or its memory used again.
abbrev pub usteer_node_set_blob : {A : Type 0} → Option A → Option A → Option A
usteer_node_set_blob dest none = none
usteer_node_set_blob dest (some val) = some val

pub data NodeType : Type 0 where
  node_type_local node_type_remote : NodeType

-- `ptr` stands for the address of the struct, by which the code compares nodes. A bssid is the
-- number that its six bytes write. The list `sta_info` is kept by the store.
pub record Node : Type 0 where
  pub ptr : ℕ
  pub name : String  -- avl.key
  pub type : NodeType
  pub rrm_nr : Option StringArray
  pub script_data : Option Blob
  pub ssid : String
  pub bssid : ℕ
  pub freq : ℤ
  pub noise : ℤ
  pub n_assoc : ℤ
  pub max_assoc : ℤ
  pub load : ℤ

pub data LocalReqState : Type 0 where
  req_idle req_clients req_rrm_set_list req_rrm_get_own : LocalReqState

pub record LocalNode : Type 0 where
  pub node : Node
  pub obj_id : ℕ
  pub req_state : LocalReqState
  pub load_thr_count : ℤ
  pub nl80211_present : Bool
  pub req_timer : Option ℕ  -- the delay that the timer is set to, while it is
  pub update : Option ℕ
  pub iface : String
  pub req_pending : Bool  -- netifd.req_pending, netifd.status_complete
  pub status_complete : Bool

pub record RemoteNode : Type 0 where
  pub node : Node
  pub id : ℕ  -- avl.key
  pub name : String
  pub iface : String  -- the interface's name
  pub check : ℤ
