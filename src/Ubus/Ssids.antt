-- ===== src/Ubus/Ssids.antt =====
-- ubus.c: the list of the SSIDs that the daemon is for.
pub mod Valid
use usteer.Base.{
  Bool, true, false, List, [], ◌∷◌, Option, none, some, String, if◌then◌else◌, str_eq, truncate,
  strlen, ltb, ◌>>=◌,
}
use usteer.State.Store.{Store}

-- `strncmp` of as many bytes as a `struct usteer_ssid` has.
abbrev pub same_name : String → String → Bool
same_name a b = str_eq (truncate 33 a) (truncate 33 b)

-- The loop, with `valid` as it stands.
valid_from : Bool → String → List String → Bool
valid_from valid ssid [] = valid
valid_from valid ssid (u ∷ us) =
    let rest = valid_from false ssid us in if same_name u ssid then true else rest

unfoldable pub usteer_is_valid_ssid : Store → String → Bool
unfolding valid_from
usteer_is_valid_ssid s ssid = elim s.ssid_list [ none ↦ true | some us ↦ valid_from true ssid us ]

-- Each name goes in at the head.
add_each : List String → List String → List String
add_each [] us = us
add_each (x ∷ xs) us = add_each xs (truncate 33 x ∷ us)

-- `blobmsg_check_attr_list` finds the attribute to be a list of texts, which it then is. The old list
-- is freed first. The search for nodes that follows, `usteer_local_nodes_init`, asks ubus.
unfoldable pub config_set_ssid : Option (List String) → Store → Store
unfolding add_each
config_set_ssid none s = s
config_set_ssid (some names) s = record s { ssid_list = some (add_each names []) }

-- `blobmsg_add_string` reads a name to its end, which one that fills its 33 bytes does not have.
names_of : List String → Option (List String)
names_of [] = some []
names_of (u ∷ us) = do rest ← names_of us; if ltb (strlen u) 33 then some (u ∷ rest) else none

-- The loop over a list that was never made follows a null pointer.
unfoldable pub config_get_ssid : Store → Option (List String)
unfolding names_of
config_get_ssid s = elim s.ssid_list [ none ↦ none | some us ↦ names_of us ]
