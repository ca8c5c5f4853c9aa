-- ===== src/Ubus/Clients.antt =====
-- ubus.c: the three requests about a client.
pub mod Effects
pub mod Timeouts
pub mod Neighbors
pub mod Kept
use mathlib.Core.Option
use usteer.Base.{
  String, ℕ, suc, Bool, not, List, [], ◌∷◌, ◌++◌, Option, none, some, ◌>>=◌, if◌then◌else◌, ltb,
  length, str_eq,
}
use usteer.State.Node.{Node, parse_array}
use usteer.State.Station.{StaInfo, BeaconReport}
use usteer.State.Store.{
  Store, Request, rrm_beacon_req, wnm_disassoc_imminent, del_client, all_nodes, node_at, put_info,
  send,
}
use usteer.HearingMap.Nodes.{get_usteer_node_from_bssid}

-- Each returns the entry as it leaves it.
unfoldable pub usteer_ubus_kick_client : StaInfo → Store → StaInfo × Store
usteer_ubus_kick_client si s =
    let si' = record si { connected = 0; roam_kick = s.current_time } in
    (si', put_info si' (send (del_client si.self s.config.load_kick_reason_code) s))

unfoldable pub usteer_ubus_trigger_client_scan : StaInfo → Store → StaInfo × Store
usteer_ubus_trigger_client_scan si s =
    let si' = record si { scan_band = not si.scan_band } in
    (si', put_info si' (send (rrm_beacon_req si.self si'.scan_band) s))

-- What is added to the array of neighbours.
usteer_add_nr_entry : Node → Node → List String
usteer_add_nr_entry ln n = elim n.rrm_nr [
  | none ↦ []
  | some nr ↦
      if not (str_eq ln.ssid n.ssid)
      then []
      else elim (parse_array 2 nr) [ none ↦ [] | some t ↦ t ∷ [] ]
]

-- The index and the rcpi of the weakest of the reports, from `j` on.
weakest : ℕ → ℕ → ℕ → List BeaconReport → ℕ × ℕ
weakest j index lowest [] = (index, lowest)
weakest j index lowest (br ∷ brs) =
    let here = ltb br.rcpi lowest in
    weakest (suc j) (if here then j else index) (if here then br.rcpi else lowest) brs

set_at : ℕ → BeaconReport → List BeaconReport → List BeaconReport
set_at i br [] = []
set_at ℕ.zero br (x ∷ xs) = br ∷ xs
set_at (suc i) br (x ∷ xs) = x ∷ set_at i br xs

replace_weakest : BeaconReport → List BeaconReport → List BeaconReport
unfolding weakest set_at
replace_weakest br [] = []
replace_weakest br (x ∷ xs) =
    let (index, lowest) = weakest 1 0 x.rcpi xs in
    if ltb lowest br.rsni then set_at index br (x ∷ xs) else x ∷ xs

-- The array `filtered_local` after the loop over the reports.
unfoldable pub filter_reports : Store → List BeaconReport → List BeaconReport → List BeaconReport
unfolding replace_weakest
filter_reports s acc [] = acc
filter_reports s acc (br ∷ brs) =
    filter_reports s
      (elim (get_usteer_node_from_bssid s br.bssid) [
        | none ↦ acc
        | some _ ↦ if ltb (length acc) 3 then acc ++ br ∷ [] else replace_weakest br acc
      ])
      brs

report_entries : Store → Node → List BeaconReport → Option (List String)
unfolding usteer_add_nr_entry
report_entries s ln [] = some []
report_entries s ln (br ∷ brs) = do
  n ← get_usteer_node_from_bssid s br.bssid
  rest ← report_entries s ln brs
  some (usteer_add_nr_entry ln n ++ rest)

node_entries : Node → List Node → List String
unfolding usteer_add_nr_entry
node_entries ln [] = []
node_entries ln (n ∷ ns) = usteer_add_nr_entry ln n ++ node_entries ln ns

-- The neighbours that a request to leave suggests.
unfoldable pub neighbors : Store → Node → List BeaconReport → Option (List String)
unfolding report_entries node_entries
neighbors s ln reports = elim (filter_reports s [] reports) [
  | [] ↦ some (node_entries ln (all_nodes s))
  | br ∷ brs ↦ report_entries s ln (br ∷ brs)
]

unfoldable pub usteer_ubus_notify_client_disassoc : StaInfo → Store → Option Store
usteer_ubus_notify_client_disassoc si s = do
  ln ← node_at s si.self.node
  list ← neighbors s ln si.beacon_reports
  some (send (wnm_disassoc_imminent si.self s.config.roam_kick_delay list) s)
