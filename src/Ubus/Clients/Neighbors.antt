-- ===== src/Ubus/Clients/Neighbors.antt =====
-- The neighbours that a request to leave suggests.
use usteer.Base.{
  ℕ, zero, suc, ◌≢◌, List, [], ◌∷◌, ◌++◌, none, All, Bool-cases, Option-cases, inl, inr, arith, ltb,
  length,
}
use usteer.State.Node.{Node}
use usteer.State.Station.{StaInfo, BeaconReport}
use usteer.State.Store.{Store, node_at}
use usteer.HearingMap.Nodes.{get_usteer_node_from_bssid}
use usteer.Ubus.Clients.{
  weakest, set_at, replace_weakest, filter_reports, report_entries, neighbors,
  usteer_ubus_notify_client_disassoc,
}

-- The report's node is there.
abbrev IsKnown : Store → BeaconReport → Type 0
IsKnown s br = get_usteer_node_from_bssid s br.bssid ≢ none

abbrev AllKnown : Store → List BeaconReport → Type 0
AllKnown s = All (IsKnown s)

set_at-AllKnown :
    (s : Store) (i : ℕ) (br : BeaconReport) (xs : List BeaconReport)
    → IsKnown s br
    → AllKnown s xs
    → AllKnown s (set_at i br xs)
unfolding set_at
set_at-AllKnown s i br [] k h = tt
set_at-AllKnown s zero br (x ∷ xs) k h = (k, h.1)
set_at-AllKnown s (suc i) br (x ∷ xs) k h = (h.0, set_at-AllKnown s i br xs k h.1)

replace_weakest-AllKnown :
    (s : Store) (br : BeaconReport) (xs : List BeaconReport)
    → IsKnown s br
    → AllKnown s xs
    → AllKnown s (replace_weakest br xs)
unfolding replace_weakest
replace_weakest-AllKnown s br [] k h = tt
replace_weakest-AllKnown s br (x ∷ xs) k h =
    let (index, lowest) = weakest 1 0 x.rcpi xs in
    elim (Bool-cases (ltb lowest br.rsni)) [
      | inl e ↦ rw e (set_at-AllKnown s index br (x ∷ xs) k h)
      | inr e ↦ rw e h
    ]

append-AllKnown :
    (s : Store) (br : BeaconReport) (xs : List BeaconReport)
    → IsKnown s br
    → AllKnown s xs
    → AllKnown s (xs ++ br ∷ [])
append-AllKnown s br [] k h = (k, tt)
append-AllKnown s br (x ∷ xs) k h = (h.0, append-AllKnown s br xs k h.1)

filter_reports-AllKnown :
    (s : Store) (acc brs : List BeaconReport)
    → AllKnown s acc
    → AllKnown s (filter_reports s acc brs)
unfolding filter_reports
filter_reports-AllKnown s acc [] h = h
filter_reports-AllKnown s acc (br ∷ brs) h =
    elim (Option-cases (get_usteer_node_from_bssid s br.bssid)) [
      | inl e ↦ rw e (filter_reports-AllKnown s acc brs h)
      | inr (n, e) ↦
          let k : IsKnown s br = λ q. ground arith in
          elim (Bool-cases (ltb (length acc) 3)) [
            | inl room ↦
                rw (e, room)
                  (filter_reports-AllKnown s (acc ++ br ∷ []) brs (append-AllKnown s br acc k h))
            | inr full ↦
                rw (e, full)
                  (filter_reports-AllKnown s (replace_weakest br acc) brs
                    (replace_weakest-AllKnown s br acc k h))
          ]
    ]

report_entries_total :
    (s : Store) (ln : Node) (brs : List BeaconReport)
    → AllKnown s brs
    → report_entries s ln brs ≢ none
unfolding report_entries
report_entries_total s ln [] h e = ground arith
report_entries_total s ln (br ∷ brs) h e =
    elim (Option-cases (get_usteer_node_from_bssid s br.bssid)) [
      | inl q ↦ absurd (h.0 q)
      | inr (n, q) ↦ ground (arith, report_entries_total s ln brs h.1)
    ]

neighbors_total : (s : Store) (ln : Node) (brs : List BeaconReport) → neighbors s ln brs ≢ none
unfolding neighbors
neighbors_total s ln brs e = ground (
  arith,
  report_entries_total s ln (filter_reports s [] brs) (filter_reports-AllKnown s [] brs tt),
)

-- Where the client's node is there, a request to leave returns, whatever reports the client has.
pub usteer_ubus_notify_client_disassoc_total :
    (s : Store) (si : StaInfo)
    → node_at s si.self.node ≢ none
    → usteer_ubus_notify_client_disassoc si s ≢ none
unfolding usteer_ubus_notify_client_disassoc
usteer_ubus_notify_client_disassoc_total s si h e = elim (Option-cases (node_at s si.self.node)) [
  | inl q ↦ h q
  | inr (n, q) ↦ ground (arith, neighbors_total s n si.beacon_reports)
]
