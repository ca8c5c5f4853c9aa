-- ===== src/HearingMap/Reports.antt =====
-- hearing_map.c: the beacon reports of a station, from the event that brings one to its deletion.
pub mod Kept
pub mod Sound
use usteer.Base.{
  ℕ, ◌*◌, Bool, true, false, not, List, [], ◌∷◌, Option, none, some, String, ◌>>=◌, if◌then◌else◌,
  ◌==◌, ltb, filter, u32, u64, sub64, ◌-◌, ◌/◌,
}
use usteer.State.Config.{Config}
use usteer.State.Node.{Node}
use usteer.State.Station.{StaInfo, BeaconReport}
use usteer.State.Store.{Store, find_info, put_info}
use usteer.HearingMap.Nodes.{get_usteer_node_from_bssid}
use usteer.Base.Avl.{AvlTree}
use usteer.Sta.Info.{usteer_sta_get, usteer_sta_info_get}

-- Whether the report is freed; `bssid` is not null.
unfoldable pub usteer_beacon_report_delete : Config → ℕ → ℕ → BeaconReport → Bool
usteer_beacon_report_delete c now bssid br =
    if br.bssid == bssid
    then true
    else let time_diff = sub64 now br.usteer_time in
      let time_diff_conf = u32 (c.beacon_report_invalide_timeout * 1000) in
      if ltb time_diff_conf time_diff then true else false

-- The reports that are left; with a null `bssid` all are freed.
unfoldable pub usteer_beacon_report_cleanup :
    Config → ℕ → Option ℕ → List BeaconReport → List BeaconReport
unfolding usteer_beacon_report_delete
usteer_beacon_report_cleanup c now none reports = []
usteer_beacon_report_cleanup c now (some bssid) reports =
    filter (λ br. not (usteer_beacon_report_delete c now bssid br)) reports

-- What `blobmsg_parse` finds in the event.
pub record BeaconReportMsg : Type 0 where
  pub address : Option String
  pub op_class : Option ℕ
  pub channel : Option ℕ
  pub rcpi : Option ℕ
  pub rsni : Option ℕ
  pub bssid : Option String

-- The four numbers are read with no test that they are there.
unfoldable pub make_report : StaInfo → ℕ → ℕ → BeaconReportMsg → Option BeaconReport
make_report si addr now msg = do
  rcpi ← msg.rcpi
  rsni ← msg.rsni
  op_class ← msg.op_class
  channel ← msg.channel
  some (record {
    address = si.self;
    bssid = addr;
    rcpi = rcpi;
    rsni = rsni;
    op_class = op_class;
    channel = channel;
    usteer_time = now;
  })

-- The new report goes before those that the clean-up leaves.
unfoldable pub add_report : Config → ℕ → BeaconReport → StaInfo → StaInfo
unfolding usteer_beacon_report_cleanup
add_report c now br si = record si {
  beacon_request = record (si.beacon_request) { last_report_time = br.usteer_time };
  beacon_reports = br ∷ usteer_beacon_report_cleanup c now (some br.bssid) si.beacon_reports;
}

-- `ether_aton` is the C library's; a null result is used as an address with no test.
module _ (avl : AvlTree) (ether_aton : String → Option ℕ) where
  store_report : StaInfo → String → BeaconReportMsg → Store → Option Store
  store_report si bssid msg s = do
    addr ← ether_aton bssid
    elim (get_usteer_node_from_bssid s addr) [
      | none ↦ some s
      | some _ ↦ do
        br ← make_report si addr s.current_time msg
        some (put_info (add_report s.config s.current_time br si) s)
    ]

  report_for : Node → String → String → BeaconReportMsg → Store → Option Store
  unfolding store_report
  report_for n address bssid msg s = do
    addr_sta ← ether_aton address
    elim (usteer_sta_get avl addr_sta false s).0 [
      | none ↦ some s
      | some sta ↦ elim (usteer_sta_info_get sta.addr n false s).0 [
        | none ↦ some s
        | some (si, _) ↦ store_report si bssid msg s
      ]
    ]

  unfoldable pub usteer_handle_event_beacon_report : Node → BeaconReportMsg → Store → Option Store
  unfolding report_for
  usteer_handle_event_beacon_report n msg s = elim msg.bssid [
    | none ↦ some s
    | some bssid ↦ elim msg.address [
      | none ↦ some s
      | some address ↦ report_for n address bssid msg s
    ]
  ]

-- The "time-to-live" that `usteer_ubus_hearing_map` reports.
unfoldable pub report_ttl : Config → ℕ → BeaconReport → ℕ
report_ttl c now br =
    let diff_secs = sub64 now br.usteer_time / 1000 in
    sub64 c.beacon_report_invalide_timeout diff_secs
