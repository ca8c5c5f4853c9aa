-- ===== src/HearingMap/Reports/Sound.antt =====
-- A beacon report keeps the invariant of stations, entries, timeouts and nodes.
use usteer.Base.{
  none, List, [], ◌∷◌, All, Bool-cases, Bool, ℕ, ◌≡◌, false, Option, some, String, arith,
  Option-cases, inl, inr,
}
use usteer.Base.Avl.{AvlTree}
use usteer.State.Config.{Config}
use usteer.State.Node.{Node}
use usteer.State.Station.{Ref, StaInfo, BeaconReport}
use usteer.State.Store.{Store, put_info}
use usteer.HearingMap.Nodes.{get_usteer_node_from_bssid}
use usteer.Sta.Info.{usteer_sta_get, usteer_sta_info_get}
use usteer.Sta.Info.Invariant.{IsOwn, IsSound, carry}
use usteer.Sta.Info.Sound.{put_info-IsSound, usteer_sta_info_get-IsOwn}
use usteer.HearingMap.Reports.{
  usteer_beacon_report_cleanup, usteer_beacon_report_delete, BeaconReportMsg, make_report,
  add_report, store_report, report_for, usteer_handle_event_beacon_report,
}

-- The clean-up only takes reports away.
pub usteer_beacon_report_cleanup-All :
    (a : Ref) (c : Config) (now : ℕ) (b : Option ℕ) (xs : List BeaconReport)
    → All (λ br. br.address ≡ a) xs
    → All (λ br. br.address ≡ a) (usteer_beacon_report_cleanup c now b xs)
unfolding usteer_beacon_report_cleanup
usteer_beacon_report_cleanup-All a c now none xs h = tt
usteer_beacon_report_cleanup-All a c now (some b) [] h = tt
usteer_beacon_report_cleanup-All a c now (some b) (x ∷ xs) h =
    let rest = usteer_beacon_report_cleanup-All a c now (some b) xs h.1 in
    elim (Bool-cases (usteer_beacon_report_delete c now b x)) [
      | inl e ↦ rw e rest
      | inr e ↦ rw e (h.0, rest)
    ]

make_report-address :
    (si : StaInfo) (addr now : ℕ) (msg : BeaconReportMsg) (br : BeaconReport)
    → make_report si addr now msg ≡ some br
    → br.address ≡ si.self
unfolding make_report
make_report-address si addr now msg br e = ground arith

add_report-IsOwn :
    (c : Config) (now : ℕ) (br : BeaconReport) (si : StaInfo)
    → br.address ≡ si.self
    → IsOwn si
    → IsOwn (add_report c now br si)
unfolding add_report
add_report-IsOwn c now br si e h =
    (e, usteer_beacon_report_cleanup-All si.self c now (some br.bssid) si.beacon_reports h)

module _ (avl : AvlTree) (ether_aton : String → Option ℕ) where
  store_report-IsSound :
      {N : ℕ → Bool} (si : StaInfo) (bssid : String) (msg : BeaconReportMsg) (s s' : Store)
      → store_report avl ether_aton si bssid msg s ≡ some s'
      → IsOwn si
      → IsSound N s
      → IsSound N s'
  unfolding store_report
  store_report-IsSound si bssid msg s s' e own h = elim (Option-cases (ether_aton bssid)) [
    | inl q ↦ absurd (ground arith)
    | inr (addr, q) ↦ elim (Option-cases (get_usteer_node_from_bssid s addr)) [
      | inl r ↦ let p : s ≡ s' = ground arith in carry p h
      | inr (n, r) ↦ elim (Option-cases (make_report si addr s.current_time msg)) [
        | inl f ↦ absurd (ground arith)
        | inr (br, f) ↦
            let si' = add_report s.config s.current_time br si in
            let p : put_info si' s ≡ s' = ground arith in
            let own' =
              add_report-IsOwn s.config s.current_time br si
                (make_report-address si addr s.current_time msg br f) own in
            carry p (put_info-IsSound si' s own' h)
      ]
    ]
  ]

  report_for-IsSound :
      {N : ℕ → Bool} (n : Node) (address bssid : String) (msg : BeaconReportMsg) (s s' : Store)
      → report_for avl ether_aton n address bssid msg s ≡ some s'
      → IsSound N s
      → IsSound N s'
  unfolding report_for
  report_for-IsSound n address bssid msg s s' e h = elim (Option-cases (ether_aton address)) [
    | inl q ↦ absurd (ground arith)
    | inr (addr, q) ↦ elim (Option-cases (usteer_sta_get avl addr false s).0) [
      | inl r ↦ let p : s ≡ s' = ground arith in carry p h
      | inr (t, r) ↦ elim (Option-cases (usteer_sta_info_get t.addr n false s).0) [
        | inl f ↦ let p : s ≡ s' = ground arith in carry p h
        | inr ((si, b), f) ↦
            store_report-IsSound si bssid msg s s' (ground arith)
              (usteer_sta_info_get-IsOwn t.addr n s si b f h.owned) h
      ]
    ]
  ]

  pub usteer_handle_event_beacon_report-IsSound :
      {N : ℕ → Bool} (n : Node) (msg : BeaconReportMsg) (s s' : Store)
      → usteer_handle_event_beacon_report avl ether_aton n msg s ≡ some s'
      → IsSound N s
      → IsSound N s'
  unfolding usteer_handle_event_beacon_report
  usteer_handle_event_beacon_report-IsSound n msg s s' e h = elim (Option-cases msg.bssid) [
    | inl q ↦ let p : s ≡ s' = ground arith in carry p h
    | inr (bssid, q) ↦ elim (Option-cases msg.address) [
      | inl r ↦ let p : s ≡ s' = ground arith in carry p h
      | inr (address, r) ↦ report_for-IsSound n address bssid msg s s' (ground arith) h
    ]
  ]
