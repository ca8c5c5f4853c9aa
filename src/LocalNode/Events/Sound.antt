-- ===== src/LocalNode/Events/Sound.antt =====
-- The events of hostapd keep the invariant of stations, entries, timeouts and nodes.
use usteer.Base.{
  true, Bool, ℕ, ◌≡◌, Option, none, some, String, arith, Option-cases, inl, inr, to_i32,
}
use usteer.Base.Avl.{AvlTree}
use usteer.State.Node.{Node}
use usteer.State.Station.{EventType, probe, assoc, auth, beacon}
use usteer.State.Store.{Store, node_at, usteer_update_time}
use usteer.Sta.Event.{usteer_handle_sta_event}
use usteer.Sta.Event.Sound.{usteer_handle_sta_event-IsSound}
use usteer.Sta.Info.Invariant.{IsSound, carry}
use usteer.Sta.Info.Known.{node_at-known}
use usteer.Remote.Sound.{update_time-IsSound}
use usteer.HearingMap.Reports.{usteer_handle_event_beacon_report}
use usteer.HearingMap.Reports.Sound.{usteer_handle_event_beacon_report-IsSound}
use usteer.LocalNode.Events.{
  event_type_of, EventMsg, EventStatus, signal_of, sta_event, checked_event, usteer_handle_event,
}

module _ (avl : AvlTree) (ether_aton : String → Option ℕ) where
  sta_event-IsSound :
      {N : ℕ → Bool} (n : Node) (type : Option EventType) (addr_str : String) (freq : ℕ)
      (msg : EventMsg) (r : EventStatus) (s s' : Store)
      → sta_event avl ether_aton n type addr_str freq msg s ≡ some (r, s')
      → N n.ptr ≡ true
      → IsSound N s
      → IsSound N s'
  unfolding sta_event
  sta_event-IsSound n none addr_str freq msg r s s' e node h =
      elim (Option-cases (ether_aton addr_str)) [
        | inl q ↦ let p : s ≡ s' = ground arith in carry p h
        | inr (addr, q) ↦ absurd (ground arith)
      ]
  sta_event-IsSound n (some t) addr_str freq msg r s s' e node h =
      elim (Option-cases (ether_aton addr_str)) [
        | inl q ↦ let p : s ≡ s' = ground arith in carry p h
        | inr (addr, q) ↦
            elim (Option-cases
              (usteer_handle_sta_event avl n addr t (to_i32 freq) (signal_of msg.signal) s)) [
                | inl u ↦ absurd (ground arith)
                | inr ((ok, s1), u) ↦
                    let p : s1 ≡ s' = ground arith in
                    carry p (
                      usteer_handle_sta_event-IsSound avl n addr t (to_i32 freq)
                        (signal_of msg.signal) ok s s1 u node h)
              ]
      ]

  checked_event-IsSound :
      {N : ℕ → Bool} (n : Node) (type : Option EventType) (addr : Option String) (freq : Option ℕ)
      (msg : EventMsg) (r : EventStatus) (s s' : Store)
      → checked_event avl ether_aton n type addr freq msg s ≡ some (r, s')
      → N n.ptr ≡ true
      → IsSound N s
      → IsSound N s'
  unfolding checked_event
  checked_event-IsSound n type none freq msg r s s' e node h =
      let p : s ≡ s' = ground arith in carry p h
  checked_event-IsSound n type (some a) none msg r s s' e node h =
      let p : s ≡ s' = ground arith in carry p h
  checked_event-IsSound n type (some a) (some f) msg r s s' e node h =
      sta_event-IsSound n type a f msg r s s' e node h

  pub usteer_handle_event-IsSound :
      {N : ℕ → Bool} (p : ℕ) (method : String) (msg : EventMsg) (r : EventStatus) (s s' : Store)
      → usteer_handle_event avl ether_aton p method msg s ≡ some (r, s')
      → IsSound N s
      → IsSound N s'
  unfolding usteer_handle_event
  usteer_handle_event-IsSound p method msg r s s' e h =
      let now = usteer_update_time s in
      let k = update_time-IsSound s h in
      elim (Option-cases (node_at now p)) [
        | inl q ↦ absurd (ground arith)
        | inr (n, q) ↦
            let node = node_at-known p n now q k in
            elim (Option-cases (event_type_of method)) [
              | inl t ↦
                  checked_event-IsSound n none msg.address msg.freq msg r now s' (ground arith) node
                    k
              | inr (probe, t) ↦
                  checked_event-IsSound n (some probe) msg.address msg.freq msg r now s'
                    (ground arith) node k
              | inr (assoc, t) ↦
                  checked_event-IsSound n (some assoc) msg.address msg.freq msg r now s'
                    (ground arith) node k
              | inr (auth, t) ↦
                  checked_event-IsSound n (some auth) msg.address msg.freq msg r now s'
                    (ground arith) node k
              | inr (beacon, t) ↦
                  elim (Option-cases
                    (usteer_handle_event_beacon_report avl ether_aton n msg.report now)) [
                      | inl u ↦ absurd (ground arith)
                      | inr (s1, u) ↦
                          let end : s1 ≡ s' = ground arith in
                          carry end (
                            usteer_handle_event_beacon_report-IsSound avl ether_aton n msg.report
                              now s1 u k)
                    ]
            ]
      ]
