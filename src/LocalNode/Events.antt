-- ===== src/LocalNode/Events.antt =====
-- local_node.c: the events that hostapd sends about a station.
pub mod Sound
pub mod Total
use usteer.Base.{ℕ, Option, none, some, String, ◌>>=◌, if◌then◌else◌, ℤ, to_i32, str_eq}
use usteer.Base.Avl.{AvlTree}
use usteer.State.Node.{Node}
use usteer.State.Station.{EventType, probe, assoc, auth, beacon}
use usteer.State.Store.{Store, node_at, usteer_update_time}
use usteer.Sta.Info.{no_signal}
use usteer.Sta.Event.{usteer_handle_sta_event}
use usteer.HearingMap.Reports.{BeaconReportMsg, usteer_handle_event_beacon_report}

-- The index of a method in `event_types`; `none` is `__EVENT_TYPE_MAX`.
unfoldable pub event_type_of : String → Option EventType
event_type_of method =
    if str_eq method "probe"
    then some probe
    else if str_eq method "assoc"
    then some assoc
    else if str_eq method "auth"
    then some auth
    else if str_eq method "beacon-report"
    then some beacon
    else none

-- What `blobmsg_parse` finds in an event under each of the two policies.
pub record EventMsg : Type 0 where
  pub address : Option String
  pub signal : Option ℕ
  pub freq : Option ℕ
  pub report : BeaconReportMsg

pub data EventStatus : Type 0 where
  status_ok status_invalid_argument status_unable_to_handle_new_sta : EventStatus

signal_of : Option ℕ → ℤ
signal_of none = no_signal
signal_of (some v) = to_i32 v

module _ (avl : AvlTree) (ether_aton : String → Option ℕ) where
  -- With the type `__EVENT_TYPE_MAX` the handler writes past the end of `stats`.
  sta_event : Node → Option EventType → String → ℕ → EventMsg → Store → Option (EventStatus × Store)
  unfolding signal_of
  sta_event n type addr_str freq msg s = elim (ether_aton addr_str) [
    | none ↦ some (status_invalid_argument, s)
    | some addr ↦ do
      t ← type
      (ret, s') ← usteer_handle_sta_event avl n addr t (to_i32 freq) (signal_of msg.signal) s
      some (if ret then status_ok else status_unable_to_handle_new_sta, s')
  ]

  checked_event :
      Node
      → Option EventType
      → Option String
      → Option ℕ
      → EventMsg
      → Store
      → Option (EventStatus × Store)
  unfolding sta_event
  checked_event n type (some addr_str) (some freq) msg s = sta_event n type addr_str freq msg s
  checked_event n type _ _ msg s = some (status_invalid_argument, s)

  unfoldable pub usteer_handle_event : ℕ → String → EventMsg → Store → Option (EventStatus × Store)
  unfolding checked_event
  usteer_handle_event p method msg s = do
    let now = usteer_update_time s
    n ← node_at now p
    elim (event_type_of method) [
      | some beacon ↦ do
        s' ← usteer_handle_event_beacon_report avl ether_aton n msg.report now
        some (status_ok, s')
      | type ↦ checked_event n type msg.address msg.freq msg now
    ]
