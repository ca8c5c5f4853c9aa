-- ===== src/LocalNode/Events/Total.antt =====
-- An event about a station is answered.
use usteer.Base.{
  ℕ, ◌≡◌, ◌≢◌, ◌⊎◌, Bool, true, Option, none, some, String, arith, Option-cases, inl, inr, to_i32,
}
use usteer.Base.Avl.{AvlTree}
use usteer.State.Node.{Node}
use usteer.State.Station.{EventType, probe, assoc, auth, beacon}
use usteer.State.Store.{Store, node_at, usteer_update_time}
use usteer.Sta.Info.Invariant.{IsSound}
use usteer.Sta.Info.Known.{node_at-known}
use usteer.Sta.Info.Kept.{KeepsEntries}
use usteer.Sta.Event.Total.{usteer_handle_sta_event_total}
use usteer.LocalNode.Events.{
  EventMsg, event_type_of, signal_of, sta_event, checked_event, usteer_handle_event,
}

-- The three events that are about a station.
abbrev pub IsStaEvent : EventType → Type 0
IsStaEvent type = (type ≡ probe) ⊎ (type ≡ assoc) ⊎ (type ≡ auth)

module _ {N : ℕ → Bool} (avl : AvlTree) (ether_aton : String → Option ℕ) where
  sta_event_total :
      (n : Node) (t : EventType) (addr_str : String) (freq : ℕ) (msg : EventMsg) (s : Store)
      → KeepsEntries s.config
      → N n.ptr ≡ true
      → IsSound N s
      → sta_event avl ether_aton n (some t) addr_str freq msg s ≢ none
  unfolding sta_event
  sta_event_total n t addr_str freq msg s c node h e = elim (Option-cases (ether_aton addr_str)) [
    | inl q ↦ ground arith
    | inr (addr, q) ↦ ground (
      arith,
      usteer_handle_sta_event_total avl n addr t (to_i32 freq) (signal_of msg.signal) s c node h,
    )
  ]

  checked_event_total :
      (n : Node) (t : EventType) (addr : Option String) (freq : Option ℕ) (msg : EventMsg)
      (s : Store)
      → KeepsEntries s.config
      → N n.ptr ≡ true
      → IsSound N s
      → checked_event avl ether_aton n (some t) addr freq msg s ≢ none
  unfolding checked_event
  checked_event_total n t none freq msg s c node h e = ground arith
  checked_event_total n t (some a) none msg s c node h e = ground arith
  checked_event_total n t (some a) (some f) msg s c node h e =
      sta_event_total n t a f msg s c node h e

  pub usteer_handle_event_total :
      (p : ℕ) (method : String) (type : EventType) (msg : EventMsg) (n : Node) (s : Store)
      → node_at s p ≡ some n
      → event_type_of method ≡ some type
      → IsStaEvent type
      → KeepsEntries s.config
      → IsSound N s
      → usteer_handle_event avl ether_aton p method msg s ≢ none
  unfolding usteer_handle_event usteer_update_time
  usteer_handle_event_total p method probe msg n s at of is c h e =
      checked_event_total n probe msg.address msg.freq msg (usteer_update_time s) c
        (node_at-known p n s at h) h (ground arith)
  usteer_handle_event_total p method assoc msg n s at of is c h e =
      checked_event_total n assoc msg.address msg.freq msg (usteer_update_time s) c
        (node_at-known p n s at h) h (ground arith)
  usteer_handle_event_total p method auth msg n s at of is c h e =
      checked_event_total n auth msg.address msg.freq msg (usteer_update_time s) c
        (node_at-known p n s at h) h (ground arith)
  usteer_handle_event_total p method beacon msg n s at of is c h e =
      let none_of : ¬ IsStaEvent beacon = λ i. ground arith in none_of is
