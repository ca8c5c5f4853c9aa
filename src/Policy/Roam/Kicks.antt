-- ===== src/Policy/Roam/Kicks.antt =====
-- How often a roaming check asks hostapd to drop a client.
use usteer.Base.{
  ℕ, suc, ◌≤◌, ◌≡◌, inl, inr, ap, Bool, true, false, List, [], ◌∷◌, Option, some, arith,
  Option-cases, if◌then◌else◌, ℤ, length,
}
use usteer.State.Station.{
  Ref, StaInfo, RoamTriggerState, idle, scan, scan_done, wait_kick, notify_kick, kick,
}
use usteer.State.Store.{
  Store, Request, del_client, find_info, node_at, local_at, put_info, send, usteer_update_time,
}
use usteer.State.Store.Entries.{put_info-rest, usteer_update_time-rest}
use usteer.Policy.Candidate.{find_better_candidate}
use usteer.Policy.Candidate.Effect.{SearchEffect-rest, find_better_candidate-SearchEffect}
use usteer.Ubus.Clients.{
  usteer_ubus_kick_client, usteer_ubus_trigger_client_scan, usteer_ubus_notify_client_disassoc,
}
use usteer.Ubus.Clients.Effects.{usteer_ubus_notify_client_disassoc-sent}
use usteer.Policy.Admission.{snr_to_signal}
use usteer.Policy.Roam.{
  state_eq, roam_set_state, usteer_roam_set_state, sm_scan, sm_idle, sm_scan_done, sm_wait_kick,
  sm_notify_kick, sm_kick, dispatch, usteer_roam_trigger_sm, stays, roam_each, refs_of,
  roam_check_at, usteer_local_node_roam_check,
}

-- The requests to drop a client: whom, and the reason given.
abbrev pub drops : List Request → List (Ref × ℕ)
drops [] = []
drops (del_client r reason ∷ rs) = (r, reason) ∷ drops rs
drops (_ ∷ rs) = drops rs

abbrev pub kicks : List Request → ℕ
kicks rs = length (drops rs)

searched-drops :
    (s s' : Store) (si : StaInfo) (r : Option StaInfo)
    → find_better_candidate si s ≡ some (r, s')
    → drops s'.sent ≡ drops s.sent
searched-drops s s' si r h =
    rw (SearchEffect-rest s s' r (find_better_candidate-SearchEffect s s' si r h))

pub searched-kicks :
    (s s' : Store) (si : StaInfo) (r : Option StaInfo)
    → find_better_candidate si s ≡ some (r, s')
    → kicks s'.sent ≡ kicks s.sent
searched-kicks s s' si r h = ap length (searched-drops s s' si r h)

put_info-drops : (si : StaInfo) (s : Store) → drops (put_info si s).sent ≡ drops s.sent
put_info-drops si s = ap (λ (t : Store). drops t.sent) (put_info-rest si s)

pub put_info-kicks : (si : StaInfo) (s : Store) → kicks (put_info si s).sent ≡ kicks s.sent
put_info-kicks si s = ap length (put_info-drops si s)

set_state-drops :
    (si : StaInfo) (st : RoamTriggerState) (s : Store)
    → drops (usteer_roam_set_state si st s).sent ≡ drops s.sent
unfolding usteer_roam_set_state
set_state-drops si st s = put_info-drops _ s

set_state-kicks :
    (si : StaInfo) (st : RoamTriggerState) (s : Store)
    → kicks (usteer_roam_set_state si st s).sent ≡ kicks s.sent
set_state-kicks si st s = ap length (set_state-drops si st s)

scan_request-drops :
    (si : StaInfo) (s : Store) → drops (usteer_ubus_trigger_client_scan si s).1.sent ≡ drops s.sent
unfolding usteer_ubus_trigger_client_scan
scan_request-drops si s = put_info-drops _ (send _ s)

-- The client's own entry is named, and the reason is the configured one.
kick_client-drops :
    (si : StaInfo) (s : Store)
    → drops (usteer_ubus_kick_client si s).1.sent
      ≡ (si.self, s.config.load_kick_reason_code) ∷ drops s.sent
unfolding usteer_ubus_kick_client
kick_client-drops si s = put_info-drops _ (send _ s)

pub kick_client-kicks :
    (si : StaInfo) (s : Store) → kicks (usteer_ubus_kick_client si s).1.sent ≡ suc (kicks s.sent)
kick_client-kicks si s = ap length (kick_client-drops si s)

-- What was asked for before, and the drop of this client in front if it was kicked.
abbrev pub DropsOnly : Bool → StaInfo → Store → Store → Type 0
DropsOnly k si s s' =
    drops s'.sent
    ≡ (if k then (si.self, s.config.load_kick_reason_code) ∷ drops s.sent else drops s.sent)

abbrev Result : Type 0
Result = Option (Bool × Store)

-- What one state's handler drops.
abbrev Drops : Bool → StaInfo → Store → Result → Type 0
Drops k si s r = (k' : Bool) (s' : Store) → r ≡ some (k', s') → (k' ≡ k) × DropsOnly k si s s'

sm_scan-Drops : (s : Store) (si : StaInfo) → Drops false si s (sm_scan si s)
unfolding sm_scan
sm_scan-Drops s si k s' h = elim (Option-cases (find_better_candidate si s)) [
  | inl q ↦ ground arith
  | inr ((r, s1), q) ↦ ground (
    arith,
    searched-drops s s1 si r q,
    set_state-drops si scan_done s1,
    set_state-drops si wait_kick s1,
    scan_request-drops si s1,
    set_state-drops (usteer_ubus_trigger_client_scan si s1).0 scan
        (usteer_ubus_trigger_client_scan si s1).1,
  )
]

sm_idle-Drops : (s : Store) (si : StaInfo) → Drops false si s (sm_idle si s)
unfolding sm_idle
sm_idle-Drops s si k s' h = elim (Option-cases (find_better_candidate si s)) [
  | inl q ↦ ground arith
  | inr ((r, s1), q) ↦ ground (
    arith,
    searched-drops s s1 si r q,
    set_state-drops si scan_done s1,
    set_state-drops si scan s1,
  )
]

sm_scan_done-Drops : (s : Store) (si : StaInfo) → Drops false si s (sm_scan_done si s)
unfolding sm_scan_done
sm_scan_done-Drops s si k s' h = elim (Option-cases (find_better_candidate si s)) [
  | inl q ↦ ground (arith, set_state-drops si scan s)
  | inr ((r, s1), q) ↦ ground (
    arith,
    searched-drops s s1 si r q,
    set_state-drops si scan s,
    set_state-drops si wait_kick s1,
  )
]

notify-drops :
    (s s' : Store) (si : StaInfo)
    → usteer_ubus_notify_client_disassoc si s ≡ some s'
    → drops s'.sent ≡ drops s.sent
notify-drops s s' si h = let (list, e) = usteer_ubus_notify_client_disassoc-sent s s' si h in rw e

sm_wait_kick-Drops : (m : ℤ) (s : Store) (si : StaInfo) → Drops false si s (sm_wait_kick m si s)
unfolding sm_wait_kick
sm_wait_kick-Drops m s si k s' h =
    let si' = roam_set_state s.current_time notify_kick si in
    elim (Option-cases (usteer_ubus_notify_client_disassoc si' (put_info si' s))) [
      | inl q ↦ ground arith
      | inr (s1, q) ↦ ground (arith, notify-drops (put_info si' s) s1 si' q, put_info-drops si' s)
    ]

sm_notify_kick-Drops : (s : Store) (si : StaInfo) → Drops false si s (sm_notify_kick si s)
unfolding sm_notify_kick
sm_notify_kick-Drops s si k s' h = ground (arith, set_state-drops si kick s)

sm_kick-Drops : (s : Store) (si : StaInfo) → Drops true si s (sm_kick si s)
unfolding sm_kick
sm_kick-Drops s si k s' h =
    let call : StaInfo × Store = usteer_ubus_kick_client si s in
    ground (arith, kick_client-drops si s, set_state-drops call.0 idle call.1)

dispatch-Drops :
    (st : RoamTriggerState) (m : ℤ) (s : Store) (si : StaInfo)
    → Drops (state_eq st kick) si s (dispatch st m si s)
unfolding dispatch
dispatch-Drops idle m s si = sm_idle-Drops s si
dispatch-Drops scan m s si = sm_scan-Drops s si
dispatch-Drops scan_done m s si = sm_scan_done-Drops s si
dispatch-Drops wait_kick m s si = sm_wait_kick-Drops m s si
dispatch-Drops notify_kick m s si = sm_notify_kick-Drops s si
dispatch-Drops kick m s si = sm_kick-Drops s si

-- A run of the state machine that returns adds exactly one request to drop a client in the state
-- KICK, for this client's address and node and with the configured reason, and none in any other
-- state; its result says which.
pub usteer_roam_trigger_sm-kicks :
    (s s' : Store) (si : StaInfo) (k : Bool)
    → usteer_roam_trigger_sm si s ≡ some (k, s')
    → (k ≡ state_eq si.roam_state kick)
      × (drops s'.sent
          ≡ (if k then (si.self, s.config.load_kick_reason_code) ∷ drops s.sent else drops s.sent))
unfolding usteer_roam_trigger_sm
usteer_roam_trigger_sm-kicks s s' si k h = elim (Option-cases (node_at s si.self.node)) [
  | inl e ↦ ground arith
  | inr (n, e) ↦
      ground
        (arith, dispatch-Drops si.roam_state (snr_to_signal n s.config.roam_trigger_snr) s si k s')
]

kicked_once :
    (s s' : Store) (si : StaInfo) (k : Bool)
    → usteer_roam_trigger_sm si s ≡ some (k, s')
    → kicks s'.sent ≡ (if k then suc (kicks s.sent) else kicks s.sent)
kicked_once s s' si k h = ground (arith, usteer_roam_trigger_sm-kicks s s' si k h)

roam_each-kicks :
    (m : ℤ) (rs : List Ref) (s s' : Store)
    → roam_each m rs s ≡ some s'
    → kicks s'.sent ≤ suc (kicks s.sent)
unfolding roam_each
roam_each-kicks m [] s s' h = ground arith
roam_each-kicks m (r ∷ rs) s s' h = elim (Option-cases (find_info r s.infos)) [
  | inl e ↦ ground arith
  | inr (si, e) ↦ elim (Option-cases (stays m si s)) [
    | inl q ↦ ground arith
    | inr (true, q) ↦
        let next = usteer_roam_set_state si idle s in
        omega (arith, roam_each-kicks m rs next s' (ground arith), set_state-kicks si idle s)
    | inr (false, q) ↦ elim (Option-cases (usteer_roam_trigger_sm si s)) [
      | inl t ↦ ground arith
      | inr ((true, s1), t) ↦ ground (arith, kicked_once s s1 si true t)
      | inr ((false, s1), t) ↦
          omega (arith, roam_each-kicks m rs s1 s' (ground arith), kicked_once s s1 si false t)
    ]
  ]
]

roam_check_at-kicks :
    (p : ℕ) (snr : ℤ) (s s' : Store)
    → roam_check_at p snr s ≡ some s'
    → kicks s'.sent ≤ suc (kicks s.sent)
unfolding roam_check_at
roam_check_at-kicks p snr s s' h = elim (Option-cases (local_at s p)) [
  | inl e ↦ ground arith
  | inr (ln, e) ↦ roam_each-kicks (snr_to_signal ln.node snr) (refs_of p s) s s' (ground arith)
]

-- A roaming check that returns drops at most one client of the node.
pub usteer_local_node_roam_check-kicks :
    (p : ℕ) (s s' : Store)
    → usteer_local_node_roam_check p s ≡ some s'
    → kicks s'.sent ≤ suc (kicks s.sent)
unfolding usteer_local_node_roam_check
usteer_local_node_roam_check-kicks p s s' h =
    let now = usteer_update_time s in
    let e = ap (λ (t : Store). kicks t.sent) (usteer_update_time-rest s) in
    ground (
      arith,
      e,
      roam_check_at-kicks p s.config.roam_scan_snr now s',
      roam_check_at-kicks p s.config.roam_trigger_snr now s',
    )
