-- ===== src/Policy/Roam/Total.antt =====
-- When the roaming state machine returns.
use usteer.Base.{ℕ, ◌≢◌, none, Option-cases, inl, inr, arith, ℤ}
use usteer.State.Station.{
  StaInfo, RoamTriggerState, idle, scan, scan_done, wait_kick, notify_kick, kick,
}
use usteer.State.Store.{Store, node_at, put_info}
use usteer.State.Store.Entries.{put_info-rest}
use usteer.Ubus.Clients.Neighbors.{usteer_ubus_notify_client_disassoc_total}
use usteer.Policy.Candidate.Effect.{IsLinked, IsLinkedInfo, HasNode, find_better_candidate_total}
use usteer.Policy.Admission.{snr_to_signal}
use usteer.Policy.Roam.{
  roam_set_state, sm_scan, sm_idle, sm_scan_done, sm_wait_kick, sm_notify_kick, sm_kick, dispatch,
  usteer_roam_trigger_sm,
}

put_info-HasNode : (x : StaInfo) (s : Store) (p : ℕ) → HasNode s p → HasNode (put_info x s) p
put_info-HasNode x s p h = rw (put_info-rest x s) h

roam_set_state-HasNode :
    (now : ℕ) (st : RoamTriggerState) (si : StaInfo) (s : Store)
    → HasNode s si.self.node
    → HasNode s (roam_set_state now st si).self.node
unfolding roam_set_state
roam_set_state-HasNode now st si s h = ground (arith, h)

sm_wait_kick_total :
    (m : ℤ) (si : StaInfo) (s : Store) → HasNode s si.self.node → sm_wait_kick m si s ≢ none
unfolding sm_wait_kick
sm_wait_kick_total m si s h e =
    let si' = roam_set_state s.current_time notify_kick si in
    let there =
      put_info-HasNode si' s si'.self.node
        (roam_set_state-HasNode s.current_time notify_kick si s h) in
    ground (arith, usteer_ubus_notify_client_disassoc_total (put_info si' s) si' there)

dispatch_total :
    (st : RoamTriggerState) (m : ℤ) (si : StaInfo) (s : Store)
    → IsLinked s
    → IsLinkedInfo s si
    → dispatch st m si s ≢ none
unfolding dispatch sm_scan sm_idle sm_scan_done sm_notify_kick sm_kick
dispatch_total idle m si s h k e = ground (arith, find_better_candidate_total s si h k)
dispatch_total scan m si s h k e = ground (arith, find_better_candidate_total s si h k)
dispatch_total scan_done m si s h k e = ground (arith, find_better_candidate_total s si h k)
dispatch_total wait_kick m si s h k e = sm_wait_kick_total m si s k.0 e
dispatch_total notify_kick m si s h k e = ground arith
dispatch_total kick m si s h k e = ground arith

-- Where no entry holds a dangling pointer, the roaming state machine returns, in each of its
-- states.
pub usteer_roam_trigger_sm_total :
    (s : Store) (si : StaInfo) → IsLinked s → IsLinkedInfo s si → usteer_roam_trigger_sm si s ≢ none
unfolding usteer_roam_trigger_sm
usteer_roam_trigger_sm_total s si h k e = elim (Option-cases (node_at s si.self.node)) [
  | inl q ↦ k.0 q
  | inr (n, q) ↦
      ground
        (arith, dispatch_total si.roam_state (snr_to_signal n s.config.roam_trigger_snr) si s h k)
]
