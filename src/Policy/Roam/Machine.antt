-- ===== src/Policy/Roam/Machine.antt =====
-- The diagram of the roaming state machine.
use usteer.Base.{
  ℕ, ◌≡◌, inl, inr, refl, ◌∙◌, Bool, Option, none, some, arith, Option-cases, Bool-cases, sub64,
  ltb, ◌||◌, is_some, ℤ, ltb_ℤ,
}
use usteer.State.Station.{
  Ref, StaInfo, RoamTriggerState, idle, scan, scan_done, wait_kick, notify_kick, kick,
}
use usteer.State.Store.{Store, find_info, node_at, put_info}
use usteer.State.Store.Entries.{find_info-put_info_self}
use usteer.Policy.Candidate.{find_better_candidate}
use usteer.Policy.Candidate.Effect.{SearchEffect-keeps, find_better_candidate-SearchEffect}
use usteer.Ubus.Clients.{
  usteer_ubus_kick_client, usteer_ubus_trigger_client_scan, usteer_ubus_notify_client_disassoc,
}
use usteer.Ubus.Clients.Effects.{
  usteer_ubus_kick_client-IsWritten, usteer_ubus_notify_client_disassoc-sent,
  usteer_ubus_trigger_client_scan-IsWritten,
}
use usteer.Policy.Roam.{
  roam_set_state, usteer_roam_set_state, sm_scan, sm_idle, sm_scan_done, sm_wait_kick,
  sm_notify_kick, sm_kick, usteer_roam_trigger_sm, tired, is_stale, is_waiting, dispatch,
}

-- The edges.
infix 40 ◌⟶◌
pub data ◌⟶◌ : RoamTriggerState → RoamTriggerState → Type 0 where
  stay : {st : RoamTriggerState} → st ⟶ st
  start_scan : idle ⟶ scan
  start_found : idle ⟶ scan_done
  found : scan ⟶ scan_done
  give_up : scan ⟶ wait_kick
  stale : scan_done ⟶ scan
  leave : scan_done ⟶ wait_kick
  warn : wait_kick ⟶ notify_kick
  too_late : notify_kick ⟶ kick
  kicked : kick ⟶ idle

-- The entry of a client, with the state that it is in.
pub data InState (s : Store) (q : Ref) (st : RoamTriggerState) : Type 0 where
  in_state : (x : StaInfo) → find_info q s.infos ≡ some x → x.roam_state ≡ st → InState s q st

roam_set_state-state :
    (now : ℕ) (st : RoamTriggerState) (si : StaInfo) → (roam_set_state now st si).roam_state ≡ st
unfolding roam_set_state
roam_set_state-state now st si = ground arith

roam_set_state-self :
    (now : ℕ) (st : RoamTriggerState) (si : StaInfo) → (roam_set_state now st si).self ≡ si.self
unfolding roam_set_state
roam_set_state-self now st si = ground arith

usteer_roam_set_state-InState :
    (s : Store) (q : Ref) (si y : StaInfo) (st : RoamTriggerState)
    → find_info q s.infos ≡ some y
    → si.self ≡ q
    → InState (usteer_roam_set_state si st s) q st
unfolding usteer_roam_set_state
usteer_roam_set_state-InState s q si y st h p =
    in_state (roam_set_state s.current_time st si)
      (find_info-put_info_self q _ y s h (roam_set_state-self s.current_time st si ∙ p))
      (roam_set_state-state s.current_time st si)

-- The search leaves the entry that it is made for.
searched :
    (s s' : Store) (si : StaInfo) (r : Option StaInfo)
    → find_better_candidate si s ≡ some (r, s')
    → find_info si.self s.infos ≡ some si
    → find_info si.self s'.infos ≡ some si
searched s s' si r h e =
    SearchEffect-keeps s s' r si.self si (find_better_candidate-SearchEffect s s' si r h) e

abbrev Moves : StaInfo → Store → Type 0
Moves si s = (st : RoamTriggerState) × (si.roam_state ⟶ st) × InState s si.self st

by_state :
    (s s' : Store) (si x y : StaInfo) (st : RoamTriggerState)
    → find_info si.self s.infos ≡ some y
    → x.self ≡ si.self
    → usteer_roam_set_state x st s ≡ s'
    → si.roam_state ⟶ st
    → Moves si s'
by_state s s' si x y st f q p edge =
    rw (← p) (st, edge, usteer_roam_set_state-InState s si.self x y st f q)

by_stay : (s s' : Store) (si : StaInfo) → find_info si.self s.infos ≡ some si → s ≡ s' → Moves si s'
by_stay s s' si f p = rw (← p) (si.roam_state, stay, in_state si f refl)

sm_scan-Moves :
    (s s' : Store) (si : StaInfo) (k : Bool)
    → si.roam_state ≡ scan
    → find_info si.self s.infos ≡ some si
    → sm_scan si s ≡ some (k, s')
    → Moves si s'
unfolding sm_scan
sm_scan-Moves s s' si k e f h =
    elim (Bool-cases (ltb (sub64 s.current_time si.roam_event) s.config.roam_scan_interval)) [
      | inl early ↦ by_stay s s' si f (ground arith)
      | inr on_time ↦ elim (Option-cases (find_better_candidate si s)) [
        | inl q ↦ absurd (ground arith)
        | inr ((r, s1), q) ↦
            let there = searched s s1 si r q f in
            elim (Bool-cases (is_some r || ltb si.roam_event si.roam_scan_done)) [
              | inl t ↦ by_state s1 s' si si si scan_done there refl (ground arith) (rw e found)
              | inr t ↦ elim (Bool-cases (tired s.config si)) [
                | inl u ↦ by_state s1 s' si si si wait_kick there refl (ground arith) (rw e give_up)
                | inr u ↦
                    let again : Store → StaInfo × Store = usteer_ubus_trigger_client_scan si in
                    let w = usteer_ubus_trigger_client_scan-IsWritten s1 si si there in
                    by_state (again s1).1 s' si (again s1).0 (again s1).0 scan w.stored
                      w.same_client (ground arith) (rw e stay)
              ]
            ]
      ]
    ]

sm_idle-Moves :
    (s s' : Store) (si : StaInfo) (k : Bool)
    → si.roam_state ≡ idle
    → find_info si.self s.infos ≡ some si
    → sm_idle si s ≡ some (k, s')
    → Moves si s'
unfolding sm_idle
sm_idle-Moves s s' si k e f h = elim (Option-cases (find_better_candidate si s)) [
  | inl q ↦ absurd (ground arith)
  | inr ((none, s1), q) ↦
      by_state s1 s' si si si scan (searched s s1 si none q f) refl (ground arith) (rw e start_scan)
  | inr ((some x, s1), q) ↦
      by_state s1 s' si si si scan_done (searched s s1 si (some x) q f) refl (ground arith)
        (rw e start_found)
]

sm_scan_done-Moves :
    (s s' : Store) (si : StaInfo) (k : Bool)
    → si.roam_state ≡ scan_done
    → find_info si.self s.infos ≡ some si
    → sm_scan_done si s ≡ some (k, s')
    → Moves si s'
unfolding sm_scan_done
sm_scan_done-Moves s s' si k e f h = elim (Bool-cases (is_stale s.config s.current_time si)) [
  | inl old ↦ by_state s s' si si si scan f refl (ground arith) (rw e stale)
  | inr new ↦ elim (Option-cases (find_better_candidate si s)) [
    | inl q ↦ absurd (ground arith)
    | inr ((none, s1), q) ↦ by_stay s1 s' si (searched s s1 si none q f) (ground arith)
    | inr ((some x, s1), q) ↦
        by_state s1 s' si si si wait_kick (searched s s1 si (some x) q f) refl (ground arith)
          (rw e leave)
  ]
]

sm_wait_kick-Moves :
    (s s' : Store) (m : ℤ) (si : StaInfo) (k : Bool)
    → si.roam_state ≡ wait_kick
    → find_info si.self s.infos ≡ some si
    → sm_wait_kick m si s ≡ some (k, s')
    → Moves si s'
unfolding sm_wait_kick
sm_wait_kick-Moves s s' m si k e f h = elim (Bool-cases (ltb_ℤ m si.signal)) [
  | inl strong ↦ by_stay s s' si f (ground arith)
  | inr weak ↦
      let si' = roam_set_state s.current_time notify_kick si in
      elim (Option-cases (usteer_ubus_notify_client_disassoc si' (put_info si' s))) [
        | inl q ↦ absurd (ground arith)
        | inr (s1, q) ↦
            let (list, t) = usteer_ubus_notify_client_disassoc-sent (put_info si' s) s1 si' q in
            let p = roam_set_state-self s.current_time notify_kick si in
            (
              notify_kick,
              rw e warn,
              in_state si' (ground (arith, find_info-put_info_self si.self si' si s f p))
                  (roam_set_state-state s.current_time notify_kick si),
            )
      ]
]

sm_notify_kick-Moves :
    (s s' : Store) (si : StaInfo) (k : Bool)
    → si.roam_state ≡ notify_kick
    → find_info si.self s.infos ≡ some si
    → sm_notify_kick si s ≡ some (k, s')
    → Moves si s'
unfolding sm_notify_kick
sm_notify_kick-Moves s s' si k e f h = elim (Bool-cases (is_waiting s.config s.current_time si)) [
  | inl early ↦ by_stay s s' si f (ground arith)
  | inr late ↦ by_state s s' si si si kick f refl (ground arith) (rw e too_late)
]

sm_kick-Moves :
    (s s' : Store) (si : StaInfo) (k : Bool)
    → si.roam_state ≡ kick
    → find_info si.self s.infos ≡ some si
    → sm_kick si s ≡ some (k, s')
    → Moves si s'
unfolding sm_kick
sm_kick-Moves s s' si k e f h =
    let call : StaInfo × Store = usteer_ubus_kick_client si s in
    let w = usteer_ubus_kick_client-IsWritten s si si f in
    by_state call.1 s' si call.0 call.0 idle w.stored w.same_client (ground arith) (rw e kicked)

dispatch-Moves :
    (st : RoamTriggerState) (s s' : Store) (m : ℤ) (si : StaInfo) (k : Bool)
    → si.roam_state ≡ st
    → find_info si.self s.infos ≡ some si
    → dispatch st m si s ≡ some (k, s')
    → Moves si s'
unfolding dispatch
dispatch-Moves idle s s' m si k e f h = sm_idle-Moves s s' si k e f h
dispatch-Moves scan s s' m si k e f h = sm_scan-Moves s s' si k e f h
dispatch-Moves scan_done s s' m si k e f h = sm_scan_done-Moves s s' si k e f h
dispatch-Moves wait_kick s s' m si k e f h = sm_wait_kick-Moves s s' m si k e f h
dispatch-Moves notify_kick s s' m si k e f h = sm_notify_kick-Moves s s' si k e f h
dispatch-Moves kick s s' m si k e f h = sm_kick-Moves s s' si k e f h

-- A run of the roaming state machine that returns leaves the client's entry in place and moves its
-- state along an edge of the diagram IDLE, SCAN, SCAN_DONE, WAIT_KICK, NOTIFY_KICK, KICK, or not
-- at all.
pub usteer_roam_trigger_sm-⟶ :
    (s s' : Store) (si : StaInfo) (k : Bool)
    → find_info si.self s.infos ≡ some si
    → usteer_roam_trigger_sm si s ≡ some (k, s')
    → (st : RoamTriggerState) × (si.roam_state ⟶ st) × InState s' si.self st
unfolding usteer_roam_trigger_sm
usteer_roam_trigger_sm-⟶ s s' si k f h = elim (Option-cases (node_at s si.self.node)) [
  | inl e ↦ absurd (ground arith)
  | inr (n, e) ↦ dispatch-Moves si.roam_state s s' _ si k refl f (rw e at h)
]
