-- ===== src/Policy/Roam/Kept.antt =====
-- The roaming check keeps what each of its writes keeps.
use usteer.Base.{
  ℕ, ◌≡◌, subst, Bool, true, false, List, [], ◌∷◌, Option, some, arith, Option-cases, Bool-cases,
  ◌⊎◌, inl, inr, ltb, is_some, sub64, ℤ, ltb_ℤ, if◌then◌else◌,
}
use usteer.State.Station.{
  Ref, StaInfo, RoamTriggerState, idle, scan, scan_done, wait_kick, notify_kick, kick,
}
use usteer.State.Store.{Store, find_info, node_at, local_at, put_info, usteer_update_time}
use usteer.Sta.Info.Invariant.{IsOwn}
use usteer.Policy.Kept.{IsKept}
use usteer.Ubus.Clients.{usteer_ubus_kick_client, usteer_ubus_trigger_client_scan}
use usteer.Ubus.Clients.Kept.{
  usteer_ubus_kick_client_kept, usteer_ubus_trigger_client_scan_kept,
  usteer_ubus_notify_client_disassoc_kept,
}
use usteer.Policy.Candidate.{find_better_candidate}
use usteer.Policy.Admission.{snr_to_signal}
use usteer.Policy.Roam.{
  state_eq, roam_set_state, usteer_roam_set_state, sm_scan, sm_idle, sm_scan_done, is_stale,
  sm_wait_kick, sm_notify_kick, sm_kick, dispatch, usteer_roam_trigger_sm, stays, roam_each,
  refs_of, roam_check_at, usteer_local_node_roam_check,
}

module _ {P : Store → Type 0} (kept : IsKept P) where
  roam_set_state-IsOwn :
      (now : ℕ) (st : RoamTriggerState) (si : StaInfo) → IsOwn si → IsOwn (roam_set_state now st si)
  unfolding roam_set_state
  roam_set_state-IsOwn now st si h = elim (Bool-cases (state_eq si.roam_state st)) [
    | inl e ↦ elim (Bool-cases (state_eq si.roam_state idle)) [
      | inl f ↦ rw (e, f) h
      | inr f ↦ rw (e, f) h
    ]
    | inr e ↦ rw e h
  ]

  pub usteer_roam_set_state_kept :
      (si : StaInfo) (st : RoamTriggerState) (s : Store)
      → IsOwn si
      → P s
      → P (usteer_roam_set_state si st s)
  unfolding usteer_roam_set_state
  usteer_roam_set_state_kept si st s own h =
      kept.put _ s (roam_set_state-IsOwn s.current_time st si own) h

  abbrev Sm : Type 0
  Sm = StaInfo → Store → Option (Bool × Store)

  -- A step that returns keeps the invariant.
  abbrev Keeps : StaInfo → Option (Bool × Store) → Store → Type 0
  Keeps si r s = (k : Bool) (s' : Store) → r ≡ some (k, s') → IsOwn si → P s → P s'

  sm_scan_kept : (si : StaInfo) (s : Store) → Keeps si (sm_scan si s) s
  unfolding sm_scan usteer_ubus_trigger_client_scan
  sm_scan_kept si s k s' e own h =
      elim (Bool-cases (ltb (sub64 s.current_time si.roam_event) s.config.roam_scan_interval)) [
        | inl early ↦ let p : s ≡ s' = ground arith in subst P p h
        | inr due ↦ elim (Option-cases (find_better_candidate si s)) [
          | inl q ↦ absurd (ground arith)
          | inr ((r, s1), q) ↦
              let k1 = kept.searched si s s1 r q h in
              let again : StaInfo × Store = usteer_ubus_trigger_client_scan si s1 in
              let end : (usteer_roam_set_state si scan_done s1 ≡ s')
                  ⊎ (usteer_roam_set_state si wait_kick s1 ≡ s')
                  ⊎ (usteer_roam_set_state again.0 scan again.1 ≡ s') =
                ground arith in
              elim end [
                | inl p ↦ subst P p (usteer_roam_set_state_kept si scan_done s1 own k1)
                | inr (inl p) ↦ subst P p (usteer_roam_set_state_kept si wait_kick s1 own k1)
                | inr (inr p) ↦ subst P p (
                    usteer_roam_set_state_kept again.0 scan again.1 own
                      (usteer_ubus_trigger_client_scan_kept kept si s1 own k1))
              ]
        ]
      ]

  sm_idle_kept : (si : StaInfo) (s : Store) → Keeps si (sm_idle si s) s
  unfolding sm_idle
  sm_idle_kept si s k s' e own h = elim (Option-cases (find_better_candidate si s)) [
    | inl q ↦ absurd (ground arith)
    | inr ((r, s1), q) ↦
        let k1 = kept.searched si s s1 r q h in
        let st = if is_some r then scan_done else scan in
        let p : usteer_roam_set_state si st s1 ≡ s' = ground arith in
        subst P p (usteer_roam_set_state_kept si st s1 own k1)
  ]

  sm_scan_done_kept : (si : StaInfo) (s : Store) → Keeps si (sm_scan_done si s) s
  unfolding sm_scan_done
  sm_scan_done_kept si s k s' e own h = elim (Bool-cases (is_stale s.config s.current_time si)) [
    | inl old ↦
        let p : usteer_roam_set_state si scan s ≡ s' = ground arith in
        subst P p (usteer_roam_set_state_kept si scan s own h)
    | inr new ↦ elim (Option-cases (find_better_candidate si s)) [
      | inl q ↦ absurd (ground arith)
      | inr ((r, s1), q) ↦
          let k1 = kept.searched si s s1 r q h in
          let end : (usteer_roam_set_state si wait_kick s1 ≡ s') ⊎ (s1 ≡ s') = ground arith in
          elim end [
            | inl p ↦ subst P p (usteer_roam_set_state_kept si wait_kick s1 own k1)
            | inr p ↦ subst P p k1
          ]
    ]
  ]

  sm_wait_kick_kept : (m : ℤ) (si : StaInfo) (s : Store) → Keeps si (sm_wait_kick m si s) s
  unfolding sm_wait_kick
  sm_wait_kick_kept m si s k s' e own h = elim (Bool-cases (ltb_ℤ m si.signal)) [
    | inl strong ↦ let p : s ≡ s' = ground arith in subst P p h
    | inr weak ↦
        let si' = roam_set_state s.current_time notify_kick si in
        usteer_ubus_notify_client_disassoc_kept kept si' (put_info si' s) s' (ground arith)
          (kept.put si' s (roam_set_state-IsOwn s.current_time notify_kick si own) h)
  ]

  sm_notify_kick_kept : (si : StaInfo) (s : Store) → Keeps si (sm_notify_kick si s) s
  unfolding sm_notify_kick
  sm_notify_kick_kept si s k s' e own h =
      let end : (s ≡ s') ⊎ (usteer_roam_set_state si kick s ≡ s') = ground arith in
      elim end [
        | inl p ↦ subst P p h
        | inr p ↦ subst P p (usteer_roam_set_state_kept si kick s own h)
      ]

  sm_kick_kept : (si : StaInfo) (s : Store) → Keeps si (sm_kick si s) s
  unfolding sm_kick usteer_ubus_kick_client
  sm_kick_kept si s k s' e own h =
      let call : StaInfo × Store = usteer_ubus_kick_client si s in
      let p : usteer_roam_set_state call.0 idle call.1 ≡ s' = ground arith in
      subst P p (
        usteer_roam_set_state_kept call.0 idle call.1 own
          (usteer_ubus_kick_client_kept kept si s own h))

  dispatch_kept :
      (st : RoamTriggerState) (m : ℤ) (si : StaInfo) (s : Store) → Keeps si (dispatch st m si s) s
  unfolding dispatch
  dispatch_kept idle m si s = sm_idle_kept si s
  dispatch_kept scan m si s = sm_scan_kept si s
  dispatch_kept scan_done m si s = sm_scan_done_kept si s
  dispatch_kept wait_kick m si s = sm_wait_kick_kept m si s
  dispatch_kept notify_kick m si s = sm_notify_kick_kept si s
  dispatch_kept kick m si s = sm_kick_kept si s

  pub usteer_roam_trigger_sm_kept :
      (si : StaInfo) (s : Store) → Keeps si (usteer_roam_trigger_sm si s) s
  unfolding usteer_roam_trigger_sm
  usteer_roam_trigger_sm_kept si s k s' e own h = elim (Option-cases (node_at s si.self.node)) [
    | inl q ↦ absurd (ground arith)
    | inr (n, q) ↦
        dispatch_kept si.roam_state (snr_to_signal n s.config.roam_trigger_snr) si s k s'
          (ground arith) own h
  ]

  roam_each_kept : (m : ℤ) (rs : List Ref) (s s' : Store) → roam_each m rs s ≡ some s' → P s → P s'
  unfolding roam_each
  roam_each_kept m [] s s' e h = let p : s ≡ s' = ground arith in subst P p h
  roam_each_kept m (r ∷ rs) s s' e h = elim (Option-cases (find_info r s.infos)) [
    | inl q ↦ absurd (ground arith)
    | inr (si, q) ↦ elim (Option-cases (stays m si s)) [
      | inl t ↦ absurd (ground arith)
      | inr (true, t) ↦
          roam_each_kept m rs (usteer_roam_set_state si idle s) s' (ground arith)
            (usteer_roam_set_state_kept si idle s (kept.own r si s q h) h)
      | inr (false, t) ↦ elim (Option-cases (usteer_roam_trigger_sm si s)) [
        | inl u ↦ absurd (ground arith)
        | inr ((true, s1), u) ↦
            let p : s1 ≡ s' = ground arith in
            subst P p (usteer_roam_trigger_sm_kept si s true s1 u (kept.own r si s q h) h)
        | inr ((false, s1), u) ↦
            roam_each_kept m rs s1 s' (ground arith)
              (usteer_roam_trigger_sm_kept si s false s1 u (kept.own r si s q h) h)
      ]
    ]
  ]

  roam_check_at_kept :
      (p : ℕ) (snr : ℤ) (s s' : Store) → roam_check_at p snr s ≡ some s' → P s → P s'
  unfolding roam_check_at
  roam_check_at_kept p snr s s' e h = elim (Option-cases (local_at s p)) [
    | inl q ↦ absurd (ground arith)
    | inr (ln, q) ↦ roam_each_kept (snr_to_signal ln.node snr) (refs_of p s) s s' (ground arith) h
  ]

  pub usteer_local_node_roam_check_kept :
      (p : ℕ) (s s' : Store) → usteer_local_node_roam_check p s ≡ some s' → P s → P s'
  unfolding usteer_local_node_roam_check usteer_update_time
  usteer_local_node_roam_check_kept p s s' e h =
      let now : Store = usteer_update_time s in
      let k : P now = kept.timed s h in
      let end : (roam_check_at p s.config.roam_scan_snr now ≡ some s')
          ⊎ (roam_check_at p s.config.roam_trigger_snr now ≡ some s')
          ⊎ (s ≡ s') =
        ground arith in
      elim end [
        | inl q ↦ roam_check_at_kept p s.config.roam_scan_snr now s' q k
        | inr (inl q) ↦ roam_check_at_kept p s.config.roam_trigger_snr now s' q k
        | inr (inr q) ↦ subst P q h
      ]
