-- ===== src/HearingMap/Requests/Sound.antt =====
-- A beacon request keeps the invariant of stations, entries, timeouts and nodes.
use usteer.Base.{ℕ, Bool, ◌≡◌, some, arith, Option-cases, Bool-cases, inl, inr, ◌&&◌, eq_ℤ, sub64}
use usteer.State.Config.{Config}
use usteer.State.Node.{Node}
use usteer.State.Station.{StaInfo}
use usteer.State.Store.{Store, node_at, put_info}
use usteer.Sta.Info.Invariant.{IsOwn, IsSound, carry}
use usteer.Sta.Info.Sound.{put_info-IsSound}
use usteer.HearingMap.Reports.Sound.{usteer_beacon_report_cleanup-All}
use usteer.HearingMap.Requests.{
  FloatOps, dyn_freq, start_round, usteer_beacon_request_send, usteer_get_beacon_request_mode,
  usteer_beacon_request_next_band, usteer_beacon_request_check,
}

start_round-IsOwn :
    (f : FloatOps) (c : Config) (now : ℕ) (n : Node) (si : StaInfo)
    → IsOwn si
    → IsOwn (start_round f c now n si)
unfolding start_round
start_round-IsOwn f c now n si h = elim (Bool-cases (eq_ℤ si.beacon_request.band n.freq)) [
  | inl e ↦
      rw e
        (usteer_beacon_report_cleanup-All si.self c now (some 0xffff_ffff_ffff) si.beacon_reports h)
  | inr e ↦ rw e h
]

pub usteer_beacon_request_check-IsSound :
    {N : ℕ → Bool} (f : FloatOps) (si : StaInfo) (s s' : Store)
    → usteer_beacon_request_check f si s ≡ some s'
    → IsOwn si
    → IsSound N s
    → IsSound N s'
unfolding usteer_beacon_request_check usteer_beacon_request_send
usteer_beacon_request_check-IsSound f si s s' e own h =
    elim (Option-cases (node_at s si.self.node)) [
      | inl q ↦ absurd (ground arith)
      | inr (n, q) ↦
          let freq = si.beacon_request.band in
          elim (Bool-cases (
            eq_ℤ freq n.freq
            && f.lt (f.of_unsigned (sub64 s.current_time si.beacon_request.last_request_time))
                (dyn_freq f s.config si.signal))) [
                  | inl early ↦ let p : s ≡ s' = ground arith in carry p h
                  | inr due ↦
                      elim (Option-cases (usteer_beacon_request_next_band s.local_nodes freq)) [
                        | inl r ↦ absurd (ground arith)
                        | inr (next, r) ↦
                            let (mode, br) =
                              usteer_get_beacon_request_mode n freq si.beacon_request in
                            let si1 =
                              start_round f s.config s.current_time n
                                (record si { beacon_request = br }) in
                            let si2 = record si1 {
                              beacon_request = record (si1.beacon_request) { band = next };
                            } in
                            let s1 = usteer_beacon_request_send f si freq mode s in
                            let p : put_info si2 s1 ≡ s' = ground arith in
                            let own' =
                              start_round-IsOwn f s.config s.current_time n
                                (record si { beacon_request = br }) own in
                            carry p (put_info-IsSound si2 s1 own' h)
                      ]
                ]
    ]
