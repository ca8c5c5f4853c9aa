-- ===== src/Sta/Info/Timed.antt =====
-- The expiry of entries keeps the invariant of stations, entries, timeouts and nodes.
use usteer.Base.{Bool, ℕ, ◌≡◌, List, some, arith}
use usteer.Timeout.{
  usteer_timeout_cancel, usteer_timeout_recalc, usteer_timeout_isset, usteer_timeout_cb,
}
use usteer.Timeout.Armed.{isset-cancel, recalc-tree}
use usteer.Timeout.Kept.{usteer_timeout_cb-kept}
use usteer.State.Station.{Ref, ref_key}
use usteer.State.Store.{Store}
use usteer.Sta.Info.{usteer_sta_info_timeout}
use usteer.Sta.Info.Expiry.{queue_of, put_queue}
use usteer.Sta.Info.Invariant.{IsSound}
use usteer.Sta.Info.Sound.{usteer_sta_info_del-IsSound}

cancelled-IsSound :
    {N : ℕ → Bool} (r : Ref) (s : Store)
    → IsSound N s
    → IsSound N (put_queue (usteer_timeout_cancel s.tq r) s)
cancelled-IsSound r s h = record {
  rooted = h.rooted;
  unique = h.unique;
  alive = λ q set. ground (arith, isset-cancel s.tq r q, h.alive q);
  linked = h.linked;
  noded = h.noded;
  owned = h.owned;
}

timed_out-IsSound :
    {N : ℕ → Bool} (r : Ref) (s : Store)
    → IsSound N s
    → IsSound N (usteer_sta_info_timeout r (put_queue (usteer_timeout_cancel (queue_of s) r) s))
unfolding usteer_sta_info_timeout
timed_out-IsSound r s h =
    usteer_sta_info_del-IsSound r (put_queue (usteer_timeout_cancel s.tq r) s)
      (cancelled-IsSound r s h)

armed-IsSound :
    {N : ℕ → Bool} (time : ℕ) (s : Store)
    → IsSound N s
    → IsSound N (put_queue (usteer_timeout_recalc (queue_of s) time) s)
unfolding usteer_timeout_isset
armed-IsSound time s h = record {
  rooted = h.rooted;
  unique = h.unique;
  alive = λ q set. h.alive q (rw (← recalc-tree s.tq time) set);
  linked = h.linked;
  noded = h.noded;
  owned = h.owned;
}

pub usteer_timeout_cb-IsSound :
    {N : ℕ → Bool} (times : List ℕ) (s s' : Store)
    → usteer_timeout_cb queue_of put_queue usteer_sta_info_timeout times s ≡ some s'
    → IsSound N s
    → IsSound N s'
usteer_timeout_cb-IsSound {N} =
    usteer_timeout_cb-kept queue_of put_queue usteer_sta_info_timeout (λ s. IsSound N s)
      timed_out-IsSound armed-IsSound
