-- ===== src/Sta/Info/Expiry.antt =====
-- The queue `tq` of the stations' entries: its callback deletes the entry whose time is up.
use usteer.Base.{ℕ, ◌≤◌, ◌<◌, ◌≢◌, refl, List, none, length, arith}
use usteer.Timeout.{TimeoutQueue, usteer_timeout_cb}
use usteer.Timeout.Expiry.{cancel-length, usteer_timeout_cb_total}
use usteer.State.Station.{Ref, ref_key}
use usteer.State.Store.{Store}
use usteer.Sta.Info.{usteer_sta_info_del, usteer_sta_del, usteer_sta_info_timeout}

abbrev pub queue_of : Store → TimeoutQueue Ref
queue_of s = s.tq

abbrev pub put_queue : TimeoutQueue Ref → Store → Store
put_queue q s = record s { tq = q }

-- Deleting an entry sets no timeout.
timeout_quiet :
    (r : Ref) (s : Store)
    → length (queue_of (usteer_sta_info_timeout r s)).tree ≤ length (queue_of s).tree
unfolding usteer_sta_info_timeout usteer_sta_info_del usteer_sta_del
timeout_quiet r s = ground (arith, cancel-length s.tq r)

-- The expiry loop over the stations' entries ends, whatever the clock shows: one reading of it
-- more than there are timeouts is enough.
pub usteer_sta_info_timeout_total :
    (times : List ℕ) (s : Store)
    → length s.tq.tree < length times
    → usteer_timeout_cb queue_of put_queue usteer_sta_info_timeout times s ≢ none
usteer_sta_info_timeout_total times s h =
    usteer_timeout_cb_total queue_of put_queue usteer_sta_info_timeout (λ q s. refl) timeout_quiet
      times s h
