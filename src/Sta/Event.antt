-- ===== src/Sta/Event.antt =====
-- sta.c: what a probe, authentication or association event does to a station.
pub mod Refusals
pub mod Total
pub mod Sound
use usteer.Base.{
  ℕ, ◌+◌, Bool, true, false, Option, none, some, ◌>>=◌, if◌then◌else◌, ltb, ℤ, pos, ltb_ℤ, u32,
  sub32, ◌==◌, List, map,
}
use usteer.Base.Avl.{AvlTree}
use usteer.State.Node.{Node}
use usteer.State.Station.{EventType, StaInfo, StaInfoStats, Sta, stats_of, set_stats}
use usteer.State.Store.{Store, find_info, put_info, sta_update, send}
use usteer.Sta.Info.{usteer_sta_get, usteer_sta_info_get, usteer_sta_info_update}
use usteer.Policy.Admission.{usteer_check_request}

-- The band flags of a station that is heard on a frequency.
unfoldable pub mark_seen : ℤ → Sta → Sta
mark_seen freq t =
    if ltb_ℤ freq (pos 4000) then record t { seen_2ghz = true } else record t { seen_5ghz = true }

update_sta : (Sta → Sta) → ℕ → Sta → Sta
update_sta f addr t = if t.addr == addr then f t else t

unfoldable pub put_seen : ℤ → ℕ → Store → Store
unfolding update_sta mark_seen
put_seen freq addr s = record s { stations = map (update_sta (mark_seen freq) addr) s.stations }

-- A request is counted, and the count of refusals is dropped if `diff` says that they are old. The
-- 32-bit stamp is taken from the 64-bit time in 64 bits, and the result cut to 32.
unfoldable pub count_request : ℕ → ℕ → StaInfoStats → StaInfoStats
count_request now block_timeout st =
    let diff = sub32 st.blocked_last_time (u32 now) in
    record st {
      requests = u32 (st.requests + 1);
      blocked_cur = if ltb block_timeout diff then 0 else st.blocked_cur;
    }

-- What the answer leaves.
unfoldable pub count_answer : ℕ → Bool → StaInfoStats → StaInfoStats
count_answer now true st = record st { blocked_cur = 0 }
count_answer now false st = record st {
  blocked_cur = u32 (st.blocked_cur + 1);
  blocked_total = u32 (st.blocked_total + 1);
  blocked_last_time = u32 now;
}

abbrev with_stats : EventType → (StaInfoStats → StaInfoStats) → StaInfo → StaInfo
with_stats type f si = record si { stats = set_stats type (f (stats_of type si.stats)) si.stats }

-- The entry with the request in it.
abbrev asked : StaInfo → EventType → Store → StaInfo
unfolding count_request
asked si type s =
    record (with_stats type (count_request s.current_time s.config.sta_block_timeout) si) {
      roam_scan_done = s.current_time;
    }

-- The rest of `usteer_handle_sta_event`, from the entry as `usteer_sta_info_update` leaves it.
unfoldable pub answer_event : StaInfo → EventType → Bool → Store → Option (Bool × Store)
unfolding count_answer asked
answer_event si type create s =
    let si1 = asked si type s in
    do
      (ret, s') ← usteer_check_request si1 type (put_info si1 s)
      let si2 = with_stats type (count_answer s.current_time ret) si1
      let s'' = put_info si2 s'
      some (ret, if create then send (sta_update si2) s'' else s'')

module _ (avl : AvlTree) where
  -- Where `usteer_sta_info_update` deletes the entry, the writes to it that follow are a fault.
  unfoldable pub usteer_handle_sta_event :
      Node → ℕ → EventType → ℤ → ℤ → Store → Option (Bool × Store)
  unfolding put_seen
  usteer_handle_sta_event n addr type freq signal s = do
    let (_, s1) = usteer_sta_get avl addr true s
    let (found, s2) = usteer_sta_info_get addr n true (put_seen freq addr s1)
    (si, create) ← found
    let s3 = usteer_sta_info_update avl si signal false s2
    si' ← find_info si.self s3.infos
    answer_event si' type create s3
