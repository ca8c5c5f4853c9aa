-- ===== src/Tests/Clients.antt =====
-- The update of the first node from a list of clients in which its station is not associated.
use usteer.Base.{
  ℕ, ◌≡◌, ◌≢◌, refl, List, [], ◌∷◌, Option, none, some, true, false, if◌then◌else◌, String, str_eq,
  ℤ, pos, ◌+ℤ◌, ltb_ℤ,
}
use usteer.State.Node.{LocalNode}
use usteer.State.Station.{StaInfo, idle}
use usteer.State.Store.{Store, find_info, put_info, update_node}
use usteer.Sta.Info.{usteer_sta_get, usteer_sta_info_get, usteer_sta_info_update_timeout}
use usteer.Sta.Event.{put_seen}
use usteer.HearingMap.Requests.{
  FloatOps, usteer_beacon_request_check, usteer_get_beacon_request_mode,
  usteer_beacon_request_next_band, next_after,
}
use usteer.LocalNode.Clients.{
  ClientMsg, disconnect_each, usteer_update_client_active_bytes, usteer_local_node_set_assoc,
}
use usteer.LocalNode.Clients.Connected.{usteer_local_node_set_assoc-connected}
use usteer.Tests.Data.{client, network, ref_a, run}
use usteer.Tests.Avl.{sorted_list}

-- Whole numbers in place of floating ones.
abbrev pub whole : FloatOps
whole = record {
  Float = ℤ;
  of_int = λ z. z;
  of_unsigned = λ n. pos n;
  to_int = λ z. z;
  add = ◌+ℤ◌;
  mul = λ a b. a;
  div = λ a b. a;
  lt = ltb_ℤ;
}

abbrev pub read_name : String → Option ℕ
read_name name = if str_eq name "00:00:00:00:00:07" then some 7 else none

abbrev pub no_reply : LocalNode → ℕ → Option (Option ℕ)
no_reply ln addr = none

abbrev listed : List ClientMsg
listed =
    record { name = "00:00:00:00:00:07"; assoc = some false; bytes = none }
    ∷ record { name = "?"; assoc = some true; bytes = none }
    ∷ []

abbrev updated : Option Store
updated = usteer_local_node_set_assoc sorted_list whole read_name no_reply 1 listed (network idle)

abbrev entry_in : Option StaInfo → StaInfo
entry_in none = client idle
entry_in (some x) = x

abbrev left : StaInfo
left = entry_in (find_info ref_a (run (network idle) updated).infos)

updated-some : updated ≡ some (run (network idle) updated)
unfolding usteer_local_node_set_assoc usteer_sta_get usteer_sta_info_get put_seen put_info
    update_node usteer_update_client_active_bytes usteer_beacon_request_check
    usteer_get_beacon_request_mode usteer_beacon_request_next_band next_after disconnect_each
    usteer_sta_info_update_timeout ◌+ℤ◌
updated-some = refl

left-found : find_info ref_a (run (network idle) updated).infos ≡ some left
unfolding usteer_local_node_set_assoc usteer_sta_get usteer_sta_info_get put_seen put_info
    update_node usteer_update_client_active_bytes usteer_beacon_request_check
    usteer_get_beacon_request_mode usteer_beacon_request_next_band next_after disconnect_each
    usteer_sta_info_update_timeout ◌+ℤ◌
left-found = refl

usteer_local_node_set_assoc-connected_example : left.connected ≢ 2
usteer_local_node_set_assoc-connected_example =
    usteer_local_node_set_assoc-connected sorted_list whole read_name no_reply 1 listed ref_a left
      (network idle) (run (network idle) updated) updated-some refl left-found
