-- ===== src/Tests/Stations.antt =====
-- Entries and timeouts of the network.
use usteer.Base.{◌≡◌, ◌≢◌, ◌≤◌, refl, [], ◌∷◌, none, false, arith, pos}
use usteer.Timeout.{usteer_timeout_isset, usteer_timeout_cb}
use usteer.State.Station.{ref_key, StaInfoStats, idle}
use usteer.State.Store.Entries.{has_info}
use usteer.Sta.Info.{
  usteer_sta_node_cleanup, usteer_sta_info_update_timeout, usteer_sta_info_timeout,
}
use usteer.Sta.Info.Cleanup.{usteer_sta_node_cleanup-has_info}
use usteer.Sta.Info.Expiry.{queue_of, put_queue, usteer_sta_info_timeout_total}
use usteer.Sta.Event.Refusals.{refuse_all, refuse_all-blocked_cur}
use usteer.Ubus.Clients.{usteer_ubus_kick_client}
use usteer.Ubus.Clients.Timeouts.{usteer_ubus_kick_client-isset}
use usteer.Tests.Data.{client, network, ref_a, ref_b}
use usteer.Tests.Avl.{sorted_list}

usteer_sta_node_cleanup-has_info_example :
    has_info ref_b (usteer_sta_node_cleanup 2 (network idle)).infos ≡ false
usteer_sta_node_cleanup-has_info_example = usteer_sta_node_cleanup-has_info 2 ref_b (network idle)

usteer_sta_info_timeout_total_example :
    usteer_timeout_cb queue_of put_queue usteer_sta_info_timeout
      (220000 ∷ 220001 ∷ [])
      (network idle)
    ≢ none
usteer_sta_info_timeout_total_example =
    usteer_sta_info_timeout_total (220000 ∷ 220001 ∷ []) (network idle) (omega arith)

abbrev refused : StaInfoStats
refused = record { requests = 1; blocked_cur = 1; blocked_total = 1; blocked_last_time = 100000 }

refuse_all-blocked_cur_example :
    (refuse_all 30000 (100500 ∷ 101000 ∷ 101500 ∷ []) refused).blocked_cur ≤ 1
refuse_all-blocked_cur_example =
    refuse_all-blocked_cur 30000 100000 (100500 ∷ 101000 ∷ 101500 ∷ []) refused refl (omega arith)
      (omega arith, omega arith, (omega arith, omega arith, (omega arith, omega arith, tt)))

usteer_ubus_kick_client-isset_example :
    ((usteer_ubus_kick_client (client idle) (
        usteer_sta_info_update_timeout sorted_list
          (client idle)
          (pos 120000)
          (network idle))).0.connected
      ≡ 0)
    × (usteer_timeout_isset
          (usteer_ubus_kick_client (client idle) (
            usteer_sta_info_update_timeout sorted_list
              (client idle)
              (pos 120000)
              (network idle))).1.tq
          ref_a
        ≡ false)
usteer_ubus_kick_client-isset_example =
    usteer_ubus_kick_client-isset sorted_list (client idle) (pos 120000) (network idle) refl
