-- ===== src/Ubus/Clients/Timeouts.antt =====
-- What becomes of the timeout of a client that is dropped.
use usteer.Base.{◌≡◌, ◌∙◌, refl, false, arith, ℤ}
use usteer.Base.Avl.{AvlTree}
use usteer.Timeout.{usteer_timeout_isset}
use usteer.Timeout.Armed.{isset-cancel}
use usteer.State.Station.{StaInfo, ref_eq_iff, ref_key}
use usteer.State.Store.{Store, send}
use usteer.State.Store.Entries.{put_info-rest}
use usteer.Sta.Info.{usteer_sta_info_update_timeout}
use usteer.Ubus.Clients.{usteer_ubus_kick_client}

kick-isset :
    (si : StaInfo) (s : Store)
    → usteer_timeout_isset (usteer_ubus_kick_client si s).1.tq si.self
      ≡ usteer_timeout_isset s.tq si.self
unfolding usteer_ubus_kick_client
kick-isset si s = rw (put_info-rest _ (send _ s))

-- A connected client has no timeout after an update of its entry, and dropping it then leaves it
-- unconnected, still without one.
pub usteer_ubus_kick_client-isset :
    (avl : AvlTree) (si : StaInfo) (timeout : ℤ) (s : Store)
    → si.connected ≡ 1
    → ((usteer_ubus_kick_client si (usteer_sta_info_update_timeout avl si timeout s)).0.connected
        ≡ 0)
      × (usteer_timeout_isset
            (usteer_ubus_kick_client si (usteer_sta_info_update_timeout avl si timeout s)).1.tq
            si.self
          ≡ false)
unfolding usteer_ubus_kick_client usteer_sta_info_update_timeout
usteer_ubus_kick_client-isset avl si timeout s e = (
  refl,
  kick-isset si (usteer_sta_info_update_timeout avl si timeout s)
      ∙ ground (arith, isset-cancel s.tq si.self si.self, ref_eq_iff si.self si.self),
)
