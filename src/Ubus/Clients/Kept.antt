-- ===== src/Ubus/Clients/Kept.antt =====
-- The requests about a client keep what each of their writes keeps.
use usteer.Base.{◌≡◌, subst, sym, some}
use usteer.State.Station.{StaInfo}
use usteer.State.Store.{Store}
use usteer.Sta.Info.Invariant.{IsOwn}
use usteer.Policy.Kept.{IsKept}
use usteer.Ubus.Clients.{
  usteer_ubus_kick_client, usteer_ubus_trigger_client_scan, usteer_ubus_notify_client_disassoc,
}
use usteer.Ubus.Clients.Effects.{usteer_ubus_notify_client_disassoc-sent}

module _ {P : Store → Type 0} (kept : IsKept P) where
  pub usteer_ubus_kick_client_kept :
      (si : StaInfo) (s : Store) → IsOwn si → P s → P (usteer_ubus_kick_client si s).1
  unfolding usteer_ubus_kick_client
  usteer_ubus_kick_client_kept si s own h = kept.put _ _ own (kept.sent _ s h)

  pub usteer_ubus_trigger_client_scan_kept :
      (si : StaInfo) (s : Store) → IsOwn si → P s → P (usteer_ubus_trigger_client_scan si s).1
  unfolding usteer_ubus_trigger_client_scan
  usteer_ubus_trigger_client_scan_kept si s own h = kept.put _ _ own (kept.sent _ s h)

  pub usteer_ubus_notify_client_disassoc_kept :
      (si : StaInfo) (s s' : Store) → usteer_ubus_notify_client_disassoc si s ≡ some s' → P s → P s'
  usteer_ubus_notify_client_disassoc_kept si s s' e h =
      let (list, p) = usteer_ubus_notify_client_disassoc-sent s s' si e in
      subst P (sym p) (kept.sent _ s h)
