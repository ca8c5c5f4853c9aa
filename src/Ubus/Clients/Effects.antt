-- ===== src/Ubus/Clients/Effects.antt =====
-- What the requests about a client write to its entry.
use usteer.Base.{String, ◌≡◌, some, List, arith, refl, Option-cases, inl, inr}
use usteer.State.Station.{StaInfo}
use usteer.State.Store.{Store, find_info, wnm_disassoc_imminent, node_at, send}
use usteer.State.Store.Entries.{find_info-put_info_self}
use usteer.Ubus.Clients.{
  usteer_ubus_kick_client, usteer_ubus_trigger_client_scan, usteer_ubus_notify_client_disassoc,
  neighbors,
}

-- The entry that a call returns is the one in the store, and is about the same client.
pub record IsWritten (si : StaInfo) (r : StaInfo × Store) : Type 0 where
  pub same_client : r.0.self ≡ si.self
  pub same_state : r.0.roam_state ≡ si.roam_state
  pub stored : find_info si.self r.1.infos ≡ some r.0

module _ (s : Store) (si x : StaInfo) (f : find_info si.self s.infos ≡ some x) where
  pub usteer_ubus_trigger_client_scan-IsWritten :
      IsWritten si (usteer_ubus_trigger_client_scan si s)
  unfolding usteer_ubus_trigger_client_scan
  usteer_ubus_trigger_client_scan-IsWritten = record {
    same_client = refl;
    same_state = refl;
    stored = find_info-put_info_self si.self _ x (send _ s) f refl;
  }

  pub usteer_ubus_kick_client-IsWritten : IsWritten si (usteer_ubus_kick_client si s)
  unfolding usteer_ubus_kick_client
  usteer_ubus_kick_client-IsWritten = record {
    same_client = refl;
    same_state = refl;
    stored = find_info-put_info_self si.self _ x (send _ s) f refl;
  }

-- Where it returns, a request to leave changes nothing but what was sent, by one message to the
-- client with the configured delay.
pub usteer_ubus_notify_client_disassoc-sent :
    (s s' : Store) (si : StaInfo)
    → usteer_ubus_notify_client_disassoc si s ≡ some s'
    → (list : List String) × (s'
        ≡ send (wnm_disassoc_imminent si.self s.config.roam_kick_delay list) s)
unfolding usteer_ubus_notify_client_disassoc
usteer_ubus_notify_client_disassoc-sent s s' si h = elim (Option-cases (node_at s si.self.node)) [
  | inl e ↦ absurd (ground arith)
  | inr (ln, e) ↦ elim (Option-cases (neighbors s ln si.beacon_reports)) [
    | inl q ↦ absurd (ground arith)
    | inr (list, q) ↦ (list, ground arith)
  ]
]
