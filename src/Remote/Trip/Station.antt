-- ===== src/Remote/Trip/Station.antt =====
-- The entry of a station, sent and read.
use usteer.Base.{
  ℕ, ◌<◌, ◌^◌, ◌≡◌, refl, ◌∙◌, not, List, [], ◌∷◌, find?, some, ◌==◌, arith, to_u32, to_i32, IsI32,
  to_i32-to_u32, to_i32-IsI32, u32-bound, sub64, sub32, if◌then◌else◌,
}
use usteer.State.Station.{StaInfo}
use usteer.State.Store.{Store}
use usteer.Remote.Blob.{
  Attr, int8, int32, binary, id_of, BlobParse, inside, addr_bytes, addr_of, addr_of-addr_bytes,
}
use usteer.Remote.Ids.{
  apmsg_sta_addr, apmsg_sta_signal, apmsg_sta_timeout, apmsg_sta_seen, apmsg_sta_connected,
  apmsg_sta_max,
}
use usteer.Remote.Message.{ApmsgSta, apmsg_sta_policy, parse_apmsg_sta}
use usteer.Remote.Send.{seen_for, usteer_send_sta_info}

-- The attributes of an entry.
abbrev pub sta_attrs : StaInfo → Store → List Attr
sta_attrs si s =
    let seen = seen_for si s in
    binary apmsg_sta_addr (addr_bytes si.self.sta)
    ∷ int8 apmsg_sta_connected (if si.connected == 0 then 0 else 1)
    ∷ int32 apmsg_sta_signal (to_u32 si.signal)
    ∷ int32 apmsg_sta_seen (to_u32 seen)
    ∷ int32 apmsg_sta_timeout (sub32 s.config.local_sta_timeout (to_u32 seen))
    ∷ []

-- What the policy makes of the attributes.
abbrev read_sta : StaInfo → Store → ApmsgSta
read_sta si s = record {
  addr = addr_of (addr_bytes si.self.sta);
  connected = not ((if si.connected == 0 then 0 else 1) == 0);
  signal = to_i32 (to_u32 si.signal);
  timeout = to_i32 (sub32 s.config.local_sta_timeout (to_u32 (seen_for si s)));
  seen = to_i32 (to_u32 (seen_for si s));
}

module _ (blob : BlobParse) where
  sta_attr_at :
      (i : ℕ) (si : StaInfo) (s : Store)
      → i < apmsg_sta_max
      → blob.blob_parse apmsg_sta_policy apmsg_sta_max (sta_attrs si s) i
        ≡ find? (λ a. id_of a == i) (sta_attrs si s)
  sta_attr_at i si s h =
      blob.parse_found apmsg_sta_policy apmsg_sta_max (sta_attrs si s) i
        ((refl, refl, (refl, refl, (refl, refl, (refl, refl, (refl, refl, tt)))))) h

  connected_flag : (c : ℕ) → not ((if c == 0 then 0 else 1) == 0) ≡ not (c == 0)
  connected_flag c = ground arith

  parse_sta_attrs :
      (si : StaInfo) (s : Store)
      → parse_apmsg_sta blob (sta_attrs si s) ≡ some (some (read_sta si s))
  unfolding parse_apmsg_sta
  parse_sta_attrs si s =
      rw
        (
          sta_attr_at apmsg_sta_addr si s (omega arith),
          sta_attr_at apmsg_sta_signal si s (omega arith),
          sta_attr_at apmsg_sta_seen si s (omega arith),
          sta_attr_at apmsg_sta_timeout si s (omega arith),
          sta_attr_at apmsg_sta_connected si s (omega arith),
        )
        refl

  -- An entry that is written into a message, of a station whose address has 48 bits and with a
  -- signal that fits an int, is read back from it: its address, signal, age and whether it is
  -- connected, with what is left of its timeout.
  pub usteer_send_sta_info-parse_apmsg_sta :
      (si : StaInfo) (s : Store)
      → si.self.sta < 2 ^ 48
      → IsI32 si.signal
      → parse_apmsg_sta blob (inside blob (usteer_send_sta_info si s))
        ≡ some (
            some (record {
              addr = si.self.sta;
              connected = not (si.connected == 0);
              signal = si.signal;
              timeout = to_i32 (sub32 s.config.local_sta_timeout (to_u32 (seen_for si s)));
              seen = seen_for si s;
            }))
  unfolding usteer_send_sta_info
  usteer_send_sta_info-parse_apmsg_sta si s h k =
      parse_sta_attrs si s
      ∙ rw
          (
            addr_of-addr_bytes si.self.sta h,
            connected_flag si.connected,
            to_i32-to_u32 si.signal k,
            to_i32-to_u32 (seen_for si s)
                (to_i32-IsI32 _ (u32-bound (sub64 s.current_time si.seen))),
          )
          refl
