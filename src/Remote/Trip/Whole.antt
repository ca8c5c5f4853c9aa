-- ===== src/Remote/Trip/Whole.antt =====
-- A whole message, sent and read.
use usteer.Base.{ℕ, ◌<◌, ◌≡◌, refl, List, find?, some, String, ◌==◌, arith, u32, ◌+◌}
use usteer.Remote.Blob.{Attr, to_list-of_list, id_of, BlobParse}
use usteer.Remote.Ids.{apmsg_id, apmsg_seq, apmsg_nodes, apmsg_max}
use usteer.Remote.Message.{apmsg_policy, parse_apmsg}
use usteer.Remote.Send.{Remote, message}

module _ (blob : BlobParse) (ether_ntoa : ℕ → String) where
  message_at :
      (i : ℕ) (r : Remote) (nodes : List Attr)
      → i < apmsg_max
      → blob.blob_parse apmsg_policy apmsg_max (message ether_ntoa r nodes) i
        ≡ find? (λ a. id_of a == i) (message ether_ntoa r nodes)
  unfolding message
  message_at i r nodes h =
      blob.parse_found apmsg_policy apmsg_max (message ether_ntoa r nodes) i
        (refl, refl, (refl, refl, (refl, refl, tt))) h

  pub message-parse_apmsg :
      (r : Remote) (nodes : List Attr)
      → parse_apmsg blob (message ether_ntoa r nodes)
        ≡ some (some (record { id = r.local_id; seq = u32 (r.msg_seq + 1); nodes = nodes }))
  unfolding parse_apmsg message
  message-parse_apmsg r nodes =
      rw
        (
          message_at apmsg_id r nodes (omega arith),
          message_at apmsg_seq r nodes (omega arith),
          message_at apmsg_nodes r nodes (omega arith),
        )
        (rw (to_list-of_list nodes) refl)
