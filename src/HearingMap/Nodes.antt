-- ===== src/HearingMap/Nodes.antt =====
-- hearing_map.c: the node that has a bssid.
use usteer.Base.{ℕ, Option, ◌==◌, find?}
use usteer.State.Node.{Node}
use usteer.State.Store.{Store, all_nodes}

-- Local nodes first, then remote ones.
abbrev pub get_usteer_node_from_bssid : Store → ℕ → Option Node
get_usteer_node_from_bssid s bssid = find? (λ n. n.bssid == bssid) (all_nodes s)
