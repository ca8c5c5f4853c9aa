-- ===== src/LocalNode/State.antt =====
-- Writes to a local node.
use usteer.Base.{ℕ, map, ◌==◌, if◌then◌else◌}
use usteer.State.Node.{LocalNode}
use usteer.State.Store.{Store}

unfoldable pub write_local : ℕ → (LocalNode → LocalNode) → LocalNode → LocalNode
write_local p g l = if l.node.ptr == p then g l else l

-- A write through a pointer to a `struct usteer_local_node`.
unfoldable pub update_local_node : ℕ → (LocalNode → LocalNode) → Store → Store
unfolding write_local
update_local_node p g s = record s { local_nodes = map (write_local p g) s.local_nodes }
