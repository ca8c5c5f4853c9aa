-- ===== src/Sta.antt =====
-- sta.c: the stations and what is known of each at each node.
pub mod Info
pub mod Event
