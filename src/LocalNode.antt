-- ===== src/LocalNode.antt =====
-- local_node.c: the local nodes: what hostapd tells of their stations, and what is asked of hostapd.
pub mod State
pub mod Clients
pub mod Events
pub mod Requests
pub mod Register
