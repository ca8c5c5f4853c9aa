-- ===== src/HearingMap.antt =====
-- hearing_map.c: beacon reports, and the nodes that they name.
pub mod Nodes
pub mod Channels
pub mod Reports
pub mod Requests
