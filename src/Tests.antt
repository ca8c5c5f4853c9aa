-- ===== src/Tests.antt =====
-- Runs of the operations on a small network: two nodes of one SSID, and one station.
pub mod Data
pub mod Avl
pub mod Roam
pub mod Search
pub mod Stations
pub mod Reports
pub mod Load
pub mod Clients
pub mod Blobs
pub mod Remote
pub mod Loop
pub mod Deadlines
pub mod Vendor
pub mod Netlink
pub mod Progress
