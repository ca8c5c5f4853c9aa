-- ===== src/Ubus.antt =====
-- ubus.c: the requests to hostapd, and the settings.
pub mod Clients
pub mod Ssids
pub mod Settings
pub mod Methods
