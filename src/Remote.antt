-- ===== src/Remote.antt =====
-- remote.c and parse.c: what the daemons of a network tell one another about their nodes.
pub mod Blob
pub mod Ids
pub mod Message
pub mod Send
pub mod Receive
pub mod Sound
pub mod Trip
pub mod Vendor
pub mod Refusal
pub mod Silent
