-- ===== src/Remote/Trip.antt =====
-- What is sent is what is read: parse.c against the messages of remote.c.
pub mod Station
pub mod Nodes
pub mod Whole
