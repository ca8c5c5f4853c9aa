-- ===== src/Lib.antt =====
-- usteer, a daemon that steers wireless clients between the access points of a network.
--
-- A node is an access point, local (a hostapd object on this machine) or remote. A station is a
-- client, and has an entry, a `struct sta_info`, for each node that heard it. Events of hostapd
-- (sta.c) make and renew entries and are answered by the policy (policy.c). Timeouts (timeout.c)
-- delete the entries that are not renewed. At each update of a local node the policy looks for
-- clients to drop, and asks hostapd to drop them (ubus.c). Beacon reports that clients send
-- (hearing_map.c) say how well they hear other nodes. Daemons send one another their nodes with their
-- entries (remote.c), which become remote nodes where they are received (parse.c).
--
-- Files, with the code that they model:
--   Base            lists, integers, machine words, and what libubox's `avl_insert` is relied on for
--   Timeout         timeout.c, timeout.h: the queue of timeouts over one timer
--   State           usteer.h, node.h, hearing_map.h, main.c: configuration, nodes, stations, entries,
--                   and the store that holds them with the clock and the requests sent
--   Sta             sta.c: entries made, renewed and deleted; events of stations
--   Policy          policy.c: comparison of nodes, search for a better one, admission, the roaming
--                   state machine, the kick checks
--   HearingMap      hearing_map.c: beacon reports, channels, beacon requests
--   LocalNode       local_node.c: hostapd's events, the list of a node's clients, the cycle of the
--                   requests to hostapd, and how a node comes and goes; of nl80211.c the signal of a
--                   station and the start of a node
--   Netlink         nl80211.c: what is read from the kernel's surveys, scan results and frequencies
--   Netifd          netifd.c: the client limit of a node
--   Remote          remote.c, remote.h, parse.c, node.c: the messages between daemons, sent and
--                   received, the nodes of other daemons, and the vendor element of the beacon
--   Ubus            ubus.c: the three requests about a client, the settings, the list of SSIDs, and the
--                   methods that describe nodes and clients; of hearing_map.c the reply
--   EventLoop       main.c: the callbacks as steps, and the states that they reach
--   Tests           runs on a small network
-- A function of the code is a function of the same name. Its body may be split: where a comment says
-- no more, a helper is a loop or a branch of the function that follows it.
--
-- State. The global variables are the fields of `Store`, which each operation takes and returns. A
-- pointer to a node is the number `ptr`; a pointer to an entry is a `Ref`, the station's address and
-- the node's pointer, and is followed by a search in the store. A result `none` of `Option` is a
-- fault of the program: a pointer that dangles or is null, a write past the end of memory, or a
-- division by zero. Requests to hostapd are put in front of the field `sent`, and their answers are
-- events that come later.
--
-- Numbers. Unsigned fields are natural numbers, and each operation that can wrap is cut to its width.
-- An `int` is an integer, cut to 32 bits where a sum or a conversion can leave the range. `kick_count`
-- is not cut. The `float` arithmetic of beacon requests is a parameter, as are `ether_aton`,
-- `ether_ntoa`, `strcmp`, the address that `calloc` gives and the kernel's replies. The insertion
-- into an AVL tree has the law that it keeps the order of an ordered tree, the search in one that it
-- gives a suffix, and `blob_parse` two: of attributes that fit their policy, no two with the same id, it
-- finds each, and it does not find one that is missing.
--
-- Loops are recursions on lists. The expiry loop of timeout.c reads the clock anew in each round, so
-- its readings are given as a list; `none` is a list that is too short.
--
-- Messages are lists of attributes, each with its id and its contents; their bytes are not modelled, but
-- those of the vendor element are. The string buffer of libubox is a parameter, with the law that it
-- grows in place. An array is read by libubox in order, elements of another type than texts passed over.
--
-- Not modelled: the sockets of remote.c and its list of interfaces, which is an argument; of
-- nl80211.c the calls of libnl and the timer of the survey; the script in local_node.c that is run
-- for a node; the tools fakeap.c and monitor.c, the log, and main.c's start but for the state that it
-- leaves. In EventLoop the survey of a channel is any change of a node's noise and load.
pub mod Base
pub mod EventLoop
pub mod HearingMap
pub mod LocalNode
pub mod Netifd
pub mod Netlink
pub mod Policy
pub mod Remote
pub mod Sta
pub mod State
pub mod Tests
pub mod Timeout
pub mod Ubus
