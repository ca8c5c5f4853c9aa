-- ===== src/Remote/Ids.antt =====
-- remote.h: the ids of the attributes of the three kinds of message.
use usteer.Base.{ℕ}

abbrev pub apmsg_id : ℕ
apmsg_id = 0

abbrev pub apmsg_seq : ℕ
apmsg_seq = 1

abbrev pub apmsg_nodes : ℕ
apmsg_nodes = 2

abbrev pub apmsg_max : ℕ
apmsg_max = 3

abbrev pub apmsg_node_name : ℕ
apmsg_node_name = 0

abbrev pub apmsg_node_freq : ℕ
apmsg_node_freq = 1

abbrev pub apmsg_node_n_assoc : ℕ
apmsg_node_n_assoc = 2

abbrev pub apmsg_node_stations : ℕ
apmsg_node_stations = 3

abbrev pub apmsg_node_noise : ℕ
apmsg_node_noise = 4

abbrev pub apmsg_node_load : ℕ
apmsg_node_load = 5

abbrev pub apmsg_node_ssid : ℕ
apmsg_node_ssid = 6

abbrev pub apmsg_node_bssid : ℕ
apmsg_node_bssid = 7

abbrev pub apmsg_node_max_assoc : ℕ
apmsg_node_max_assoc = 8

abbrev pub apmsg_node_rrm_nr : ℕ
apmsg_node_rrm_nr = 9

abbrev pub apmsg_node_script_data : ℕ
apmsg_node_script_data = 10

abbrev pub apmsg_node_max : ℕ
apmsg_node_max = 11

abbrev pub apmsg_sta_addr : ℕ
apmsg_sta_addr = 0

abbrev pub apmsg_sta_signal : ℕ
apmsg_sta_signal = 1

abbrev pub apmsg_sta_timeout : ℕ
apmsg_sta_timeout = 2

abbrev pub apmsg_sta_seen : ℕ
apmsg_sta_seen = 3

abbrev pub apmsg_sta_connected : ℕ
apmsg_sta_connected = 4

abbrev pub apmsg_sta_max : ℕ
apmsg_sta_max = 5
