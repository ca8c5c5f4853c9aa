-- ===== src/Remote/Message.antt =====
-- parse.c: how each of the three kinds of message is read.
use usteer.Base.{
  ℕ, Bool, not, List, [], ◌∷◌, Option, none, some, String, ◌>>=◌, ◌==◌, if◌then◌else◌, length, ℤ,
  pos, to_i32, ◌||◌, is_some,
}
use usteer.State.Node.{Blob, StringArray}
use usteer.Remote.Blob.{
  Attr, nested, array, AttrType, unspec, is_nested, is_binary, is_string, is_int8, is_int32,
  BlobParse, blob_get_int32, blob_get_int8, blob_string, blob_bytes, inside, addr_of,
}
use usteer.Remote.Ids.{
  apmsg_id, apmsg_seq, apmsg_nodes, apmsg_max, apmsg_node_name, apmsg_node_freq, apmsg_node_n_assoc,
  apmsg_node_stations, apmsg_node_noise, apmsg_node_load, apmsg_node_ssid, apmsg_node_bssid,
  apmsg_node_max_assoc, apmsg_node_rrm_nr, apmsg_node_script_data, apmsg_node_max, apmsg_sta_addr,
  apmsg_sta_signal, apmsg_sta_timeout, apmsg_sta_seen, apmsg_sta_connected, apmsg_sta_max,
}

pub record Apmsg : Type 0 where
  pub id : ℕ
  pub seq : ℕ
  pub nodes : List Attr

-- `bssid` is `none` where the attribute is missing and the pointer is no text's.
pub record ApmsgNode : Type 0 where
  pub name : String
  pub ssid : String
  pub bssid : Option String
  pub freq : ℤ
  pub n_assoc : ℤ
  pub max_assoc : ℤ
  pub noise : ℤ
  pub load : ℤ
  pub stations : List Attr
  pub rrm_nr : Option StringArray
  pub script_data : Option Blob

pub record ApmsgSta : Type 0 where
  pub addr : ℕ
  pub connected : Bool
  pub signal : ℤ
  pub timeout : ℤ
  pub seen : ℤ

-- The three tables `policy`.
abbrev pub apmsg_policy : ℕ → AttrType
apmsg_policy i =
    if i == apmsg_id
    then is_int32
    else if i == apmsg_seq
    then is_int32
    else if i == apmsg_nodes
    then is_nested
    else unspec

abbrev pub apmsg_node_policy : ℕ → AttrType
apmsg_node_policy i =
    if i == apmsg_node_name
    then is_string
    else if i == apmsg_node_freq
    then is_int32
    else if i == apmsg_node_n_assoc
    then is_int32
    else if i == apmsg_node_max_assoc
    then is_int32
    else if i == apmsg_node_stations
    then is_nested
    else if i == apmsg_node_noise
    then is_int32
    else if i == apmsg_node_load
    then is_int32
    else if i == apmsg_node_rrm_nr
    then is_nested
    else if i == apmsg_node_script_data
    then is_nested
    else unspec

abbrev pub apmsg_sta_policy : ℕ → AttrType
apmsg_sta_policy i =
    if i == apmsg_sta_addr
    then is_binary
    else if i == apmsg_sta_signal
    then is_int32
    else if i == apmsg_sta_seen
    then is_int32
    else if i == apmsg_sta_timeout
    then is_int32
    else if i == apmsg_sta_connected
    then is_int8
    else unspec

-- A result of a parse that reads its attributes: `none` is a fault, `some none` a refusal.
abbrev refuse {ℓ} : {A : Type ℓ} → Option (Option A)
refuse = some none

-- A pointer to an attribute, followed.
abbrev via {ℓ} : {A : Type ℓ} → (Attr → Option A) → Option Attr → Option A
via get none = none
via get (some a) = get a

unfoldable pub get_int32 : Option Attr → Option ℤ
get_int32 none = some (pos 0)
get_int32 (some a) = do v ← blob_get_int32 a; some (to_i32 v)

-- A number that is not there is a fault here.
abbrev int_at : Option Attr → Option ℤ
int_at attr = do v ← via blob_get_int32 attr; some (to_i32 v)

module _ (blob : BlobParse) where
  unfoldable pub parse_apmsg : List Attr → Option (Option Apmsg)
  parse_apmsg data' =
      let tb = blob.blob_parse apmsg_policy apmsg_max data' in
      if not (is_some (tb apmsg_id))
        || not (is_some (tb apmsg_seq))
        || not (is_some (tb apmsg_nodes))
      then refuse
      else do
        id ← via blob_get_int32 (tb apmsg_id)
        seq ← via blob_get_int32 (tb apmsg_seq)
        nodes ← tb apmsg_nodes
        some (some (record { id = id; seq = seq; nodes = inside blob nodes }))

  -- The loop over the array: the first element that is not valid and no text drops it.
  unfoldable pub kept_array : StringArray → StringArray → Option StringArray
  kept_array whole [] = some whole
  kept_array whole (e ∷ es) =
      let rest = kept_array whole es in
      if blob.blobmsg_check_attr e then rest else if is_some e then rest else none

  -- The first attribute inside, if it is an array.
  unfoldable pub rrm_of : List Attr → Option StringArray
  rrm_of (array _ es ∷ _) = kept_array es es
  rrm_of _ = none

  unfoldable pub rrm_at : Option Attr → Option StringArray
  unfolding rrm_of kept_array
  rrm_at none = none
  rrm_at (some a) = rrm_of (inside blob a)

  unfoldable pub script_at : Option Attr → Option Blob
  script_at none = none
  script_at (some (nested _ l)) = some (blob.attrs_bytes l)
  script_at (some a) = blob_bytes a

  unfoldable pub parse_apmsg_node : List Attr → Option (Option ApmsgNode)
  unfolding get_int32 rrm_at script_at
  parse_apmsg_node data' =
      let tb = blob.blob_parse apmsg_node_policy apmsg_node_max data' in
      if not (is_some (tb apmsg_node_name))
        || not (is_some (tb apmsg_node_freq))
        || not (is_some (tb apmsg_node_n_assoc))
        || not (is_some (tb apmsg_node_stations))
        || not (is_some (tb apmsg_node_ssid))
      then refuse
      else do
        name ← via blob_string (tb apmsg_node_name)
        n_assoc ← int_at (tb apmsg_node_n_assoc)
        freq ← int_at (tb apmsg_node_freq)
        stations ← tb apmsg_node_stations
        ssid ← via blob_string (tb apmsg_node_ssid)
        noise ← get_int32 (tb apmsg_node_noise)
        load ← get_int32 (tb apmsg_node_load)
        max_assoc ← get_int32 (tb apmsg_node_max_assoc)
        some (
            some (record {
              name = name;
              ssid = ssid;
              bssid = via blob_string (tb apmsg_node_bssid);
              freq = freq;
              n_assoc = n_assoc;
              max_assoc = max_assoc;
              noise = noise;
              load = load;
              stations = inside blob stations;
              rrm_nr = rrm_at (tb apmsg_node_rrm_nr);
              script_data = script_at (tb apmsg_node_script_data);
            }))

  unfoldable pub parse_apmsg_sta : List Attr → Option (Option ApmsgSta)
  parse_apmsg_sta data' =
      let tb = blob.blob_parse apmsg_sta_policy apmsg_sta_max data' in
      if not (is_some (tb apmsg_sta_addr))
        || not (is_some (tb apmsg_sta_signal))
        || not (is_some (tb apmsg_sta_seen))
        || not (is_some (tb apmsg_sta_timeout))
        || not (is_some (tb apmsg_sta_connected))
      then refuse
      else do
        addr ← via blob_bytes (tb apmsg_sta_addr)
        signal ← int_at (tb apmsg_sta_signal)
        seen ← int_at (tb apmsg_sta_seen)
        timeout ← int_at (tb apmsg_sta_timeout)
        connected ← via blob_get_int8 (tb apmsg_sta_connected)
        if not (length addr == 6)
            then refuse
            else some (
                some (record {
                  addr = addr_of addr;
                  connected = not (connected == 0);
                  signal = signal;
                  timeout = timeout;
                  seen = seen;
                }))
