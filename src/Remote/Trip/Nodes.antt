-- ===== src/Remote/Trip/Nodes.antt =====
-- A node, sent and read.
use usteer.Base.{
  ℕ, ◌<◌, ◌≡◌, refl, ◌∙◌, false, not, List, [], ◌∷◌, ◌++◌, any, find?, Option, none, some, String,
  is_some, ◌==◌, arith, to_u32, to_i32, IsI32, to_i32-to_u32,
}
use usteer.State.Node.{Node, StringArray, Blob}
use usteer.State.Station.{StaInfo}
use usteer.State.Store.{Store}
use usteer.Remote.Blob.{
  Attr, int32, string, binary, nested, array, of_list, to_list, to_list-of_list, id_of,
  IsWellFormed, BlobParse, inside,
}
use usteer.Remote.Ids.{
  apmsg_node_name, apmsg_node_freq, apmsg_node_n_assoc, apmsg_node_stations, apmsg_node_noise,
  apmsg_node_load, apmsg_node_ssid, apmsg_node_bssid, apmsg_node_max_assoc, apmsg_node_rrm_nr,
  apmsg_node_script_data, apmsg_node_max,
}
use usteer.Remote.Message.{
  ApmsgNode, apmsg_node_policy, parse_apmsg_node, kept_array, rrm_of, rrm_at, script_at, get_int32,
}
use usteer.Remote.Send.{rrm_attrs, script_attrs, station_attrs, node_attrs, usteer_send_node}

-- The attributes of a node, with the two that may be missing.
abbrev attrs_with : (ℕ → String) → Node → Option StringArray → Option Blob → List Attr → List Attr
attrs_with ether_ntoa n rrm script stations =
    string apmsg_node_name n.name
    ∷ string apmsg_node_ssid n.ssid
    ∷ string apmsg_node_bssid (ether_ntoa n.bssid)
    ∷ int32 apmsg_node_freq (to_u32 n.freq)
    ∷ int32 apmsg_node_noise (to_u32 n.noise)
    ∷ int32 apmsg_node_load (to_u32 n.load)
    ∷ int32 apmsg_node_n_assoc (to_u32 n.n_assoc)
    ∷ int32 apmsg_node_max_assoc (to_u32 n.max_assoc)
    ∷ (rrm_attrs rrm ++ (script_attrs script ++ nested apmsg_node_stations (of_list stations) ∷ []))

abbrev rrm_attr : Option StringArray → Option Attr
rrm_attr none = none
rrm_attr (some es) = some (nested apmsg_node_rrm_nr (of_list (array 0 es ∷ [])))

abbrev script_attr : Option Blob → Option Attr
script_attr none = none
script_attr (some bytes) = some (binary apmsg_node_script_data bytes)

-- The numbers of a node are those of an int, and its neighbour report holds texts.
pub record IsSendable (n : Node) : Type 0 where
  pub freq : IsI32 n.freq
  pub noise : IsI32 n.noise
  pub load : IsI32 n.load
  pub n_assoc : IsI32 n.n_assoc
  pub max_assoc : IsI32 n.max_assoc
  pub rrm_nr :
      (es : StringArray)
      → n.rrm_nr ≡ some es
      → any (λ (e : Option String). not (is_some e)) es ≡ false

module _ (blob : BlobParse) (ether_ntoa : ℕ → String) where
  attrs-IsWellFormed :
      (n : Node) (rrm : Option StringArray) (script : Option Blob) (stations : List Attr)
      → IsWellFormed apmsg_node_policy (attrs_with ether_ntoa n rrm script stations)
  unfolding rrm_attrs script_attrs
  attrs-IsWellFormed n none none l = (
    refl,
    refl,
    (
      refl,
      refl,
      (
        refl,
        refl,
        (refl, refl, (refl, refl, (refl, refl, (refl, refl, (refl, refl, (refl, refl, tt)))))),
      ),
    ),
  )
  attrs-IsWellFormed n (some es) none l = (
    refl,
    refl,
    (
      refl,
      refl,
      (
        refl,
        refl,
        (
          refl,
          refl,
          (refl, refl, (refl, refl, (refl, refl, (refl, refl, (refl, refl, (refl, refl, tt)))))),
        ),
      ),
    ),
  )
  attrs-IsWellFormed n none (some b) l = (
    refl,
    refl,
    (
      refl,
      refl,
      (
        refl,
        refl,
        (
          refl,
          refl,
          (refl, refl, (refl, refl, (refl, refl, (refl, refl, (refl, refl, (refl, refl, tt)))))),
        ),
      ),
    ),
  )
  attrs-IsWellFormed n (some es) (some b) l = (
    refl,
    refl,
    (
      refl,
      refl,
      (
        refl,
        refl,
        (
          refl,
          refl,
          (
            refl,
            refl,
            (refl, refl, (refl, refl, (refl, refl, (refl, refl, (refl, refl, (refl, refl, tt)))))),
          ),
        ),
      ),
    ),
  )

  attr_at :
      (i : ℕ) (n : Node) (rrm : Option StringArray) (script : Option Blob) (stations : List Attr)
      → i < apmsg_node_max
      → blob.blob_parse apmsg_node_policy apmsg_node_max
          (attrs_with ether_ntoa n rrm script stations)
          i
        ≡ find? (λ a. id_of a == i) (attrs_with ether_ntoa n rrm script stations)
  attr_at i n rrm script l h =
      blob.parse_found apmsg_node_policy apmsg_node_max (attrs_with ether_ntoa n rrm script l) i
        (attrs-IsWellFormed n rrm script l) h

  attr_rrm :
      (n : Node) (rrm : Option StringArray) (script : Option Blob) (l : List Attr)
      → find? (λ a. id_of a == apmsg_node_rrm_nr) (attrs_with ether_ntoa n rrm script l)
        ≡ rrm_attr rrm
  unfolding rrm_attrs script_attrs
  attr_rrm n none none l = refl
  attr_rrm n (some es) script l = refl
  attr_rrm n none (some b) l = refl

  attr_script :
      (n : Node) (rrm : Option StringArray) (script : Option Blob) (l : List Attr)
      → find? (λ a. id_of a == apmsg_node_script_data) (attrs_with ether_ntoa n rrm script l)
        ≡ script_attr script
  unfolding rrm_attrs script_attrs
  attr_script n none none l = refl
  attr_script n (some es) none l = refl
  attr_script n none (some b) l = refl
  attr_script n (some es) (some b) l = refl

  attr_stations :
      (n : Node) (rrm : Option StringArray) (script : Option Blob) (l : List Attr)
      → find? (λ a. id_of a == apmsg_node_stations) (attrs_with ether_ntoa n rrm script l)
        ≡ some (nested apmsg_node_stations (of_list l))
  unfolding rrm_attrs script_attrs
  attr_stations n none none l = refl
  attr_stations n (some es) none l = refl
  attr_stations n none (some b) l = refl
  attr_stations n (some es) (some b) l = refl

  -- Texts are kept, whatever `blobmsg_check_attr` says of them.
  kept_texts :
      (whole es : StringArray)
      → any (λ (e : Option String). not (is_some e)) es ≡ false
      → kept_array blob whole es ≡ some whole
  unfolding kept_array
  kept_texts whole [] h = refl
  kept_texts whole (e ∷ es) h = ground (arith, kept_texts whole es)

  rrm_back :
      (rrm : Option StringArray)
      → ((es : StringArray)
          → rrm ≡ some es
          → any (λ (e : Option String). not (is_some e)) es ≡ false)
      → rrm_at blob (rrm_attr rrm) ≡ rrm
  unfolding rrm_at rrm_of
  rrm_back none h = refl
  rrm_back (some es) h = kept_texts es es (h es refl)

  script_back : (script : Option Blob) → script_at blob (script_attr script) ≡ script
  unfolding script_at
  script_back none = refl
  script_back (some b) = refl

  -- What the policy makes of the attributes.
  abbrev read_node : Node → Option StringArray → Option Blob → List Attr → ApmsgNode
  read_node n rrm script l = record {
    name = n.name;
    ssid = n.ssid;
    bssid = some (ether_ntoa n.bssid);
    freq = to_i32 (to_u32 n.freq);
    n_assoc = to_i32 (to_u32 n.n_assoc);
    max_assoc = to_i32 (to_u32 n.max_assoc);
    noise = to_i32 (to_u32 n.noise);
    load = to_i32 (to_u32 n.load);
    stations = to_list (of_list l);
    rrm_nr = rrm_at blob (rrm_attr rrm);
    script_data = script_at blob (script_attr script);
  }

  parse_attrs :
      (n : Node) (rrm : Option StringArray) (script : Option Blob) (l : List Attr)
      → parse_apmsg_node blob (attrs_with ether_ntoa n rrm script l)
        ≡ some (some (read_node n rrm script l))
  unfolding parse_apmsg_node get_int32
  parse_attrs n rrm script l =
      rw
        (
          attr_at apmsg_node_name n rrm script l (omega arith),
          attr_at apmsg_node_freq n rrm script l (omega arith),
          attr_at apmsg_node_n_assoc n rrm script l (omega arith),
          attr_at apmsg_node_stations n rrm script l (omega arith),
          attr_at apmsg_node_noise n rrm script l (omega arith),
          attr_at apmsg_node_load n rrm script l (omega arith),
          attr_at apmsg_node_ssid n rrm script l (omega arith),
          attr_at apmsg_node_bssid n rrm script l (omega arith),
          attr_at apmsg_node_max_assoc n rrm script l (omega arith),
          attr_at apmsg_node_rrm_nr n rrm script l (omega arith),
          attr_at apmsg_node_script_data n rrm script l (omega arith),
          attr_rrm n rrm script l,
          attr_script n rrm script l,
          attr_stations n rrm script l,
        )
        refl

  -- A node that is written into a message is read back from it with its name, SSID, address,
  -- frequency, load, counts and blobs and the stations that were written, if its numbers fit an
  -- int and all elements of its neighbour report are texts.
  pub node_attrs-parse_apmsg_node :
      (n : Node) (sta : Option StaInfo) (s : Store)
      → IsSendable n
      → parse_apmsg_node blob (inside blob (usteer_send_node ether_ntoa n sta s))
        ≡ some (
            some (record {
              name = n.name;
              ssid = n.ssid;
              bssid = some (ether_ntoa n.bssid);
              freq = n.freq;
              n_assoc = n.n_assoc;
              max_assoc = n.max_assoc;
              noise = n.noise;
              load = n.load;
              stations = station_attrs n sta s;
              rrm_nr = n.rrm_nr;
              script_data = n.script_data;
            }))
  unfolding usteer_send_node node_attrs
  node_attrs-parse_apmsg_node n sta s h = rw (to_list-of_list (node_attrs ether_ntoa n sta s)) (
      parse_attrs n n.rrm_nr n.script_data (station_attrs n sta s)
      ∙ rw
          (
            to_i32-to_u32 n.freq h.freq,
            to_i32-to_u32 n.n_assoc h.n_assoc,
            to_i32-to_u32 n.max_assoc h.max_assoc,
            to_i32-to_u32 n.noise h.noise,
            to_i32-to_u32 n.load h.load,
            to_list-of_list (station_attrs n sta s),
            rrm_back n.rrm_nr h.rrm_nr,
            script_back n.script_data,
          )
          refl)
