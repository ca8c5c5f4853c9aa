-- ===== src/Netlink.antt =====
-- nl80211.c: what the kernel's answers about channels and scans say. A field of a record is `none`
-- where the answer has no such attribute.
pub mod Load
pub mod Elements
use usteer.Base.{
  to_i8, ℕ, zero, suc, ◌+◌, ◌*◌, ◌/◌, Bool, true, false, not, List, [], ◌∷◌, ◌++◌, Option, none,
  some, ◌>>=◌, ◌==◌, if◌then◌else◌, ltb, leb, length, ◌-◌, ℤ, pos, negsuc, u8, u16, u32, sub64,
  to_i32, eq_ℤ,
}
use usteer.State.Node.{Node}

pub record SurveyMsg : Type 0 where
  pub frequency : Option ℕ
  pub noise : Option ℕ
  pub channel_time : Option ℕ
  pub channel_time_busy : Option ℕ

pub record UsteerSurveyData : Type 0 where
  pub freq : ℕ  -- uint16_t
  pub noise : ℤ
  pub time : ℕ
  pub time_busy : ℕ

abbrev noise_of : Option ℕ → ℤ
noise_of none = pos 0
noise_of (some v) = to_i8 v

-- Both times or none.
abbrev times_of : Option ℕ → Option ℕ → ℕ × ℕ
times_of (some t) (some b) = (t, b)
times_of _ _ = (0, 0)

-- What the callback is given, if it is called; `none` is an answer without a survey, or one that
-- does not fit the policy.
unfoldable pub nl80211_survey_result : Option SurveyMsg → Option UsteerSurveyData
nl80211_survey_result msg = do
  tb_s ← msg
  freq ← tb_s.frequency
  let (time, time_busy) = times_of tb_s.channel_time tb_s.channel_time_busy
  some (record { freq = u16 freq; noise = noise_of tb_s.noise; time = time; time_busy = time_busy })

-- The target's `float`; `ewma` is 0.85 of the one and 0.15 of the other, in `double`.
pub record LoadOps : Type 1 where
  pub Float : Type 0
  pub of_unsigned : ℕ → Float
  pub to_int : Float → ℤ
  pub is_negative : Float → Bool
  pub ewma : Float → Float → Float

-- The part of a local node that only the survey reads.
pub record LoadState (f : LoadOps) : Type 0 where
  pub time : ℕ
  pub time_busy : ℕ
  pub load_ewma : f.Float

-- The part of the time that the channel was busy, in percent, in 32 bits.
abbrev pub busy_percent : ℕ → ℕ → ℕ
busy_percent delta delta_busy = u32 (100 * delta_busy) / delta

module _ (f : LoadOps) where
  open f use {Float, of_unsigned, to_int, is_negative, ewma}

  unfoldable pub nl80211_update_node_result :
      UsteerSurveyData → LoadState f → Node → LoadState f × Node
  nl80211_update_node_result d st n =
      if not (eq_ℤ (pos d.freq) n.freq)
      then (st, n)
      else let n1 : Node = if eq_ℤ d.noise (pos 0) then n else record n { noise = d.noise } in
        let delta = if st.time == 0 then 0 else u32 (sub64 d.time st.time) in
        let delta_busy = if st.time == 0 then 0 else u32 (sub64 d.time_busy st.time_busy) in
        let st1 : LoadState f = record st { time = d.time; time_busy = d.time_busy } in
        if delta == 0
        then (st1, n1)
        else let cur = of_unsigned (busy_percent delta delta_busy) in
          let load = if is_negative st.load_ewma then cur else ewma st.load_ewma cur in
          (record st1 { load_ewma = load }, record n1 { load = to_int load })

pub record BssMsg : Type 0 where
  pub bssid : Option ℕ
  pub frequency : Option ℕ
  pub signal_mbm : Option ℕ
  pub information_elements : Option (List ℕ)
  pub beacon_ies : Option (List ℕ)

pub record UsteerScanResult : Type 0 where
  pub bssid : ℕ
  pub ssid : List ℕ  -- 33 bytes
  pub freq : ℤ
  pub signal : ℤ

abbrev pub first_bytes {ℓ} : {A : Type ℓ} → ℕ → List A → List A
first_bytes zero l = []
first_bytes (suc n) [] = []
first_bytes (suc n) (x ∷ l) = x ∷ first_bytes n l

abbrev pub after_bytes {ℓ} : {A : Type ℓ} → ℕ → List A → List A
after_bytes zero l = l
after_bytes (suc n) [] = []
after_bytes (suc n) (x ∷ l) = after_bytes n l

-- memcpy to the start of a buffer.
abbrev pub copy_over : List ℕ → List ℕ → List ℕ
copy_over src dest = src ++ after_bytes (length src) dest

-- The walk over the elements, after `skip` bytes that belong to the last one. An SSID whose length
-- passes the end by one or two bytes passes the loop's test, and its copy reads past the buffer.
unfoldable pub walk_elements : ℕ → List ℕ → List ℕ → Option (List ℕ)
walk_elements skip [] ssid = some ssid
walk_elements (suc skip) (b ∷ bs) ssid = walk_elements skip bs ssid
walk_elements zero (id ∷ []) ssid = some ssid
walk_elements zero (id ∷ len ∷ bs) ssid =
    if ltb (suc (suc (length bs))) len
    then some ssid
    else if not (id == 0)
    then walk_elements len bs ssid
    else if ltb 32 len
    then walk_elements len bs ssid
    else if ltb (length bs) len
    then none
    else walk_elements len bs (copy_over (first_bytes len bs) ssid)

abbrev pub zeros : ℕ → List ℕ
zeros zero = []
zeros (suc n) = 0 ∷ zeros n

-- int32_t, divided by 100 towards 0.
abbrev hundredth : ℤ → ℤ
hundredth (pos n) = pos (n / 100)
hundredth (negsuc n) = elim (suc n / 100) [ zero ↦ pos 0 | suc k ↦ negsuc k ]

abbrev signal_mbm_of : Option ℕ → ℤ
signal_mbm_of none = negsuc 126
signal_mbm_of (some v) = hundredth (to_i32 v)

abbrev elements_of : BssMsg → Option (List ℕ)
elements_of m = elim m.information_elements [ none ↦ m.beacon_ies | some ie ↦ some ie ]

abbrev ssid_of : Option (List ℕ) → Option (List ℕ)
unfolding walk_elements
ssid_of none = some (zeros 33)
ssid_of (some ie) = walk_elements 0 ie (zeros 33)

-- The outer `none` is a read past the end, and the inner one an answer that is skipped.
unfoldable pub nl80211_scan_result : Option BssMsg → Option (Option UsteerScanResult)
unfolding ssid_of
nl80211_scan_result none = some none
nl80211_scan_result (some m) = elim m.bssid [
  | none ↦ some none
  | some bssid ↦ elim m.frequency [
    | none ↦ some none
    | some freq ↦ do
      ssid ← ssid_of (elements_of m)
      some (
          some (record {
            bssid = bssid;
            ssid = ssid;
            freq = to_i32 freq;
            signal = signal_mbm_of m.signal_mbm;
          }))
  ]
]

pub record FreqMsg : Type 0 where
  pub disabled : Bool
  pub no_ir : Bool
  pub freq : Option ℕ
  pub radar : Bool
  pub max_tx_power : Option ℕ

pub record UsteerFreqData : Type 0 where
  pub freq : ℕ  -- uint16_t
  pub txpower : ℕ  -- uint8_t
  pub dfs : Bool

abbrev txpower_of : Option ℕ → ℕ
txpower_of none = 0
txpower_of (some v) = u8 (v / 100)

-- What the callback is given for one frequency.
unfoldable pub freq_data : FreqMsg → List UsteerFreqData
freq_data m = if m.disabled then [] else if m.no_ir then [] else elim m.freq [
  | none ↦ []
  | some freq ↦ record { freq = u16 freq; dfs = m.radar; txpower = txpower_of m.max_tx_power } ∷ []
]

band_freqs : List FreqMsg → List UsteerFreqData
unfolding freq_data
band_freqs [] = []
band_freqs (m ∷ ms) = freq_data m ++ band_freqs ms

-- The bands, each with its frequencies if it has any.
unfoldable pub nl80211_wiphy_result : List (Option (List FreqMsg)) → List UsteerFreqData
unfolding band_freqs
nl80211_wiphy_result [] = []
nl80211_wiphy_result (none ∷ bs) = nl80211_wiphy_result bs
nl80211_wiphy_result (some ms ∷ bs) = band_freqs ms ++ nl80211_wiphy_result bs
