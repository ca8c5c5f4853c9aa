-- ===== src/HearingMap/Channels/Numbers.antt =====
-- The channels that the frequencies of the two bands have.
use usteer.Base.{ℕ, ◌+◌, ◌*◌, ◌≤◌, ◌≡◌, ◌↔◌, pos, arith, ◌-ℤ◌}
use usteer.HearingMap.Channels.{get_channel_from_freq, get_op_class_from_channel}

-- Channel c of the 2.4 GHz band, with c from 1 to 13, is at 2407 + 5 c MHz: the number comes out,
-- and its operating class is 81.
pub get_channel_from_freq_2ghz :
    (c : ℕ)
    → 1 ≤ c
    → c ≤ 13
    → (get_channel_from_freq (pos (2407 + 5 * c)) ≡ pos c)
      × (get_op_class_from_channel (get_channel_from_freq (pos (2407 + 5 * c))) ≡ 81)
unfolding get_channel_from_freq get_op_class_from_channel ◌-ℤ◌
get_channel_from_freq_2ghz c h k = ground arith

-- Channel c of the 5 GHz band, with c up to 200, is at 5000 + 5 c MHz: the number comes out, and
-- the operating class of c is 115 exactly for channels 36 to 48, 118 for 52 to 64 and 121 for 100
-- to 140.
pub get_channel_from_freq_5ghz :
    (c : ℕ)
    → c ≤ 200
    → (get_channel_from_freq (pos (5000 + 5 * c)) ≡ pos c)
      × ((get_op_class_from_channel (pos c) ≡ 115) ↔ ((36 ≤ c) × (c ≤ 48)))
      × ((get_op_class_from_channel (pos c) ≡ 118) ↔ ((52 ≤ c) × (c ≤ 64)))
      × ((get_op_class_from_channel (pos c) ≡ 121) ↔ ((100 ≤ c) × (c ≤ 140)))
unfolding get_channel_from_freq get_op_class_from_channel ◌-ℤ◌
get_channel_from_freq_5ghz c h = ground arith
