-- ===== src/HearingMap/Channels.antt =====
-- hearing_map.c: channels and operating classes.
pub mod Numbers
use usteer.Base.{ℕ, Bool, ◌&&◌, if◌then◌else◌, ℤ, pos, ◌-ℤ◌, ltb_ℤ, leb_ℤ, quot_ℤ, eq_ℤ, i32}

unfoldable pub get_channel_from_freq : ℤ → ℤ
unfolding ◌-ℤ◌
get_channel_from_freq freq =
    if eq_ℤ freq (pos 2484)
    then pos 14
    else if ltb_ℤ freq (pos 2484)
    then quot_ℤ (i32 (freq -ℤ pos 2407)) 5
    else if leb_ℤ (pos 4910) freq && leb_ℤ freq (pos 4980)
    then quot_ℤ (freq -ℤ pos 4000) 5
    else if leb_ℤ freq (pos 45000)
    then quot_ℤ (freq -ℤ pos 5000) 5
    else if leb_ℤ (pos 58320) freq && leb_ℤ freq (pos 64800)
    then quot_ℤ (freq -ℤ pos 56160) 2160
    else pos 0

abbrev pub between : ℕ → ℤ → ℕ → Bool
between lo x hi = leb_ℤ (pos lo) x && leb_ℤ x (pos hi)

unfoldable pub get_op_class_from_channel : ℤ → ℕ
get_op_class_from_channel channel =
    if between 36 channel 48
    then 115
    else if between 52 channel 64
    then 118
    else if between 100 channel 140
    then 121
    else if between 1 channel 13
    then 81
    else 0
