-- ===== src/HearingMap/Reports/Kept.antt =====
-- Which beacon reports a station keeps, and for how long.
use usteer.Base.{
  ℕ, ◌+◌, ◌*◌, ◌-◌, ◌/◌, ◌^◌, ◌≤◌, ◌<◌, ◌≡◌, refl, Bool, false, not, List, [], ◌∷◌, some, ◌==◌,
  arith, any, filter, Bool-cases, inl, inr,
}
use usteer.State.Config.{Config}
use usteer.State.Station.{StaInfo, BeaconReport}
use usteer.HearingMap.Reports.{
  usteer_beacon_report_delete, usteer_beacon_report_cleanup, add_report, report_ttl,
}

abbrev pub has_bssid : ℕ → List BeaconReport → Bool
has_bssid b = any (λ br. br.bssid == b)

-- No two reports are about the same BSSID.
abbrev pub HasUniqueBssids : List BeaconReport → Type 0
HasUniqueBssids [] = Unit {0}
HasUniqueBssids (x ∷ xs) = (has_bssid x.bssid xs ≡ false) × HasUniqueBssids xs

filter-has_bssid :
    (p : BeaconReport → Bool) (b : ℕ) (xs : List BeaconReport)
    → has_bssid b xs ≡ false
    → has_bssid b (filter p xs) ≡ false
filter-has_bssid p b [] h = refl
filter-has_bssid p b (x ∷ xs) h = ground (arith, filter-has_bssid p b xs)

filter-HasUniqueBssids :
    (p : BeaconReport → Bool) (xs : List BeaconReport)
    → HasUniqueBssids xs
    → HasUniqueBssids (filter p xs)
filter-HasUniqueBssids p [] h = tt
filter-HasUniqueBssids p (x ∷ xs) h = elim (Bool-cases (p x)) [
  | inl e ↦ rw e (filter-has_bssid p x.bssid xs h.0, filter-HasUniqueBssids p xs h.1)
  | inr e ↦ rw e (filter-HasUniqueBssids p xs h.1)
]

-- A clean-up for a BSSID leaves no report on it.
cleanup-has_bssid :
    (c : Config) (now b : ℕ) (xs : List BeaconReport)
    → has_bssid b (usteer_beacon_report_cleanup c now (some b) xs) ≡ false
unfolding usteer_beacon_report_cleanup usteer_beacon_report_delete
cleanup-has_bssid c now b [] = refl
cleanup-has_bssid c now b (x ∷ xs) = ground (arith, cleanup-has_bssid c now b xs)

-- Adding a beacon report keeps a station's reports on different BSSIDs.
pub add_report-HasUniqueBssids :
    (c : Config) (now : ℕ) (br : BeaconReport) (si : StaInfo)
    → HasUniqueBssids si.beacon_reports
    → HasUniqueBssids (add_report c now br si).beacon_reports
unfolding add_report usteer_beacon_report_cleanup
add_report-HasUniqueBssids c now br si h = (
  cleanup-has_bssid c now br.bssid si.beacon_reports,
  filter-HasUniqueBssids (λ x. not (usteer_beacon_report_delete c now br.bssid x)) si.beacon_reports
      h,
)

-- While the timeout in milliseconds fits 32 bits and the report is not from the future, a report
-- that a clean-up does not delete is no older than the timeout, and its reported time to live is
-- what is left of it, in whole seconds.
pub report_ttl_kept :
    (c : Config) (now b : ℕ) (br : BeaconReport)
    → c.beacon_report_invalide_timeout * 1000 < 2 ^ 32
    → br.usteer_time ≤ now
    → now < 2 ^ 64
    → usteer_beacon_report_delete c now b br ≡ false
    → (now - br.usteer_time ≤ c.beacon_report_invalide_timeout * 1000)
      × (report_ttl c now br ≡ c.beacon_report_invalide_timeout - (now - br.usteer_time) / 1000)
unfolding usteer_beacon_report_delete report_ttl
report_ttl_kept c now b br h k l e = ground arith

-- A report that is a second or more older than the timeout in milliseconds is given a time to live
-- of over 2 ^ 63 seconds, for times that fit 64 bits.
pub report_ttl_old :
    (c : Config) (now : ℕ) (br : BeaconReport)
    → c.beacon_report_invalide_timeout < 2 ^ 32
    → br.usteer_time + c.beacon_report_invalide_timeout * 1000 + 1000 ≤ now
    → now < 2 ^ 64
    → 2 ^ 63 < report_ttl c now br
unfolding report_ttl
report_ttl_old c now br h k l = ground arith
