-- ===== src/Tests/Reports.antt =====
-- Beacon reports, channels and the rounds over the bands.
use usteer.Base.{ℕ, ◌≡◌, ◌≤◌, ◌<◌, ◌-◌, ◌/◌, ◌*◌, ◌^◌, refl, List, [], ◌∷◌, some, arith, pos}
use usteer.State.Station.{BeaconReport, idle}
use usteer.HearingMap.Reports.{add_report, usteer_beacon_report_delete, report_ttl}
use usteer.HearingMap.Reports.Kept.{
  HasUniqueBssids, add_report-HasUniqueBssids, report_ttl_kept, report_ttl_old,
}
use usteer.HearingMap.Requests.{usteer_beacon_request_next_band}
use usteer.HearingMap.Requests.Rounds.{usteer_beacon_request_next_band_lem}
use usteer.Tests.Data.{client, config, ref_a, local_a, local_b}

abbrev report : ℕ → ℕ → BeaconReport
report bssid time = record {
  address = ref_a;
  bssid = bssid;
  rcpi = 100;
  rsni = 50;
  op_class = 81;
  channel = 1;
  usteer_time = time;
}

abbrev old_reports : List BeaconReport
old_reports = report 0x11 90000 ∷ report 0x22 95000 ∷ []

add_report-HasUniqueBssids_example :
    HasUniqueBssids
      (add_report config 100000
        (report 0x22 100000)
        (record (client idle) { beacon_reports = old_reports })).beacon_reports
add_report-HasUniqueBssids_example =
    add_report-HasUniqueBssids config 100000 (report 0x22 100000)
      (record (client idle) { beacon_reports = old_reports }) (refl, (refl, tt))

report_ttl_kept_example :
    (100000 - 90000 ≤ 200 * 1000)
    × (report_ttl config 100000 (report 0x11 90000) ≡ 200 - (100000 - 90000) / 1000)
unfolding usteer_beacon_report_delete
report_ttl_kept_example =
    report_ttl_kept config 100000 0x22 (report 0x11 90000) (omega arith) (omega arith) (omega arith)
      refl

report_ttl_old_example : 2 ^ 63 < report_ttl config 300000 (report 0x11 90000)
report_ttl_old_example =
    report_ttl_old config 300000 (report 0x11 90000) (omega arith) (omega arith) (omega arith)

-- After the second band comes the first.
usteer_beacon_request_next_band_lem_example :
    usteer_beacon_request_next_band (local_a ∷ local_b ∷ []) (pos 5180) ≡ some (pos 2412)
usteer_beacon_request_next_band_lem_example =
    usteer_beacon_request_next_band_lem (pos 5180) (local_a ∷ []) [] [] local_b (refl, tt)
      (refl, tt) tt
