-- ===== src/Tests/Search.antt =====
-- The search for a better node, on the network.
use usteer.Base.{◌≡◌, ◌↔◌, refl, [], ◌∷◌, none, some, Bool, true, arith}
use usteer.State.Station.{probe, idle}
use usteer.State.Store.{Store, of_sta}
use usteer.Policy.Candidate.{
  find_better_candidate, hearing_map_candidate, current_report, seen_candidate, entry_fits,
  same_ssid, is_better_candidate, below_max_assoc, below_assoc_threshold, better_signal_strength,
  has_better_load, below_load_threshold,
}
use usteer.Policy.Candidate.Search.{IsCandidate, First, find_better_candidate-First}
use usteer.Policy.Candidate.Effect.{SearchEffect, find_better_candidate-SearchEffect}
use usteer.Policy.Admission.{usteer_check_request}
use usteer.Policy.Admission.Decision.{IsWelcome, usteer_check_request_iff}
use usteer.Tests.Data.{client, heard, network, node_a, node_b}

seen_run : find_better_candidate (client idle) (network idle) ≡ some (some heard, network idle)
unfolding find_better_candidate hearing_map_candidate current_report seen_candidate entry_fits
    same_ssid is_better_candidate below_max_assoc below_assoc_threshold better_signal_strength
    has_better_load below_load_threshold
seen_run = refl

no_reports : hearing_map_candidate (network idle) (client idle) ≡ some none
unfolding hearing_map_candidate current_report
no_reports = refl

find_better_candidate-First_example :
    (network idle ≡ network idle)
    × First
        (IsCandidate (network idle) (client idle))
        (of_sta 7 (client idle ∷ heard ∷ []))
        (some heard)
find_better_candidate-First_example =
    find_better_candidate-First (network idle) (network idle) (client idle) (some heard) no_reports
      seen_run

heard-IsCandidate : IsCandidate (network idle) (client idle) heard
unfolding is_better_candidate below_max_assoc below_assoc_threshold better_signal_strength
    has_better_load below_load_threshold
heard-IsCandidate = record {
  node = node_b;
  ref_node = node_a;
  node_found = refl;
  ref_node_found = refl;
  elsewhere = λ e. ground arith;
  recent = ground arith;
  same_network = refl;
  better = refl;
  not_back = refl;
}

find_better_candidate-SearchEffect_example : SearchEffect (network idle) (some heard) (network idle)
find_better_candidate-SearchEffect_example =
    find_better_candidate-SearchEffect (network idle) (network idle) (client idle) (some heard)
      seen_run

usteer_check_request_iff_example :
    (ok : Bool) × (s' : Store) × (usteer_check_request (client idle) probe (network idle)
      ≡ some (ok, s'))
    × ((ok ≡ true) ↔ IsWelcome (client idle) probe (network idle) node_a (some heard))
usteer_check_request_iff_example =
    usteer_check_request_iff (network idle) (network idle) (client idle) probe node_a (some heard)
      refl seen_run
