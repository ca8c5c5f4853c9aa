-- ===== src/Policy/Candidate/Compare.antt =====
-- What the comparisons of two nodes amount to.
use usteer.Base.{ℕ, ◌+◌, ◌^◌, ◌≤◌, ◌<◌, ◌≡◌, ◌↔◌, true, not, ◌&&◌, if◌then◌else◌, ltb, pos, arith}
use usteer.State.Config.{Config}
use usteer.State.Node.{Node}
use usteer.State.Station.{BeaconReport}
use usteer.Policy.Candidate.{
  is_5g, below_assoc_threshold, better_signal_strength_hearing_map, has_better_load,
}

-- What a node that is not on 5 GHz is charged against one that is.
abbrev pub band_penalty : Config → Node → Node → ℕ
band_penalty c n other = if is_5g other && not (is_5g n) then c.band_steering_threshold else 0

-- For client counts and thresholds whose sums fit an int, the new node passes exactly when its
-- clients, with the load balancing threshold and its band penalty, are at most the current node's
-- with its.
pub below_assoc_threshold_iff :
    (c : Config) (cur new : Node) (a b : ℕ)
    → cur.n_assoc ≡ pos a
    → new.n_assoc ≡ pos b
    → a + c.band_steering_threshold < 2 ^ 31
    → b + c.band_steering_threshold + c.load_balancing_threshold < 2 ^ 31
    → (below_assoc_threshold c cur new ≡ true)
      ↔ (b + band_penalty c new cur + c.load_balancing_threshold ≤ a + band_penalty c cur new)
unfolding below_assoc_threshold
below_assoc_threshold_iff c cur new a b p q h k = ground arith

-- With a signal threshold from 1 to 99 a beacon report passes exactly if its rcpi is higher, by
-- however little.
pub better_signal_strength_hearing_map_small :
    (c : Config) (cur new : BeaconReport)
    → 0 < c.signal_diff_threshold
    → c.signal_diff_threshold < 100
    → better_signal_strength_hearing_map c cur new ≡ ltb cur.rcpi new.rcpi
unfolding better_signal_strength_hearing_map
better_signal_strength_hearing_map_small c cur new h k = ground arith

-- Of two nodes whose client counts and loads are not negative and fit an int, the current one with
-- at least load_kick_min_clients clients, the new one has a "better load" only if its load is the
-- higher one, over the kick threshold.
pub has_better_load_higher :
    (c : Config) (cur new : Node) (a b l m : ℕ)
    → cur.n_assoc ≡ pos a
    → new.n_assoc ≡ pos b
    → cur.load ≡ pos l
    → new.load ≡ pos m
    → a < 2 ^ 31
    → l < 2 ^ 31
    → m < 2 ^ 31
    → c.load_kick_min_clients ≤ a
    → has_better_load c cur new ≡ true
    → (l < m) × (c.load_kick_threshold < m)
unfolding has_better_load
has_better_load_higher c cur new a b l m p q r t h1 h2 h3 h e = ground arith
