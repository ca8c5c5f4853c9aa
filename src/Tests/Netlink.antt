-- ===== src/Tests/Netlink.antt =====
-- Answers of the kernel: a survey, and the elements of a beacon.
use usteer.Base.{◌≡◌, ◌*◌, ◌/◌, ◌≤◌, refl, List, [], ◌∷◌, none, some, ℤ, pos, negsuc, ltb_ℤ, arith}
use usteer.State.Node.{Node}
use usteer.Netlink.{
  UsteerSurveyData, LoadOps, LoadState, nl80211_update_node_result, walk_elements, zeros,
}
use usteer.Netlink.Load.{nl80211_update_node_result-load}
use usteer.Netlink.Elements.{Element, elements_bytes, copy_each, walk_elements-elements_bytes}
use usteer.Tests.Data.{node_a}

abbrev exact : LoadOps
exact = record {
  Float = ℤ;
  of_unsigned = λ v. pos v;
  to_int = λ z. z;
  is_negative = λ z. ltb_ℤ z (pos 0);
  ewma = λ a b. b;
}

-- A second after the last one, in half of which the channel was busy.
abbrev survey : UsteerSurveyData
survey = record { freq = 2412; noise = negsuc 94; time = 2000; time_busy = 1500 }

abbrev watched : LoadState exact
watched = record { time = 1000; time_busy = 1000; load_ewma = negsuc 0 }

abbrev node : Node
node = record node_a { freq = pos 2412 }

nl80211_update_node_result-load_example :
    ((nl80211_update_node_result exact survey watched node).1.load ≡ pos (100 * 500 / 1000))
    × (100 * 500 / 1000 ≤ 100)
nl80211_update_node_result-load_example =
    nl80211_update_node_result-load exact survey watched node 1000 500 (λ v h. refl) refl
      (omega arith) (omega arith) (omega arith) refl (refl, refl) (omega arith) (omega arith)
      (omega arith) (omega arith)

-- The SSID "net" and the supported rates.
abbrev elements : List Element
elements =
    record { id = 0; contents = 110 ∷ 101 ∷ 116 ∷ [] }
    ∷ record { id = 1; contents = 130 ∷ 132 ∷ [] }
    ∷ []

walk_elements-elements_bytes_example :
    walk_elements 0 (elements_bytes elements) (zeros 33) ≡ some (copy_each elements (zeros 33))
walk_elements-elements_bytes_example = walk_elements-elements_bytes elements (zeros 33)

-- An SSID of one byte whose byte is not there.
cut_off : walk_elements 0 (0 ∷ 1 ∷ []) (zeros 33) ≡ none
unfolding walk_elements
cut_off = refl
