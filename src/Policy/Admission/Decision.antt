-- ===== src/Policy/Admission/Decision.antt =====
-- When a request is decided, and when it is answered.
use usteer.Base.{
  ◌≤◌, ◌≡◌, ◌≢◌, ◌↔◌, ◌⊎◌, inl, inr, Bool, true, Option, none, some, arith, ◌<ℤ◌, sub64,
  Option-cases,
}
use usteer.State.Node.{Node}
use usteer.State.Station.{EventType, assoc, StaInfo, stats_of}
use usteer.State.Store.{Store, node_at}
use usteer.Policy.Candidate.{find_better_candidate}
use usteer.Policy.Candidate.Effect.{IsLinked, IsLinkedInfo, find_better_candidate_total}
use usteer.Policy.Admission.{snr_to_signal, usteer_check_request}

-- The reasons to answer: an association, a client that was refused often enough, or a signal that
-- is strong enough of a station that is known long enough and has no better node.
abbrev pub IsWelcome : StaInfo → EventType → Store → Node → Option StaInfo → Type 0
IsWelcome si type s n si_new =
    (type ≡ assoc)
    ⊎ (s.config.max_retry_band ≤ (stats_of type si.stats).blocked_cur)
    ⊎ (¬ (si.signal <ℤ snr_to_signal n s.config.min_connect_snr)
        × (s.config.initial_connect_delay ≤ sub64 s.current_time si.created)
        × (si_new ≡ none))

-- Where the entry's node is there and the search for a better node returns, a request is decided,
-- and answered exactly for an association, enough refusals, or a strong signal of a station that
-- is known long enough and has no better node.
pub usteer_check_request_iff :
    (s s1 : Store) (si : StaInfo) (type : EventType) (n : Node) (si_new : Option StaInfo)
    → node_at s si.self.node ≡ some n
    → find_better_candidate si s ≡ some (si_new, s1)
    → (ok : Bool) × (s' : Store) × (usteer_check_request si type s ≡ some (ok, s'))
      × ((ok ≡ true) ↔ IsWelcome si type s n si_new)
unfolding usteer_check_request
usteer_check_request_iff s s1 si type n si_new e f =
    elim (Option-cases (usteer_check_request si type s)) [
      | inl q ↦ ground arith
      | inr ((ok, s'), q) ↦ (ok, s', q, ground arith)
    ]

-- Where no entry holds a dangling pointer, every request is decided.
pub usteer_check_request_total :
    (s : Store) (si : StaInfo) (type : EventType)
    → IsLinked s
    → IsLinkedInfo s si
    → usteer_check_request si type s ≢ none
unfolding usteer_check_request
usteer_check_request_total s si type h k e = ground (arith, find_better_candidate_total s si h k)
