-- ===== src/Policy/Kept.antt =====
-- What of a store the steps of the policy keep.
use usteer.Base.{ℕ, ◌≡◌, ◌∙◌, refl, ap, Bool, true, List, Option, some}
use usteer.State.Node.{LocalNode}
use usteer.State.Station.{Ref, ref_eq, StaInfo}
use usteer.State.Store.{Store, Request, find_info, put_info, usteer_update_time}
use usteer.State.Store.Entries.{has_info, any-put_info}
use usteer.Sta.Info.Invariant.{IsOwn, IsSound}
use usteer.Sta.Info.Known.{find_info-IsOwn}
use usteer.Sta.Info.Nodes.{has_local, same_locals}
use usteer.Sta.Info.Sound.{put_info-IsSound}
use usteer.Policy.Candidate.{find_better_candidate}
use usteer.Policy.Candidate.Effect.{
  SearchEffect, SearchEffect-rest, SearchEffect-entries, find_better_candidate-SearchEffect,
  find_better_candidate-IsSound,
}

-- A predicate that each of the writes keeps of which the policy is made.
pub record IsKept (P : Store → Type 0) : Type 0 where
  pub own : (q : Ref) (x : StaInfo) (s : Store) → find_info q s.infos ≡ some x → P s → IsOwn x
  pub put : (si : StaInfo) (s : Store) → IsOwn si → P s → P (put_info si s)
  pub sent : (rs : List Request) (s : Store) → P s → P (record s { sent = rs })
  pub timed : (s : Store) → P s → P (usteer_update_time s)
  pub searched :
      (si : StaInfo) (s s' : Store) (r : Option StaInfo)
      → find_better_candidate si s ≡ some (r, s')
      → P s
      → P s'
  pub locals :
      (ls : List LocalNode) (s : Store)
      → ((q : ℕ) → has_local q ls ≡ has_local q s.local_nodes)
      → P s
      → P (record s { local_nodes = ls })

pub IsSound-IsKept : (N : ℕ → Bool) → IsKept (λ s. IsSound N s)
unfolding usteer_update_time
IsSound-IsKept N = record {
  own = λ q x s e h. find_info-IsOwn q x s.infos e h.owned;
  put = λ si s own h. put_info-IsSound si s own h;
  sent = λ rs s h. h;
  timed = λ s h. h;
  searched = λ si s s' r e h. find_better_candidate-IsSound si s s' r e h;
  locals = λ ls s same h. same_locals ls s same h;
}

-- No entry and no local node goes, and the settings stay.
pub record Extends (s s' : Store) : Type 0 where
  pub config : s'.config ≡ s.config
  pub nodes : (q : ℕ) → has_local q s'.local_nodes ≡ has_local q s.local_nodes
  pub entries : (q : Ref) → has_info q s.infos ≡ true → has_info q s'.infos ≡ true

abbrev pub IsLater : (ℕ → Bool) → Store → Store → Type 0
IsLater N s0 s = IsSound N s × Extends s0 s

pub IsLater-refl : {N : ℕ → Bool} (s : Store) → IsSound N s → IsLater N s s
IsLater-refl s h = (h, record { config = refl; nodes = λ q. refl; entries = λ q e. e })

searched-Extends :
    (s0 s s' : Store) (r : Option StaInfo) → SearchEffect s r s' → Extends s0 s → Extends s0 s'
searched-Extends s0 s s' r e h =
    let rest = SearchEffect-rest s s' r e in
    record {
      config = ap (λ (t : Store). t.config) rest ∙ h.config;
      nodes = λ q. ap (λ (t : Store). has_local q t.local_nodes) rest ∙ h.nodes q;
      entries = λ q there. SearchEffect-entries s s' r q e (h.entries q there);
    }

pub IsLater-IsKept : (N : ℕ → Bool) (s0 : Store) → IsKept (λ s. IsLater N s0 s)
unfolding usteer_update_time put_info
IsLater-IsKept N s0 = record {
  own = λ q x s e h. find_info-IsOwn q x s.infos e h.0.owned;
  put = λ si s own h. (
    put_info-IsSound si s own h.0,
    record {
      config = h.1.config;
      nodes = h.1.nodes;
      entries = λ q e. any-put_info (λ r. ref_eq r q) si s ∙ h.1.entries q e;
    },
  );
  sent = λ rs s h. (h.0, record { config = h.1.config; nodes = h.1.nodes; entries = h.1.entries });
  timed = λ s h. (h.0, record { config = h.1.config; nodes = h.1.nodes; entries = h.1.entries });
  searched = λ si s s' r e h. (
    find_better_candidate-IsSound si s s' r e h.0,
    searched-Extends s0 s s' r (find_better_candidate-SearchEffect s s' si r e) h.1,
  );
  locals = λ ls s same h. (
    same_locals ls s same h.0,
    record { config = h.1.config; nodes = λ q. same q ∙ h.1.nodes q; entries = h.1.entries },
  );
}
