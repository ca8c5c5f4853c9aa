-- ===== src/Sta/Info/Invariant.antt =====
-- The invariant of the stations, their entries, the timeouts and the nodes.
use usteer.Base.{ℕ, ◌≡◌, subst, Bool, true, ◌||◌, List, ◌==◌, any, All}
use usteer.Timeout.{TimeoutQueue, usteer_timeout_isset}
use usteer.State.Node.{Node}
use usteer.State.Station.{Ref, ref_key, StaInfo, Sta}
use usteer.State.Store.{Store, all_nodes}
use usteer.State.Store.Entries.{has_info, HasUniqueKeys}

abbrev pub has_sta : ℕ → List Sta → Bool
has_sta addr = any (λ t. t.addr == addr)

-- The station has an entry.
abbrev pub has_entry : ℕ → List StaInfo → Bool
has_entry addr = any (λ si. si.self.sta == addr)

abbrev pub has_node : ℕ → List Node → Bool
has_node p = any (λ n. n.ptr == p)

-- The beacon reports of an entry are about its own client.
abbrev pub IsOwn : StaInfo → Type 0
IsOwn si = All (λ br. br.address ≡ si.self) si.beacon_reports

-- With N the addresses of the nodes that are there: a station is kept exactly while it has an entry;
-- no two entries are about the same station and node; a timeout is only set for an entry that is
-- there, so none fires on freed memory; and neither an entry nor a report of one holds a pointer that
-- dangles.
pub record IsSoundIn (N : ℕ → Bool) (stations : List Sta) (infos : List StaInfo)
    (tq : TimeoutQueue Ref) (nodes : List Node) : Type 0 where
  pub rooted : (addr : ℕ) → has_sta addr stations ≡ has_entry addr infos
  pub unique : HasUniqueKeys infos
  pub alive : (q : Ref) → usteer_timeout_isset tq q ≡ true → has_info q infos ≡ true
  pub linked : (q : Ref) → has_info q infos ≡ true → N q.node ≡ true
  pub noded : (p : ℕ) → has_node p nodes ≡ N p
  pub owned : All IsOwn infos

-- A store that differs in nothing else satisfies it by the same proof.
abbrev pub IsSound : (ℕ → Bool) → Store → Type 0
IsSound N s = IsSoundIn N s.stations s.infos s.tq (all_nodes s)

pub carry : {N : ℕ → Bool} {s s' : Store} → s ≡ s' → IsSound N s → IsSound N s'
carry {N} p h = subst (λ t. IsSound N t) p h

-- The invariant, but for the station of one address, which is kept in any case.
pub record IsSoundWithIn (addr : ℕ) (N : ℕ → Bool) (stations : List Sta) (infos : List StaInfo)
    (tq : TimeoutQueue Ref) (nodes : List Node) : Type 0 where
  pub rooted : (a : ℕ) → has_sta a stations ≡ (has_entry a infos || (addr == a))
  pub unique : HasUniqueKeys infos
  pub alive : (q : Ref) → usteer_timeout_isset tq q ≡ true → has_info q infos ≡ true
  pub linked : (q : Ref) → has_info q infos ≡ true → N q.node ≡ true
  pub noded : (p : ℕ) → has_node p nodes ≡ N p
  pub owned : All IsOwn infos

abbrev pub IsSoundWith : ℕ → (ℕ → Bool) → Store → Type 0
IsSoundWith addr N s = IsSoundWithIn addr N s.stations s.infos s.tq (all_nodes s)

-- The invariant, with the nodes that are there.
abbrev pub IsSafe : Store → Type 0
IsSafe s = IsSound (λ p. has_node p (all_nodes s)) s
