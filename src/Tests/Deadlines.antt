-- ===== src/Tests/Deadlines.antt =====
-- Timeouts around the wrap of the 32-bit clock.
use usteer.Base.{
  ℕ, ◌+◌, ◌-◌, ◌^◌, ◌≡◌, ◌⊎◌, refl, List, [], ◌∷◌, map, some, false, if◌then◌else◌, u32, pos, arith,
}
use usteer.Timeout.{TimeoutQueue, usteer_timeout_set, expire_round}
use usteer.Timeout.Deadlines.{Deadline, timeout_of, Represents, deadline_of}
use usteer.Timeout.Set.{wait_for, first_of, usteer_timeout_set-Represents}
use usteer.Timeout.Due.{due, is_any, fire_each, expire_round-fire_each}
use usteer.State.Station.{Ref, ref_eq, ref_key}
use usteer.State.Store.{Store}
use usteer.Sta.Info.{usteer_sta_info_timeout}
use usteer.Sta.Info.Expiry.{queue_of, put_queue}
use usteer.Tests.Data.{network, ref_a, ref_b}
use usteer.Tests.Avl.{sorted_list}
use usteer.State.Station.{idle}

-- Five milliseconds before the wrap, and one timeout that is over five after it.
abbrev now : ℕ
now = 2 ^ 32 - 5

abbrev later : List (Deadline Ref)
later = (ref_b, 2 ^ 32 + 5) ∷ []

abbrev waiting : TimeoutQueue Ref
waiting = record { tree = map timeout_of later; timer = some (pos 10) }

waiting-Represents : Represents now waiting later
waiting-Represents = record {
  tree = refl;
  near = ((omega arith, omega arith), tt);
  sorted = (tt, tt);
}

usteer_timeout_set-Represents_example :
    (let q' = usteer_timeout_set sorted_list (u32 now) waiting ref_a (pos 3) in
      (ds' : List (Deadline Ref)) × Represents now q' ds'
      × ((b : Ref)
          → deadline_of b ds' ≡ (if ref_eq ref_a b then some (now + 3) else deadline_of b later))
      × (((q'.timer ≡ some (pos 10)) × (first_of ds' ≡ first_of later))
          ⊎ ((x : Deadline Ref) × (first_of ds' ≡ some x) × (q'.timer ≡ some (wait_for now x.1)))))
usteer_timeout_set-Represents_example =
    usteer_timeout_set-Represents sorted_list now 3 waiting ref_a later waiting-Represents
      (omega arith)

abbrev full : Store
full = put_queue waiting (network idle)

-- Six milliseconds after the wrap the timeout is over.
expire_round-fire_each_example :
    expire_round queue_of put_queue usteer_sta_info_timeout
      (u32 (2 ^ 32 + 6))
      (queue_of full).tree
      false
      full
    ≡ (
      is_any (due (2 ^ 32 + 6) later),
      fire_each queue_of put_queue usteer_sta_info_timeout (due (2 ^ 32 + 6) later) full,
    )
expire_round-fire_each_example =
    expire_round-fire_each queue_of put_queue usteer_sta_info_timeout (2 ^ 32 + 6) later full
      (record { tree = refl; near = ((omega arith, omega arith), tt); sorted = (tt, tt) })
