-- ===== src/Remote/Vendor/Sound.antt =====
-- The vendor update keeps the invariant of stations, entries, timeouts and nodes.
use usteer.Base.{
  ℕ, ◌≡◌, subst, Bool, List, [], ◌∷◌, Option, some, String, arith, Option-cases, Bool-cases, inl,
  inr, leb,
}
use usteer.State.Node.{LocalNode}
use usteer.State.Store.{Store, set_vendor_elements, send, usteer_update_time}
use usteer.Sta.Info.Invariant.{IsSound, IsSafe}
use usteer.Sta.Info.Nodes.{IsSound-IsSafe}
use usteer.Remote.Send.{Interface}
use usteer.Remote.Sound.{update_time-IsSound}
use usteer.Remote.Vendor.{
  StringBuffer, IfAddr, usteer_vendor_get, set_each_vendor, usteer_vendor_set,
  usteer_vendor_update_timer,
}

module _ (buf : StringBuffer) (if_nametoindex : String → ℕ) (interfaces : List Interface) where
  set_each_vendor-IsSound :
      {N : ℕ → Bool} (elements : List ℕ) (lns : List LocalNode) (s : Store)
      → IsSound N s
      → IsSound N (set_each_vendor buf if_nametoindex interfaces elements lns s)
  unfolding set_each_vendor
  set_each_vendor-IsSound elements [] s h = h
  set_each_vendor-IsSound elements (ln ∷ lns) s h =
      set_each_vendor-IsSound elements lns (send (set_vendor_elements ln.obj_id elements) s) h

  usteer_vendor_set-IsSound :
      {N : ℕ → Bool} (ifaddr : Option (List IfAddr)) (s s' : Store)
      → usteer_vendor_set buf if_nametoindex interfaces ifaddr s ≡ some s'
      → IsSound N s
      → IsSound N s'
  unfolding usteer_vendor_set
  usteer_vendor_set-IsSound {N} ifaddr s s' e h =
      elim (Option-cases (usteer_vendor_get buf if_nametoindex interfaces ifaddr)) [
        | inl q ↦ absurd (ground arith)
        | inr (got, q) ↦ elim (Bool-cases (leb got.0 4)) [
          | inl few ↦ let p : s ≡ s' = ground arith in subst (IsSound N) p h
          | inr more ↦
              let p : set_each_vendor buf if_nametoindex interfaces got.1 s.local_nodes s ≡ s' =
                ground arith in
              subst (IsSound N) p (set_each_vendor-IsSound got.1 s.local_nodes s h)
        ]
      ]

  pub usteer_vendor_update_timer-IsSafe :
      (ifaddr : Option (List IfAddr)) (delay : ℕ) (s s' : Store)
      → usteer_vendor_update_timer buf if_nametoindex interfaces ifaddr s ≡ some (delay, s')
      → IsSafe s
      → IsSafe s'
  unfolding usteer_vendor_update_timer
  usteer_vendor_update_timer-IsSafe ifaddr delay s s' e h =
      let now = usteer_update_time s in
      elim (Option-cases (usteer_vendor_set buf if_nametoindex interfaces ifaddr now)) [
        | inl q ↦ absurd (ground arith)
        | inr (s1, q) ↦
            let p : s1 ≡ s' = ground arith in
            subst IsSafe p (
              IsSound-IsSafe s1
                (usteer_vendor_set-IsSound ifaddr now s1 q (update_time-IsSound s h)))
      ]
