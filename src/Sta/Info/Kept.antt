-- ===== src/Sta/Info/Kept.antt =====
-- With a timeout that is set, an update keeps the entry.
use usteer.Base.{
  false, find?, ℕ, ◌≡◌, ◌∙◌, refl, Bool, true, ℤ, pos, ◌==◌, ltb_ℤ, to_i32, arith, Bool-cases, inl,
  inr,
}
use usteer.Base.Avl.{AvlTree}
use usteer.State.Config.{Config}
use usteer.State.Node.{Node}
use usteer.State.Station.{Ref, ref_eq, StaInfo, Sta}
use usteer.State.Store.{Store, put_info}
use usteer.State.Store.Entries.{has_info, any-put_info}
use usteer.Sta.Info.{
  usteer_sta_get, usteer_sta_info_get, updated_info, usteer_sta_info_update,
  usteer_sta_info_update_timeout, find_sta, by_addr,
}
use usteer.Sta.Info.Get.{usteer_sta_info_get_create}

-- The timeout of an entry, as an int, is above 0.
abbrev pub KeepsEntries : Config → Type 0
KeepsEntries c = ltb_ℤ (pos 0) (to_i32 c.local_sta_timeout) ≡ true

armed-has_info :
    (avl : AvlTree) (q : Ref) (si : StaInfo) (timeout : ℤ) (s : Store)
    → ltb_ℤ (pos 0) timeout ≡ true
    → has_info q (usteer_sta_info_update_timeout avl si timeout s).infos ≡ has_info q s.infos
unfolding usteer_sta_info_update_timeout
armed-has_info avl q si timeout s h = elim (Bool-cases (si.connected == 1)) [
  | inl e ↦ rw e refl
  | inr e ↦ rw (e, h) refl
]

pub usteer_sta_info_update-has_info :
    (avl : AvlTree) (q : Ref) (si : StaInfo) (signal : ℤ) (avg : Bool) (s : Store)
    → KeepsEntries s.config
    → has_info q (usteer_sta_info_update avl si signal avg s).infos ≡ has_info q s.infos
unfolding usteer_sta_info_update put_info
usteer_sta_info_update-has_info avl q si signal avg s h =
    let si' = updated_info avl si signal avg s.current_time in
    armed-has_info avl q si' (to_i32 s.config.local_sta_timeout) (put_info si' s) h
    ∙ any-put_info (λ r. ref_eq r q) si' s

-- The settings are not touched.
pub usteer_sta_get-config :
    (avl : AvlTree) (addr : ℕ) (s : Store) → (usteer_sta_get avl addr true s).1.config ≡ s.config
unfolding usteer_sta_get find_sta by_addr
usteer_sta_get-config avl addr s = ground arith

pub usteer_sta_info_get-config :
    (addr : ℕ) (n : Node) (s : Store) → (usteer_sta_info_get addr n true s).1.config ≡ s.config
usteer_sta_info_get-config addr n s = ground (arith, usteer_sta_info_get_create addr n s)

-- Without `create` a station is only looked for.
pub usteer_sta_get-find :
    (avl : AvlTree) (addr : ℕ) (s : Store)
    → (usteer_sta_get avl addr false s).0 ≡ find? (λ (t : Sta). t.addr == addr) s.stations
unfolding usteer_sta_get find_sta
usteer_sta_get-find avl addr s = ground arith
