-- ===== src/Sta/Event/Total.antt =====
-- The handler of an event of a station returns.
use usteer.Base.{ℕ, ◌≡◌, ◌≢◌, ◌∙◌, Bool, true, false, none, arith, ℤ, Option-cases, inl, inr}
use usteer.Base.Avl.{AvlTree}
use usteer.State.Node.{Node}
use usteer.State.Station.{EventType, ref_eq, StaInfo}
use usteer.State.Store.{Store, find_info, put_info}
use usteer.State.Store.Entries.{any-put_info, has_info, has_info-find_info, find_info-self}
use usteer.Sta.Info.{usteer_sta_get, usteer_sta_info_get, usteer_sta_info_update}
use usteer.Sta.Info.Get.{key_of}
use usteer.Sta.Info.Invariant.{IsOwn, IsSound}
use usteer.Sta.Info.Known.{find_info-IsOwn}
use usteer.Sta.Info.Sound.{put_info-IsSound, usteer_sta_info_update-IsSound}
use usteer.Sta.Info.Made.{usteer_sta_get-IsSoundWith, usteer_sta_info_get-IsMade}
use usteer.Sta.Info.Kept.{
  KeepsEntries, usteer_sta_info_update-has_info, usteer_sta_get-config, usteer_sta_info_get-config,
}
use usteer.Sta.Event.{asked, put_seen, answer_event, usteer_handle_sta_event}
use usteer.Sta.Event.Sound.{put_seen-IsSoundWith}
use usteer.Policy.Candidate.Linked.{has_info-find, has_info-IsLinkedInfo, IsSound-IsLinked}
use usteer.Policy.Admission.Decision.{usteer_check_request_total}

answer_event_total :
    {N : ℕ → Bool} (si : StaInfo) (type : EventType) (create : Bool) (s : Store)
    → has_info si.self s.infos ≡ true
    → IsOwn si
    → IsSound N s
    → answer_event si type create s ≢ none
unfolding answer_event
answer_event_total {N} si type create s there own h e =
    let si1 = asked si type s in
    let s1 = put_info si1 s in
    let k : IsSound N s1 = put_info-IsSound si1 s own h in
    let there1 : has_info si1.self s1.infos ≡ true =
      any-put_info (λ r. ref_eq r si.self) si1 s ∙ there in
    ground (
      arith,
      usteer_check_request_total s1 si1 type (IsSound-IsLinked s1 k)
          (has_info-IsLinkedInfo s1 si1 there1 own k),
    )

-- Where entries are kept for some time, each event of a station at a node is answered.
pub usteer_handle_sta_event_total :
    {N : ℕ → Bool} (avl : AvlTree) (n : Node) (addr : ℕ) (type : EventType) (freq signal : ℤ)
    (s : Store)
    → KeepsEntries s.config
    → N n.ptr ≡ true
    → IsSound N s
    → usteer_handle_sta_event avl n addr type freq signal s ≢ none
unfolding usteer_handle_sta_event put_seen
usteer_handle_sta_event_total avl n addr type freq signal s c node h e =
    let s0 = (usteer_sta_get avl addr true s).1 in
    let s1 = put_seen freq addr s0 in
    let m =
      usteer_sta_info_get-IsMade addr n s1 node
        (put_seen-IsSoundWith freq addr addr s0 (usteer_sta_get-IsSoundWith avl addr s h)) in
    let found = m.found in
    let s2 : Store = (usteer_sta_info_get addr n true s1).1 in
    let s3 = usteer_sta_info_update avl m.si signal false s2 in
    let same : s2.config ≡ s.config =
      usteer_sta_info_get-config addr n s1 ∙ usteer_sta_get-config avl addr s in
    let there : has_info m.si.self s2.infos ≡ true =
      rw m.key (has_info-find_info (key_of addr n) m.si s2.infos m.there) in
    let there3 : has_info m.si.self s3.infos ≡ true =
      usteer_sta_info_update-has_info avl m.si.self m.si signal false s2 (rw same c) ∙ there in
    let k = usteer_sta_info_update-IsSound avl m.si signal false s2 there m.own m.sound in
    elim (Option-cases (find_info m.si.self s3.infos)) [
      | inl q ↦ has_info-find m.si.self s3.infos there3 q
      | inr (si', q) ↦
          let there' : has_info si'.self s3.infos ≡ true =
            rw (find_info-self m.si.self si' s3.infos q) there3 in
          answer_event_total si' type m.create s3 there'
            (find_info-IsOwn m.si.self si' s3.infos q k.owned) k (ground arith)
    ]
