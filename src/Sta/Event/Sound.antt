-- ===== src/Sta/Event/Sound.antt =====
-- An event of a station keeps the invariant of stations, entries, timeouts and nodes.
use usteer.Base.{
  ℕ, ◌≡◌, ◌∙◌, Bool, true, false, List, [], ◌∷◌, map, some, arith, Option-cases, Bool-cases, inl,
  inr, ℤ, refl,
}
use usteer.Base.Avl.{AvlTree}
use usteer.State.Node.{Node}
use usteer.State.Station.{EventType, StaInfo, Sta}
use usteer.State.Store.{Store, find_info, put_info, sta_update, send}
use usteer.State.Store.Entries.{has_info-find_info}
use usteer.Sta.Info.{usteer_sta_get, usteer_sta_info_get, usteer_sta_info_update}
use usteer.Sta.Info.Get.{key_of}
use usteer.Sta.Info.Invariant.{IsOwn, IsSound, IsSoundWith, carry, has_sta}
use usteer.Sta.Info.Known.{find_info-IsOwn}
use usteer.Sta.Info.Sound.{put_info-IsSound, usteer_sta_info_update-IsSound}
use usteer.Sta.Info.Made.{usteer_sta_get-IsSoundWith, usteer_sta_info_get-IsMade}
use usteer.Sta.Event.{
  asked, mark_seen, update_sta, put_seen, count_answer, with_stats, answer_event,
  usteer_handle_sta_event,
}
use usteer.Policy.Admission.{usteer_check_request}
use usteer.Policy.Admission.Sound.{usteer_check_request-IsSound}

update_sta-has_sta :
    (freq : ℤ) (addr a : ℕ) (ts : List Sta)
    → has_sta a (map (update_sta (mark_seen freq) addr) ts) ≡ has_sta a ts
unfolding update_sta mark_seen
update_sta-has_sta freq addr a [] = refl
update_sta-has_sta freq addr a (t ∷ ts) = ground (arith, update_sta-has_sta freq addr a ts)

-- The flags of a station are no part of the invariant.
pub put_seen-IsSoundWith :
    {N : ℕ → Bool} (freq : ℤ) (addr a : ℕ) (s : Store)
    → IsSoundWith a N s
    → IsSoundWith a N (put_seen freq addr s)
unfolding put_seen
put_seen-IsSoundWith freq addr a s h = record {
  rooted = λ b. update_sta-has_sta freq addr b s.stations ∙ h.rooted b;
  unique = h.unique;
  alive = h.alive;
  linked = h.linked;
  noded = h.noded;
  owned = h.owned;
}

pub put_seen-IsSound :
    {N : ℕ → Bool} (freq : ℤ) (addr : ℕ) (s : Store)
    → IsSound N s
    → IsSound N (put_seen freq addr s)
unfolding put_seen
put_seen-IsSound freq addr s h = record {
  rooted = λ b. update_sta-has_sta freq addr b s.stations ∙ h.rooted b;
  unique = h.unique;
  alive = h.alive;
  linked = h.linked;
  noded = h.noded;
  owned = h.owned;
}

answer_event-IsSound :
    {N : ℕ → Bool} (si : StaInfo) (type : EventType) (create ok : Bool) (s s' : Store)
    → answer_event si type create s ≡ some (ok, s')
    → IsOwn si
    → IsSound N s
    → IsSound N s'
unfolding answer_event
answer_event-IsSound si type create ok s s' e own h =
    let si1 = asked si type s in
    elim (Option-cases (usteer_check_request si1 type (put_info si1 s))) [
      | inl q ↦ absurd (ground arith)
      | inr ((ret, s1), q) ↦
          let k =
            usteer_check_request-IsSound si1 type (put_info si1 s) s1 ret q
              (put_info-IsSound si1 s own h) in
          let si2 = with_stats type (count_answer s.current_time ret) si1 in
          let k' = put_info-IsSound si2 s1 own k in
          elim (Bool-cases create) [
            | inl new ↦
                let p : send (sta_update si2) (put_info si2 s1) ≡ s' = ground arith in carry p k'
            | inr old ↦ let p : put_info si2 s1 ≡ s' = ground arith in carry p k'
          ]
    ]

-- The handler of an event.
pub usteer_handle_sta_event-IsSound :
    {N : ℕ → Bool} (avl : AvlTree) (n : Node) (addr : ℕ) (type : EventType) (freq signal : ℤ)
    (ok : Bool) (s s' : Store)
    → usteer_handle_sta_event avl n addr type freq signal s ≡ some (ok, s')
    → N n.ptr ≡ true
    → IsSound N s
    → IsSound N s'
unfolding usteer_handle_sta_event
usteer_handle_sta_event-IsSound avl n addr type freq signal ok s s' e node h =
    let s1 = put_seen freq addr (usteer_sta_get avl addr true s).1 in
    let m = usteer_sta_info_get-IsMade addr n s1 node (
      put_seen-IsSoundWith freq addr addr (usteer_sta_get avl addr true s).1
        (usteer_sta_get-IsSoundWith avl addr s h)) in
    let found = m.found in
    let s2 : Store = (usteer_sta_info_get addr n true s1).1 in
    let s3 = usteer_sta_info_update avl m.si signal false s2 in
    let k =
      usteer_sta_info_update-IsSound avl m.si signal false s2
        (rw m.key (has_info-find_info (key_of addr n) m.si s2.infos m.there)) m.own m.sound in
    elim (Option-cases (find_info m.si.self s3.infos)) [
      | inl q ↦ absurd (ground arith)
      | inr (si', q) ↦
          answer_event-IsSound si' type m.create ok s3 s' (ground arith)
            (find_info-IsOwn m.si.self si' s3.infos q k.owned) k
    ]
