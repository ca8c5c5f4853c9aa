-- ===== src/Sta/Info/Cleanup.antt =====
-- Which entries are left when a node goes, or a station's entry is deleted.
use usteer.Base.{
  inl, inr, ◌⊎◌, ℤ, pos, ltb_ℤ, none, Bool-cases, ℕ, ◌≡◌, refl, not, ◌&&◌, List, [], ◌∷◌, ◌==◌,
  arith, ◌∙◌,
}
use usteer.Base.Avl.{AvlTree}
use usteer.State.Station.{Ref, ref_eq_iff, StaInfo}
use usteer.State.Store.{find_info, Store, of_node, update_node}
use usteer.State.Store.Entries.{has_info, update_node-rest}
use usteer.Sta.Info.{
  usteer_sta_info_update_timeout, remove_info, usteer_sta_del, usteer_sta_info_del, del_each,
  drop_rrm_nr, usteer_sta_node_cleanup,
}
use usteer.Sta.Info.Sound.{remove_info-has_info}

usteer_sta_info_del-infos :
    (r : Ref) (s : Store) → (usteer_sta_info_del r s).infos ≡ remove_info r s.infos
unfolding usteer_sta_info_del usteer_sta_del
usteer_sta_info_del-infos r s = ground arith

del_each-has_info :
    (q : Ref) (sis : List StaInfo) (s : Store)
    → has_info q (del_each sis s).infos ≡ (has_info q s.infos && not (has_info q sis))
unfolding del_each
del_each-has_info q [] s = ground arith
del_each-has_info q (x ∷ xs) s =
    let infos = usteer_sta_info_del-infos x.self s in
    del_each-has_info q xs (usteer_sta_info_del x.self s)
    ∙ rw infos (ground (arith, remove_info-has_info x.self q s.infos))

of_node-has_info :
    (q : Ref) (p : ℕ) (xs : List StaInfo)
    → has_info q (of_node p xs) ≡ (has_info q xs && (q.node == p))
of_node-has_info q p [] = refl
of_node-has_info q p (x ∷ xs) = ground (arith, of_node-has_info q p xs, ref_eq_iff x.self q)

-- When a node goes, exactly its own entries go with it.
pub usteer_sta_node_cleanup-has_info :
    (p : ℕ) (q : Ref) (s : Store)
    → has_info q (usteer_sta_node_cleanup p s).infos ≡ (has_info q s.infos && not (q.node == p))
unfolding usteer_sta_node_cleanup
usteer_sta_node_cleanup-has_info p q s =
    del_each-has_info q (of_node p s.infos) (update_node p drop_rrm_nr s)
    ∙ rw (update_node-rest p drop_rrm_nr s) (ground (arith, of_node-has_info q p s.infos))

-- A deleted entry is not found.
pub find_info-remove_info : (r : Ref) (xs : List StaInfo) → find_info r (remove_info r xs) ≡ none
unfolding remove_info
find_info-remove_info r [] = refl
find_info-remove_info r (x ∷ xs) = ground (arith, find_info-remove_info r xs)

-- Renewing a timeout leaves the entries, or deletes the one.
pub update_timeout-infos :
    (avl : AvlTree) (si : StaInfo) (timeout : ℤ) (s : Store)
    → ((usteer_sta_info_update_timeout avl si timeout s).infos ≡ s.infos)
      ⊎ ((usteer_sta_info_update_timeout avl si timeout s).infos ≡ remove_info si.self s.infos)
unfolding usteer_sta_info_update_timeout
update_timeout-infos avl si timeout s = elim (Bool-cases (si.connected == 1)) [
  | inl stays ↦ rw stays (inl refl)
  | inr leaves ↦ elim (Bool-cases (ltb_ℤ (pos 0) timeout)) [
    | inl armed ↦ rw (leaves, armed) (inl refl)
    | inr now ↦ rw (leaves, now) (inr (usteer_sta_info_del-infos si.self s))
  ]
]
