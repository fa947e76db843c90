-- ===== src/Groups/Update.antt =====
-- `UpdateVolumeGroup` of cluster-manager/client/openstack/openstack.go: the
-- volumes of the group behind it, and that it returns.
use cdm_center.Prelude.{
  ℕ, zero, suc, ◌+◌, ◌≤◌, ◌<◌, String, Bool, true, false, not, ◌&&◌, Option, none, some, List, [],
  ◌∷◌, ◌≡◌, sym, ◌∙◌, arith, Bool-cases, inl, inr, if◌then◌else◌, ◌==◌, String-Eq, eq_iff, eq_refl,
}
use cdm_center.Prelude.Lists.{length, take, drop, All}
use cdm_center.Errors.{Error, is_client_not_found}
use cdm_center.Cluster.Store.{Result}
use cdm_center.Groups.{
  Group, UpdateRequest, Train, is_contain_uuid, keep, add_volumes_of, del_volumes_of,
  update_wrapper, update_parts, update_shown, update_volume_group,
}
use cdm_center.Groups.Service.{Lawful}
use cdm_center.Groups.Rounds.{
  contains-take-drop, All-take, All-drop, continue_with_inv, update_chunks, update_parts-chunks,
  round, update_part-chunk, update_chunks_total,
}

contains-keep :
    (test : String → Bool) (v : String) (xs : List String)
    → is_contain_uuid v (keep test xs) ≡ (test v && is_contain_uuid v xs)
unfolding keep is_contain_uuid
contains-keep test v [] = ground arith
contains-keep test v (x ∷ xs) = ground (arith, eq_iff v x, contains-keep test v xs)

module _ (P : String → Type 0) where
  All-keep : (test : String → Bool) (xs : List String) → All P xs → All P (keep test xs)
  unfolding keep
  All-keep test [] h = tt
  All-keep test (x ∷ xs) h = elim (Bool-cases (test x)) [
    | inl e ↦ rw e (h.0, All-keep test xs h.1)
    | inr e ↦ rw e (All-keep test xs h.1)
  ]

module _ {S : Type 0} (train : Train S) (req : UpdateRequest) (law : Lawful train) where
  abbrev group_id : String
  group_id = req.volume_group.uuid

  -- The volumes behind additions and removals.
  abbrev pub Changed : List String → List String → S → S → Type 0
  Changed adds dels s t =
      (h v : String)
      → law.member h v t ≡ (
          if h == group_id
          then (if is_contain_uuid v adds
              then true
              else if is_contain_uuid v dels
              then false
              else law.member group_id v s)
          else law.member h v s)

  abbrev pub Disjoint : List String → List String → Type 0
  Disjoint adds dels = (v : String) → is_contain_uuid v adds ≡ true → is_contain_uuid v dels ≡ false

  abbrev AllUuid : List String → Type 0
  AllUuid = All (λ v. law.is_uuid v ≡ true)

  round-Changed :
      (adds dels : List String) (s u : S)
      → AllUuid adds
      → AllUuid dels
      → round train req adds dels s ≡ (u, none)
      → Changed (take 6 adds) (take 6 dels) s u
  unfolding update_wrapper
  round-Changed adds dels s u a d e h v = rw (
    law.update-member group_id _ s u e h v,
    law.names-join (take 6 adds) v (All-take _ 6 adds a),
    law.names-join (take 6 dels) v (All-take _ 6 dels d),
  )

  drop-Disjoint :
      (adds dels : List String) → Disjoint adds dels → Disjoint (drop 6 adds) (drop 6 dels)
  drop-Disjoint adds dels dis v h =
      ground (arith, dis v, contains-take-drop 6 v adds, contains-take-drop 6 v dels)

  Changed-trans :
      (adds dels : List String) (s u t : S)
      → Disjoint adds dels
      → Changed (take 6 adds) (take 6 dels) s u
      → Changed (drop 6 adds) (drop 6 dels) u t
      → Changed adds dels s t
  Changed-trans adds dels s u t dis first rest h v = ground (
    arith,
    dis v,
    first h v,
    first group_id v,
    eq_refl group_id,
    rest h v,
    contains-take-drop 6 v adds,
    contains-take-drop 6 v dels,
  )

  Changed-nil :
      (adds dels : List String) (s t : S) → adds ≡ [] → dels ≡ [] → s ≡ t → Changed adds dels s t
  unfolding is_contain_uuid
  Changed-nil adds dels s t a d e h v = rw (a, d, sym e) (ground (arith, eq_iff h group_id))

  update_chunks-Changed :
      (adds dels : List String) (fuel : ℕ) (s t : S)
      → Disjoint adds dels
      → AllUuid adds
      → AllUuid dels
      → update_chunks train req adds dels fuel s ≡ some (t, none)
      → Changed adds dels s t
  unfolding update_chunks
  update_chunks-Changed adds dels zero s t dis a d e = absurd (ground (arith, e))
  update_chunks-Changed adds dels (suc fuel) s t dis a d e =
      elim (update_part-chunk train req adds dels s
        (update_chunks train req (drop 6 adds) (drop 6 dels) fuel)) [
          | inl p ↦
              let same : some (s, none) ≡ some (t, none) = sym p.2 ∙ e in
              Changed-nil adds dels s t p.0 p.1 (ground (arith, same))
          | inr p ↦
              let (u, here, after) =
                continue_with_inv train (round train req adds dels s)
                  (update_chunks train req (drop 6 adds) (drop 6 dels) fuel) (sym p.1 ∙ e) in
              Changed-trans adds dels s u t dis (round-Changed adds dels s u a d here) (
                update_chunks-Changed (drop 6 adds) (drop 6 dels) fuel u t
                  (drop-Disjoint adds dels dis) (All-drop _ 6 adds a) (All-drop _ 6 dels d) after)
        ]

  chosen-Disjoint :
      (present adds dels : List String)
      → Disjoint (add_volumes_of present adds) (del_volumes_of present dels)
  unfolding add_volumes_of del_volumes_of
  chosen-Disjoint present adds dels v h = ground (
    arith,
    h,
    contains-keep (λ x. not (is_contain_uuid x present)) v adds,
    contains-keep (λ x. is_contain_uuid x present) v dels,
  )

  chosen-member :
      (group : Group) (s t : S)
      → ((v : String) → is_contain_uuid v group.volumes ≡ law.member group_id v s)
      → Changed
          (add_volumes_of group.volumes req.add_volumes)
          (del_volumes_of group.volumes req.del_volumes)
          s
          t
      → (h v : String)
      → law.member h v t ≡ (
          if h == group_id
          then (if law.member group_id v s
              then not (is_contain_uuid v req.del_volumes)
              else is_contain_uuid v req.add_volumes)
          else law.member h v s)
  unfolding add_volumes_of del_volumes_of
  chosen-member group s t shown c h v = ground (
    arith,
    c h v,
    shown v,
    contains-keep (λ x. not (is_contain_uuid x group.volumes)) v req.add_volumes,
    contains-keep (λ x. is_contain_uuid x group.volumes) v req.del_volumes,
  )

  -- If the volumes of the request are named by uuids, the group is found and UpdateVolumeGroup
  -- returns without an error, a volume that was in the group is in it unless the request takes it
  -- out, one that was not is in it exactly if the request adds it, and the other groups have the
  -- volumes that they had.
  pub update_volume_group-member :
      (group : Group) (fuel : ℕ) (s t : S)
      → AllUuid req.add_volumes
      → AllUuid req.del_volumes
      → train.show_group group_id s ≡ Result.ok group
      → update_volume_group train req fuel s ≡ some (t, none)
      → (h v : String)
      → law.member h v t ≡ (
          if h == group_id
          then (if law.member group_id v s
              then not (is_contain_uuid v req.del_volumes)
              else is_contain_uuid v req.add_volumes)
          else law.member h v s)
  unfolding update_volume_group update_shown
  update_volume_group-member group fuel s t a d shown e =
      let adds = add_volumes_of group.volumes req.add_volumes in
      let dels = del_volumes_of group.volumes req.del_volumes in
      let run : update_parts train req adds dels fuel 0 s ≡ some (t, none) = rw shown at e in
      chosen-member group s t (law.show-member group_id s group shown).0 (
        update_chunks-Changed adds dels fuel s t
          (chosen-Disjoint group.volumes req.add_volumes req.del_volumes)
          (unfold add_volumes_of in All-keep _ _ req.add_volumes a)
          (unfold del_volumes_of in All-keep _ _ req.del_volumes d)
          (sym (update_parts-chunks train req adds dels fuel 0 s) ∙ run))

length-keep : (test : String → Bool) (xs : List String) → length (keep test xs) ≤ length xs
unfolding keep
length-keep test [] = omega arith
length-keep test (x ∷ xs) = ground (arith, length-keep test xs)

update_shown_total :
    {S : Type 0} (train : Train S) (req : UpdateRequest) (fuel : ℕ) (s : S) (o : Result Group Error)
    → length req.add_volumes + length req.del_volumes < fuel
    → (r : S × Option Error) × (update_shown train req fuel s o ≡ some r)
unfolding update_shown add_volumes_of del_volumes_of
update_shown_total train req fuel s (Result.error e) h = elim (Bool-cases (is_client_not_found e)) [
  | inl y ↦ ((s, none), rw y)
  | inr n ↦ ((s, some e), rw n)
]
update_shown_total train req fuel s (Result.ok group) h =
    rw (update_parts-chunks train req _ _ fuel 0 s) (
      update_chunks_total train req _ _ fuel s (
        omega (
          arith,
          h,
          length-keep (λ x. not (is_contain_uuid x group.volumes)) req.add_volumes,
          length-keep (λ x. is_contain_uuid x group.volumes) req.del_volumes,
        )))

-- Whatever the service answers, one round more than there are volumes in the request is enough for
-- UpdateVolumeGroup to return.
pub update_volume_group-returns :
    {S : Type 0} (train : Train S) (req : UpdateRequest) (fuel : ℕ) (s : S)
    → length req.add_volumes + length req.del_volumes < fuel
    → (r : S × Option Error) × (update_volume_group train req fuel s ≡ some r)
unfolding update_volume_group
update_volume_group-returns train req fuel s h = update_shown_total train req fuel s _ h
