-- ===== src/Groups/Delete.antt =====
-- `DeleteVolumeGroup` of cluster-manager/client/openstack/openstack.go: what is gone behind it, and
-- that it returns.
use cdm_center.Prelude.{
  ℕ, zero, suc, ◌+◌, ◌*◌, ◌<◌, String, Bool, false, Option, none, some, List, [], ◌∷◌, ◌≡◌, refl,
  sym, ap, ◌∙◌, arith, Bool-cases, inl, inr, if◌then◌else◌, ◌==◌, String-Eq,
}
use mathlib.Core.Path.{fun_ext}
use cdm_center.Prelude.Lists.{length, take, drop, any}
use cdm_center.Errors.{Error, is_client_not_found}
use cdm_center.Steps.{and_then, and_then_inv}
use cdm_center.Cluster.Store.{Result}
use cdm_center.Groups.{Group, GroupSnapshot, Train, Outcome, join}
use cdm_center.Groups.Deletion.{
  delete_snapshots, remove_part, remove_parts, remove_volumes, delete_rest, delete_listed,
  delete_shown, delete_volume_group,
}
use cdm_center.Groups.Parts.{chunk, get_part_volumes-chunk, drop-drop, length-drop}
use cdm_center.Groups.Service.{Lawful}
use cdm_center.Groups.Rounds.{continue_with_inv, continue_with_total}

-- a snapshot of a group in a list
abbrev listed : String → List GroupSnapshot → String → Bool
listed g xs x = any (λ y. if y.id == x then y.group_id == g else false) xs

module _ {S : Type 0} (train : Train S) where
  module _ (uuid : String) (done : S → Outcome train) where
    -- The loop over what is left of the volumes.
    remove_chunks : List String → ℕ → S → Outcome train
    remove_chunks volumes zero s = none
    remove_chunks volumes (suc fuel) s =
        remove_part train uuid (chunk volumes) s done (remove_chunks (drop 6 volumes) fuel)

    remove_parts-chunks :
        (volumes : List String) (fuel index : ℕ) (s : S)
        → remove_parts train uuid volumes done fuel index s
          ≡ remove_chunks (drop (index * 6) volumes) fuel s
    unfolding remove_parts remove_chunks
    remove_parts-chunks volumes zero index s = refl
    remove_parts-chunks volumes (suc fuel) index s =
        let e : index * 6 + 6 ≡ suc index * 6 = omega arith in
        rw (get_part_volumes-chunk index volumes, drop-drop 6 (index * 6) volumes, e)
          (ap (remove_part train uuid (chunk (drop (index * 6) volumes)) s done)
            (fun_ext (remove_parts-chunks volumes fuel (suc index))))

    abbrev remove_round : List String → S → S × Option Error
    remove_round volumes s =
        train.update_group uuid
          (record { name = ""; description = ""; add_volumes = ""; remove_volumes = join volumes })
          s

    remove_chunks_total :
        (volumes : List String) (fuel : ℕ) (s : S)
        → ((u : S) → (r : S × Option Error) × (done u ≡ some r))
        → length volumes < fuel
        → (r : S × Option Error) × (remove_chunks volumes fuel s ≡ some r)
    unfolding remove_chunks remove_part chunk
    remove_chunks_total volumes zero s end h = absurd (omega (arith, h))
    remove_chunks_total [] (suc fuel) s end h = end s
    remove_chunks_total (v ∷ vs) (suc fuel) s end h =
        continue_with_total train (remove_round (take 6 (v ∷ vs)) s) _ λ u.
          remove_chunks_total (drop 6 (v ∷ vs)) fuel u end
            (omega (arith, h, length-drop 6 (v ∷ vs)))

  module _ (law : Lawful train) where
    -- Groups, snapshots and types are as before.
    abbrev Same : S → S → Type 0
    Same s t =
        ((h : String) → law.has_group h t ≡ law.has_group h s)
        × ((x h : String) → law.snapshot_of x h t ≡ law.snapshot_of x h s)
        × ((y : String) → law.has_type y t ≡ law.has_type y s)

    Same-trans : {s t u : S} → Same s t → Same t u → Same s u
    Same-trans p q = ((λ h. q.0 h ∙ p.0 h), (λ x h. q.1 x h ∙ p.1 x h), (λ y. q.2 y ∙ p.2 y))

    remove_chunks-Same :
        (uuid : String) (done : S → Outcome train) (volumes : List String) (fuel : ℕ) (s t : S)
        → remove_chunks uuid done volumes fuel s ≡ some (t, none)
        → (u : S) × Same s u × (done u ≡ some (t, none))
    unfolding remove_chunks remove_part chunk
    remove_chunks-Same uuid done volumes zero s t e = absurd (ground (arith, e))
    remove_chunks-Same uuid done [] (suc fuel) s t e =
        (s, ((λ h. refl), (λ x h. refl), (λ y. refl)), e)
    remove_chunks-Same uuid done (v ∷ vs) (suc fuel) s t e =
        let (u, here, after) =
          continue_with_inv train (remove_round uuid done (take 6 (v ∷ vs)) s) _ e in
        let (w, same, end) = remove_chunks-Same uuid done (drop 6 (v ∷ vs)) fuel u t after in
        (w, Same-trans (law.update-kept uuid _ s u here) same, end)

    remove_volumes-Same :
        (uuid : String) (volumes : List String) (done : S → Outcome train) (fuel : ℕ) (s t : S)
        → remove_volumes train uuid volumes done fuel s ≡ some (t, none)
        → (u : S) × Same s u × (done u ≡ some (t, none))
    unfolding remove_volumes
    remove_volumes-Same uuid [] done fuel s t e = (s, ((λ h. refl), (λ x h. refl), (λ y. refl)), e)
    remove_volumes-Same uuid (v ∷ vs) done fuel s t e =
        remove_chunks-Same uuid done (v ∷ vs) fuel s t
          (sym (remove_parts-chunks uuid done (v ∷ vs) fuel 0 s) ∙ e)

    -- Exactly the listed snapshots of the group are gone.
    abbrev Cleared : String → List GroupSnapshot → S → S → Type 0
    Cleared g xs s t =
        ((h : String) → law.has_group h t ≡ law.has_group h s)
        × ((x h : String)
            → law.snapshot_of x h t ≡ (if listed g xs x then false else law.snapshot_of x h s))
        × ((y : String) → law.has_type y t ≡ law.has_type y s)

    delete_snapshots-Cleared :
        (g : String) (xs : List GroupSnapshot) (s t : S)
        → delete_snapshots train g xs s ≡ (t, none)
        → Cleared g xs s t
    unfolding delete_snapshots
    delete_snapshots-Cleared g [] s t e =
        let same : s ≡ t = ground (arith, e) in
        rw (sym same) ((λ h. refl), (λ x h. refl), (λ y. refl))
    delete_snapshots-Cleared g (x ∷ xs) s t e = elim (Bool-cases (x.group_id == g)) [
      | inl y ↦
          let run : and_then (train.delete_snapshot x.id s) (delete_snapshots train g xs)
              ≡ (t, none) =
            rw (y, delete_snapshots) at e in
          let (u, here, after) = and_then_inv (train.delete_snapshot x.id s) _ run in
          let one = law.delete_snapshot-kept x.id s u here in
          let more = delete_snapshots-Cleared g xs u t after in
          (
            (λ h. more.0 h ∙ one.1 h),
            (λ z h. ground (arith, y, one.0 z h, more.1 z h)),
            (λ z. more.2 z ∙ one.2 z),
          )
      | inr n ↦
          let run : delete_snapshots train g xs s ≡ (t, none) = rw (n, delete_snapshots) at e in
          let more = delete_snapshots-Cleared g xs s t run in
          (more.0, (λ z h. ground (arith, n, more.1 z h)), more.2)
    ]

    -- What is behind the deletion of a group.
    abbrev Gone : String → String → S → S → Type 0
    Gone g type_id s t =
        ((h : String) → law.has_group h t ≡ (if h == g then false else law.has_group h s))
        × ((x h : String)
            → law.snapshot_of x h t
              ≡ (if law.snapshot_of x g s then false else law.snapshot_of x h s))
        × ((y : String) → law.has_type y t ≡ (if y == type_id then false else law.has_type y s))

    delete_rest-Gone :
        (uuid : String) (group : Group) (xs : List GroupSnapshot) (s u w t : S)
        → train.list_snapshots s ≡ Result.ok xs
        → Cleared uuid xs s u
        → Same u w
        → delete_rest train uuid group w ≡ (t, none)
        → Gone uuid group.group_type s t
    unfolding delete_rest
    delete_rest-Gone uuid group xs s u w t list c same e =
        let (v, here, after) = and_then_inv (train.delete_group uuid false w) _ e in
        let a = law.delete_group-kept uuid w v here in
        let b = law.delete_type-kept group.group_type v t after in
        (
          (λ h. ground (arith, b.1 h, a.0 h, same.0 h, c.0 h)),
          (λ x h.
              ground
                (arith, b.2 x h, a.1 x h, same.1 x h, c.1 x h, law.list-snapshot s xs x uuid list)),
          (λ y. ground (arith, b.0 y, a.2 y, same.2 y, c.2 y)),
        )

    delete_listed-Gone :
        (uuid : String) (group : Group) (fuel : ℕ) (s t : S) (o : Result (List GroupSnapshot) Error)
        → train.list_snapshots s ≡ o
        → delete_listed train uuid group fuel s o ≡ some (t, none)
        → Gone uuid group.group_type s t
    unfolding delete_listed
    delete_listed-Gone uuid group fuel s t (Result.error x) list e = absurd (ground (arith, e))
    delete_listed-Gone uuid group fuel s t (Result.ok xs) list e =
        let (u, here, after) = continue_with_inv train (delete_snapshots train uuid xs s) _ e in
        let (w, same, end) = remove_volumes-Same uuid group.volumes _ fuel u t after in
        delete_rest-Gone uuid group xs s u w t list (delete_snapshots-Cleared uuid xs s u here) same
          (ground (arith, end))

    -- If the group is found and DeleteVolumeGroup returns without an error, the group, its type and
    -- exactly the snapshots of the group are gone, and all other groups, types and snapshots are
    -- there if they were before.
    pub delete_volume_group-Gone :
        (uuid : String) (group : Group) (fuel : ℕ) (s t : S)
        → train.show_group uuid s ≡ Result.ok group
        → delete_volume_group train uuid fuel s ≡ some (t, none)
        → Gone uuid group.group_type s t
    unfolding delete_volume_group delete_shown
    delete_volume_group-Gone uuid group fuel s t shown e =
        delete_listed-Gone uuid group fuel s t _ refl (rw shown at e)

module _ {S : Type 0} (train : Train S) (uuid : String) (fuel : ℕ) where
  remove_volumes_total :
      (volumes : List String) (done : S → Outcome train) (s : S)
      → ((u : S) → (r : S × Option Error) × (done u ≡ some r))
      → length volumes < fuel
      → (r : S × Option Error) × (remove_volumes train uuid volumes done fuel s ≡ some r)
  unfolding remove_volumes
  remove_volumes_total [] done s end h = end s
  remove_volumes_total (v ∷ vs) done s end h =
      rw (remove_parts-chunks train uuid done (v ∷ vs) fuel 0 s)
        (remove_chunks_total train uuid done (v ∷ vs) fuel s end h)

  delete_listed_total :
      (group : Group) (s : S) (o : Result (List GroupSnapshot) Error)
      → length group.volumes < fuel
      → (r : S × Option Error) × (delete_listed train uuid group fuel s o ≡ some r)
  unfolding delete_listed
  delete_listed_total group s (Result.error e) h = ((s, some e), refl)
  delete_listed_total group s (Result.ok xs) h =
      continue_with_total train (delete_snapshots train uuid xs s) _
        λ u. remove_volumes_total group.volumes _ u (λ w. (delete_rest train uuid group w, refl)) h

  delete_shown_total :
      (s : S) (o : Result Group Error)
      → ((group : Group) → o ≡ Result.ok group → length group.volumes < fuel)
      → (r : S × Option Error) × (delete_shown train uuid fuel s o ≡ some r)
  unfolding delete_shown
  delete_shown_total s (Result.error e) h = elim (Bool-cases (is_client_not_found e)) [
    | inl y ↦ ((s, none), rw y)
    | inr n ↦ ((s, some e), rw n)
  ]
  delete_shown_total s (Result.ok group) h = delete_listed_total group s _ (h group refl)

  -- Fuel for one round more than the group has volumes is enough for DeleteVolumeGroup to return,
  -- whatever the service answers.
  pub delete_volume_group-returns :
      (s : S)
      → ((group : Group) → train.show_group uuid s ≡ Result.ok group → length group.volumes < fuel)
      → (r : S × Option Error) × (delete_volume_group train uuid fuel s ≡ some r)
  unfolding delete_volume_group
  delete_volume_group-returns s h = delete_shown_total s _ h
