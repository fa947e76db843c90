-- ===== src/Groups/Deletion.antt =====
-- `DeleteVolumeGroup` of cluster-manager/client/openstack/openstack.go.
use cdm_center.Prelude.{
  ℕ, zero, suc, String, true, false, Option, none, some, List, [], ◌∷◌, ◌==◌, if◌then◌else◌,
  String-Eq, ℕ-Eq,
}
use cdm_center.Errors.{Error, is_client_not_found}
use cdm_center.Steps.{and_then}
use cdm_center.Cluster.Store.{Result}
use cdm_center.Groups.{Group, GroupSnapshot, Train, Outcome, join, get_part_volumes, continue_with}

module _ {S : Type 0} (train : Train S) where
  unfoldable pub delete_snapshots : String → List GroupSnapshot → S → S × Option Error
  unfolding and_then
  delete_snapshots uuid [] s = (s, none)
  delete_snapshots uuid (x ∷ xs) s = elim (x.group_id == uuid) [
    | false ↦ delete_snapshots uuid xs s
    | true ↦ and_then (train.delete_snapshot x.id s) (delete_snapshots uuid xs)
  ]

  -- one round of the loop that takes the volumes out of a group
  unfoldable pub remove_part :
      String → Option (List String) → S → (S → Outcome train) → (S → Outcome train) → Outcome train
  unfolding continue_with join
  remove_part uuid none s done next = done s
  remove_part uuid (some vs) s done next =
      continue_with train
        (train.update_group uuid
          (record { name = ""; description = ""; add_volumes = ""; remove_volumes = join vs }) s)
        next

  unfoldable pub remove_parts :
      String → List String → (S → Outcome train) → ℕ → ℕ → S → Outcome train
  unfolding remove_part get_part_volumes
  remove_parts uuid volumes done zero index s = none
  remove_parts uuid volumes done (suc fuel) index s =
      remove_part uuid (get_part_volumes index volumes) s done
        (remove_parts uuid volumes done fuel (suc index))

  -- `if len(groupRsp.Group.Volumes) > 0`
  unfoldable pub remove_volumes : String → List String → (S → Outcome train) → ℕ → S → Outcome train
  unfolding remove_parts
  remove_volumes uuid [] done fuel s = done s
  remove_volumes uuid (v ∷ vs) done fuel s = remove_parts uuid (v ∷ vs) done fuel 0 s

  -- the group, then its type
  unfoldable pub delete_rest : String → Group → S → S × Option Error
  unfolding and_then
  delete_rest uuid group s =
      and_then (train.delete_group uuid false s) (train.delete_type group.group_type)

  unfoldable pub delete_listed :
      String → Group → ℕ → S → Result (List GroupSnapshot) Error → Outcome train
  unfolding continue_with delete_snapshots remove_volumes delete_rest
  delete_listed uuid group fuel s (Result.error e) = some (s, some e)
  delete_listed uuid group fuel s (Result.ok snapshots) =
      continue_with train (delete_snapshots uuid snapshots s)
        (remove_volumes uuid group.volumes (λ t. some (delete_rest uuid group t)) fuel)

  unfoldable pub delete_shown : String → ℕ → S → Result Group Error → Outcome train
  unfolding delete_listed
  delete_shown uuid fuel s (Result.error e) =
      if is_client_not_found e then some (s, none) else some (s, some e)
  delete_shown uuid fuel s (Result.ok group) =
      delete_listed uuid group fuel s (train.list_snapshots s)

  unfoldable pub delete_volume_group : String → ℕ → S → Outcome train
  unfolding delete_shown
  delete_volume_group uuid fuel s = delete_shown uuid fuel s (train.show_group uuid s)
