-- ===== src/Groups/Creation.antt =====
-- `CreateVolumeGroup` of cluster-manager/client/openstack/openstack.go.
use cdm_center.Prelude.{String, true, false, Option, none, some, [], String-Eq, ℕ-Eq}
use cdm_center.Errors.{Error}
use cdm_center.Steps.{Made}
use cdm_center.Cluster.Store.{Result}
use cdm_center.Groups.{Group, VolumeGroup, Train}

module _ {S : Type 0} (train : Train S) where
  -- the deferred function, where `rollback` is true; its errors are only logged
  unfoldable pub undo_group : String → Option Group → S → S
  undo_group type_id none s = (train.delete_type type_id s).0
  undo_group type_id (some group) s =
      (train.delete_type type_id (train.delete_group group.id false s).0).0

  unfoldable pub created : String → S × Made Group → S × Result VolumeGroup Error
  unfolding undo_group
  created type_id (s, Made.refused e) = (undo_group type_id none s, Result.error e)
  created type_id (s, Made.broken group e) = (undo_group type_id (some group) s, Result.error e)
  created type_id (s, Made.made g) = (
    s,
    Result.ok (record { uuid = g.id; name = g.name; description = g.description; storages = [] }),
  )

  unfoldable pub create_typed : VolumeGroup → S × Result String Error → S × Result VolumeGroup Error
  unfolding created
  create_typed vg (s, Result.error e) = (s, Result.error e)
  create_typed vg (s, Result.ok type_id) = created type_id (
      train.create_group
        (record {
          id = "";
          name = vg.name;
          description = vg.description;
          group_type = type_id;
          volume_types = vg.storages;
          volumes = [];
        })
        s)

  unfoldable pub create_volume_group : VolumeGroup → S → S × Result VolumeGroup Error
  unfolding create_typed
  create_volume_group vg s = create_typed vg (
      train.create_type (record { name = vg.name; description = vg.description; is_public = true })
        s)
