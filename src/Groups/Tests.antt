-- ===== src/Groups/Tests.antt =====
-- Runs on a service with one group.
mod OneGroup
mod GroupLaws
mod OneType
use cdm_center.Prelude.{
  ℕ, String, Bool, true, false, not, Option, none, some, List, [], ◌∷◌, ◌≡◌, refl, arith, ◌<◌, ◌≤◌,
  ◌+◌, ◌*◌, if◌then◌else◌, ◌==◌, String-Eq,
}
use Prim.Native.String.{◌++◌}
use cdm_center.Prelude.Lists.{length}
use cdm_center.Errors.{Error}
use cdm_center.Cluster.Store.{Result}
use cdm_center.Groups.{
  Group, VolumeGroup, UpdateRequest, join, is_contain_uuid, part_bounds, slice, slice_at,
  get_part_volumes, list_of, keep, add_volumes_of, del_volumes_of, continue_with, update_wrapper,
  update_part, update_parts, update_shown, update_volume_group,
}
use cdm_center.Groups.Creation.{undo_group, created, create_typed, create_volume_group}
use cdm_center.Groups.Deletion.{
  delete_snapshots, remove_part, remove_parts, remove_volumes, delete_rest, delete_listed,
  delete_shown, delete_volume_group,
}
use cdm_center.Groups.Parts.{part_bounds_within, get_part_volumes-chunk, chunk}
use cdm_center.Groups.Update.{update_volume_group-member, update_volume_group-returns}
use cdm_center.Groups.Delete.{delete_volume_group-Gone, delete_volume_group-returns}
use cdm_center.Groups.Create.{create_volume_group-undone}
use cdm_center.Groups.Rounds.{update_parts-chunks, update_chunks}
use cdm_center.Groups.Tests.OneGroup.{
  grouped, nothing, World, group_of, service, has_member, has_the_group, has_the_type,
  has_the_snapshot,
}
use cdm_center.Groups.Tests.GroupLaws.{service_laws}
use cdm_center.Groups.Tests.OneType.{creating}

abbrev empty_group : World
empty_group = record { level = grouped; volume = false; snapshot = true }

abbrev full_group : World
full_group = record { level = grouped; volume = true; snapshot = true }

abbrev bare : World
bare = record { level = nothing; volume = false; snapshot = false }

abbrev add_v : UpdateRequest
add_v = record {
  volume_group = record { uuid = "g"; name = "group"; description = ""; storages = [] };
  add_volumes = "v" ∷ [];
  del_volumes = [];
}

add_v_run : update_volume_group service add_v 3 empty_group ≡ some (full_group, none)
unfolding update_volume_group update_shown update_parts update_part get_part_volumes slice_at slice
    part_bounds add_volumes_of del_volumes_of keep is_contain_uuid continue_with update_wrapper join
    list_of
add_v_run = refl

part_bounds_within_example : ((6 < 8) × (8 ≤ 8) × (8 ≤ 6 + 6) × (6 ≡ 1 * 6))
unfolding part_bounds
part_bounds_within_example = part_bounds_within 1 8 6 8 refl

update_volume_group-member_example : has_member "g" "v" full_group ≡ true
unfolding is_contain_uuid
update_volume_group-member_example =
    update_volume_group-member service add_v service_laws (group_of empty_group) 3 empty_group
      full_group (refl, tt) tt refl add_v_run "g" "v"

update_parts-chunks_example :
    update_parts service add_v ("v" ∷ []) [] 3 0 empty_group
    ≡ update_chunks service add_v ("v" ∷ []) [] 3 empty_group
update_parts-chunks_example = update_parts-chunks service add_v ("v" ∷ []) [] 3 0 empty_group

delete_run :
    delete_volume_group service "g" 3 full_group
    ≡ some (record { level = nothing; volume = false; snapshot = false }, none)
unfolding delete_volume_group delete_shown delete_listed delete_snapshots remove_volumes
    remove_parts remove_part get_part_volumes slice_at slice part_bounds continue_with delete_rest
    join is_contain_uuid
delete_run = refl

delete_volume_group-Gone_example :
    ((h : String) → has_the_group h bare ≡ (if h == "g" then false else has_the_group h full_group))
    × ((x h : String)
        → has_the_snapshot x h bare
          ≡ (if has_the_snapshot x "g" full_group then false else has_the_snapshot x h full_group))
    × ((y : String) → has_the_type y bare ≡ (if y == "t" then false else has_the_type y full_group))
delete_volume_group-Gone_example =
    delete_volume_group-Gone service service_laws "g" (group_of full_group) 3 full_group bare refl
      delete_run

update_volume_group-returns_example :
    (r : World × Option Error) × (update_volume_group service add_v 3 empty_group ≡ some r)
update_volume_group-returns_example =
    update_volume_group-returns service add_v 3 empty_group (omega arith)

abbrev bad : VolumeGroup
bad = record { uuid = ""; name = "bad"; description = ""; storages = "ceph" ∷ [] }

bad_run : create_volume_group service bad bare ≡ (bare, Result.error (Error.other "timeout"))
unfolding create_volume_group create_typed created undo_group
bad_run = refl

bad_error : (create_volume_group service bad bare).1 ≡ Result.error (Error.other "timeout")
unfolding create_volume_group create_typed created undo_group
bad_error = refl

create_volume_group-undone_example :
    ((h : String) → has_the_group h (create_volume_group service bad bare).0 ≡ has_the_group h bare)
    × ((y : String) → has_the_type y (create_volume_group service bad bare).0 ≡ has_the_type y bare)
create_volume_group-undone_example =
    create_volume_group-undone service service_laws creating bad bare (Error.other "timeout")
      bad_error refl
