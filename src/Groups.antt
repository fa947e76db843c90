-- ===== src/Groups.antt =====
-- Groups of volumes: what the requests and answers hold, and `UpdateVolumeGroup` of
-- cluster-manager/client/openstack/openstack.go; Creation and Deletion have `CreateVolumeGroup` and
-- `DeleteVolumeGroup`. The calls of cluster-manager/client/openstack/train are a parameter, whose
-- state is that of the volume service. A loop over parts of a list runs on fuel; `none` says that it
-- ran out.
pub mod Parts
pub mod Deletion
pub mod Creation
pub mod Service
pub mod Rounds
pub mod Update
pub mod Delete
pub mod Create
mod Tests
use cdm_center.Prelude.{
  ℕ, zero, suc, ◌+◌, ◌-◌, ◌*◌, ◌/◌, ◌%◌, String, Bool, true, false, not, Option, none, some, List,
  [], ◌∷◌, ◌==◌, if◌then◌else◌, ltb, String-Eq, ℕ-Eq,
}
use Prim.Native.String.{◌++◌}
use cdm_center.Prelude.Lists.{length, take, drop, any}
use cdm_center.Errors.{Error, is_client_not_found}
use cdm_center.Steps.{Made, and_then}
use cdm_center.Cluster.Store.{Result}

-- `VolumeGroup` of train/storage_volume_group.go, with the fields that the code sends or reads
pub record Group : Type 0 where
  pub id : String
  pub name : String
  pub description : String
  pub group_type : String
  pub volume_types : List String
  pub volumes : List String

-- `UpdateVolumeGroupWrapper`
pub record UpdateWrapper : Type 0 where
  pub name : String
  pub description : String
  pub add_volumes : String
  pub remove_volumes : String

-- a snapshot of a group, with the group's id
pub record GroupSnapshot : Type 0 where
  pub id : String
  pub group_id : String

-- `CreateVolumeGroupTypeRequest`
pub record GroupType : Type 0 where
  pub name : String
  pub description : String
  pub is_public : Bool

-- What the code calls of the package train.
pub record Train (S : Type 0) : Type 0 where
  pub show_group : String → S → Result Group Error
  pub list_snapshots : S → Result (List GroupSnapshot) Error
  pub delete_snapshot : String → S → S × Option Error
  pub update_group : String → UpdateWrapper → S → S × Option Error
  -- the flag: `DeleteVolumes`
  pub delete_group : String → Bool → S → S × Option Error
  pub delete_type : String → S → S × Option Error
  pub create_type : GroupType → S → S × Result String Error
  pub create_group : Group → S → S × Made Group

-- `client.VolumeGroup`, with the uuids of its storages
pub record VolumeGroup : Type 0 where
  pub uuid : String
  pub name : String
  pub description : String
  pub storages : List String

-- `client.UpdateVolumeGroupRequest`, with the uuids of the volumes
pub record UpdateRequest : Type 0 where
  pub volume_group : VolumeGroup
  pub add_volumes : List String
  pub del_volumes : List String

-- `strings.Join(parts, ",")`
unfoldable pub join : List String → String
join [] = ""
join (x ∷ []) = x
join (x ∷ y ∷ ys) = x ++ ("," ++ join (y ∷ ys))

unfoldable pub is_contain_uuid : String → List String → Bool
is_contain_uuid uuid uuids = any (λ item. uuid == item) uuids

-- `limit`
abbrev pub part_limit : ℕ
part_limit = 6

-- the bounds of the slice that `getPartVolumes` returns of a list with n volumes
unfoldable pub part_bounds : ℕ → ℕ → Option (ℕ × ℕ)
part_bounds index n =
    let retry = n / part_limit in
    if ltb retry index
    then none
    else if index == retry
    then (if n % part_limit == 0 then none else some (index * part_limit, n))
    else some (index * part_limit, (index + 1) * part_limit)

-- `volumes[a:b]`
unfoldable pub slice : List String → ℕ × ℕ → List String
slice volumes (a, b) = take (b - a) (drop a volumes)

unfoldable pub slice_at : List String → Option (ℕ × ℕ) → Option (List String)
unfolding slice
slice_at volumes none = none
slice_at volumes (some p) = some (slice volumes p)

unfoldable pub get_part_volumes : ℕ → List String → Option (List String)
unfolding slice_at part_bounds
get_part_volumes index volumes = slice_at volumes (part_bounds index (length volumes))

-- a slice, where nil is one without elements
unfoldable pub list_of : Option (List String) → List String
list_of none = []
list_of (some xs) = xs

-- the loops that fill `addVolumes` and `delVolumes`
unfoldable pub keep : (String → Bool) → List String → List String
keep test [] = []
keep test (v ∷ vs) = let rest = keep test vs in if test v then v ∷ rest else rest

unfoldable pub add_volumes_of : List String → List String → List String
unfolding keep is_contain_uuid
add_volumes_of present = keep (λ v. not (is_contain_uuid v present))

unfoldable pub del_volumes_of : List String → List String → List String
unfolding keep is_contain_uuid
del_volumes_of present = keep (λ v. is_contain_uuid v present)

module _ {S : Type 0} (train : Train S) where
  -- a state and an error, or no fuel
  abbrev pub Outcome : Type 0
  Outcome = Option (S × Option Error)

  -- `if err := ...; err != nil { return err }` in a loop
  unfoldable pub continue_with : S × Option Error → (S → Outcome) → Outcome
  continue_with (t, none) next = next t
  continue_with (t, some e) next = some (t, some e)

  unfoldable pub update_wrapper : UpdateRequest → List String → List String → UpdateWrapper
  unfolding join
  update_wrapper req adds dels = record {
    name = req.volume_group.name;
    description = req.volume_group.description;
    add_volumes = join adds;
    remove_volumes = join dels;
  }

  -- one round of the loop, with the parts of the two lists
  unfoldable pub update_part :
      UpdateRequest → Option (List String) → Option (List String) → S → (S → Outcome) → Outcome
  unfolding continue_with update_wrapper list_of
  update_part req none none s next = some (s, none)
  update_part req none (some dels) s next =
      continue_with
        (train.update_group req.volume_group.uuid (update_wrapper req (list_of none) dels) s) next
  update_part req (some adds) dels s next =
      continue_with
        (train.update_group req.volume_group.uuid (update_wrapper req adds (list_of dels)) s) next

  unfoldable pub update_parts : UpdateRequest → List String → List String → ℕ → ℕ → S → Outcome
  unfolding update_part get_part_volumes
  update_parts req adds dels zero index s = none
  update_parts req adds dels (suc fuel) index s =
      update_part req (get_part_volumes index adds) (get_part_volumes index dels) s
        (update_parts req adds dels fuel (suc index))

  unfoldable pub update_shown : UpdateRequest → ℕ → S → Result Group Error → Outcome
  unfolding update_parts add_volumes_of del_volumes_of
  update_shown req fuel s (Result.error e) =
      if is_client_not_found e then some (s, none) else some (s, some e)
  update_shown req fuel s (Result.ok group) =
      update_parts req (add_volumes_of group.volumes req.add_volumes)
        (del_volumes_of group.volumes req.del_volumes) fuel 0 s

  unfoldable pub update_volume_group : UpdateRequest → ℕ → S → Outcome
  unfolding update_shown
  update_volume_group req fuel s =
      update_shown req fuel s (train.show_group req.volume_group.uuid s)
