-- ===== src/Groups/Service.antt =====
-- What cluster-manager/client/openstack/openstack.go relies on of the volume service, for groups of
-- volumes: the parameter `Train` with laws about what the service holds.
use cdm_center.Prelude.{String, Bool, true, false, none, List, ◌≡◌, ◌==◌, if◌then◌else◌, String-Eq}
use cdm_center.Prelude.Lists.{any, All}
use cdm_center.Cluster.Store.{Result}
use cdm_center.Groups.{Group, UpdateWrapper, GroupSnapshot, Train, join, is_contain_uuid}

pub record Lawful {S : Type 0} (train : Train S) : Type 0 where
  -- what the service holds: groups, volumes of a group, snapshots of a group, types
  pub has_group : String → S → Bool
  pub member : String → String → S → Bool
  pub snapshot_of : String → String → S → Bool
  pub has_type : String → S → Bool
  -- the uuids of volumes, and how the service reads a list of them in one text
  pub is_uuid : String → Bool
  pub names : String → List String
  pub names-join :
      (xs : List String) (v : String)
      → All (λ x. is_uuid x ≡ true) xs
      → is_contain_uuid v (names (join xs)) ≡ is_contain_uuid v xs
  pub show-member :
      (g : String) (s : S) (group : Group)
      → train.show_group g s ≡ Result.ok group
      → ((v : String) → is_contain_uuid v group.volumes ≡ member g v s)
        × All (λ v. is_uuid v ≡ true) group.volumes
  -- The volumes of the text are added or removed, and nothing else changes.
  pub update-member :
      (g : String) (w : UpdateWrapper) (s t : S)
      → train.update_group g w s ≡ (t, none)
      → (h v : String)
      → member h v t ≡ (
          if h == g
          then (if is_contain_uuid v (names w.add_volumes)
              then true
              else if is_contain_uuid v (names w.remove_volumes)
              then false
              else member g v s)
          else member h v s)
  pub update-kept :
      (g : String) (w : UpdateWrapper) (s t : S)
      → train.update_group g w s ≡ (t, none)
      → ((h : String) → has_group h t ≡ has_group h s)
        × ((x h : String) → snapshot_of x h t ≡ snapshot_of x h s)
        × ((y : String) → has_type y t ≡ has_type y s)
  pub list-snapshot :
      (s : S) (xs : List GroupSnapshot) (x g : String)
      → train.list_snapshots s ≡ Result.ok xs
      → any (λ y. if y.id == x then y.group_id == g else false) xs ≡ snapshot_of x g s
  pub delete_snapshot-kept :
      (x : String) (s t : S)
      → train.delete_snapshot x s ≡ (t, none)
      → ((y h : String) → snapshot_of y h t ≡ (if x == y then false else snapshot_of y h s))
        × ((h : String) → has_group h t ≡ has_group h s)
        × ((y : String) → has_type y t ≡ has_type y s)
  pub delete_group-kept :
      (g : String) (s t : S)
      → train.delete_group g false s ≡ (t, none)
      → ((h : String) → has_group h t ≡ (if h == g then false else has_group h s))
        × ((x h : String) → snapshot_of x h t ≡ snapshot_of x h s)
        × ((y : String) → has_type y t ≡ has_type y s)
  pub delete_type-kept :
      (y : String) (s t : S)
      → train.delete_type y s ≡ (t, none)
      → ((z : String) → has_type z t ≡ (if z == y then false else has_type z s))
        × ((h : String) → has_group h t ≡ has_group h s)
        × ((x h : String) → snapshot_of x h t ≡ snapshot_of x h s)
