-- ===== src/Stored.antt =====
-- What the program keeps of storages, volumes and configurations in the store:
-- cluster-manager/storage/storage.go, cluster-manager/volume/volume.go and
-- cluster-manager/config/config.go. Store and encodings are parameters, and so are the keys, which
-- `fmt.Sprintf` and `path.Join` make.
pub mod Merged
mod Tests
use cdm_center.Prelude.{
  ℕ, String, Bool, true, false, not, ◌||◌, Option, none, some, List, [], ◌∷◌, ◌==◌, if◌then◌else◌,
  String-Eq,
}
use cdm_center.Prelude.Dict.{Dict, insert}
use cdm_center.Prelude.Lists.{any}
use cdm_center.Errors.{Error, is_not_found_storage_metadata, is_not_found_volume_metadata}
use cdm_center.Cluster.Store.{Store, Coding, Json, Result}
use cdm_center.Cluster.Status.{set_value, get_value, delete_value}
use cdm_center.Leader.Monitor.{Config}

pub record ClusterStorage : Type 0 where
  pub cluster_id : ℕ
  pub storage_id : ℕ
  pub type_code : String
  pub backend_name : String

pub record ClusterVolume : Type 0 where
  pub cluster_id : ℕ
  pub volume_id : ℕ
  pub volume_uuid : String

-- storage/types.go
unfoldable pub is_cluster_storage_type_code : String → Bool
is_cluster_storage_type_code s =
    any (λ c. s == c)
      ("openstack.storage.type.nfs" ∷ "openstack.storage.type.ceph" ∷ "openstack.storage.type.lvm"
        ∷ "openstack.storage.type.unknown" ∷ [])

-- `for k, v := range md { metadata[k] = v }`
unfoldable pub merge {ℓ} : {V : Type ℓ} → Dict String V → Dict String V → Dict String V
unfolding insert
merge [] metadata = metadata
merge ((k, v) ∷ md) metadata = merge md (insert k v metadata)

-- What `MergeMetadata` merges into: what was read, or an empty map where nothing is stored; an error
-- that is another one is returned.
unfoldable pub merge_base {ℓ} :
    {V : Type ℓ} → (Error → Bool) → Result (Dict String V) Error → Result (Dict String V) Error
merge_base is_missing (Result.ok m) = Result.ok m
merge_base is_missing (Result.error e) = if is_missing e then Result.ok [] else Result.error e

module _ {S : Type 0} {V : Type 0} (st : Store S) (metadata_coding : Coding (Dict String V)) where
  -- `SetMetadata` of the merged map
  unfoldable pub set_merged :
      String → Dict String V → Result (Dict String V) Error → S → Result S Error
  unfolding set_value merge
  set_merged key md (Result.error e) s = Result.error e
  set_merged key md (Result.ok m) s = set_value st metadata_coding key (merge md m) s

  -- The keys of a storage and of its metadata, "clusters/%d/storages/%d" and "metadata" under it
  module _ (json : Json ClusterStorage) (storage_key metadata_key : ℕ → ℕ → String) where
    unfoldable pub get_storage : ℕ → ℕ → S → Result ClusterStorage Error
    unfolding get_value
    get_storage cid sid s =
        get_value st json.coding (storage_key cid sid) (Error.not_found_storage cid sid) s

    unfoldable pub put_storage : ClusterStorage → S → Result S Error
    unfolding set_value is_cluster_storage_type_code
    put_storage c s =
        if not (is_cluster_storage_type_code c.type_code)
        then Result.error (Error.unsupported_storage_type c.type_code)
        else set_value st json.coding (storage_key c.cluster_id c.storage_id) c s

    unfoldable pub delete_storage : ClusterStorage → S → Result S Error
    unfolding delete_value
    delete_storage c s = delete_value st (storage_key c.cluster_id c.storage_id) s

    unfoldable pub get_storage_metadata : ClusterStorage → S → Result (Dict String V) Error
    unfolding get_value
    get_storage_metadata c s =
        get_value st metadata_coding (metadata_key c.cluster_id c.storage_id)
          (Error.not_found_storage_metadata c.cluster_id c.storage_id) s

    unfoldable pub set_storage_metadata : ClusterStorage → Dict String V → S → Result S Error
    unfolding set_value
    set_storage_metadata c md s =
        set_value st metadata_coding (metadata_key c.cluster_id c.storage_id) md s

    unfoldable pub merge_storage_metadata : ClusterStorage → Dict String V → S → Result S Error
    unfolding set_merged merge_base get_storage_metadata
    merge_storage_metadata c md s =
        set_merged (metadata_key c.cluster_id c.storage_id) md
          (merge_base is_not_found_storage_metadata (get_storage_metadata c s)) s

  -- the same of a volume, "clusters/%d/volumes/%d"
  module _ (json : Json ClusterVolume) (volume_key metadata_key : ℕ → ℕ → String) where
    unfoldable pub get_volume : ℕ → ℕ → S → Result ClusterVolume Error
    unfolding get_value
    get_volume cid vid s =
        get_value st json.coding (volume_key cid vid) (Error.not_found_volume cid vid) s

    unfoldable pub put_volume : ClusterVolume → S → Result S Error
    unfolding set_value
    put_volume v s = set_value st json.coding (volume_key v.cluster_id v.volume_id) v s

    unfoldable pub delete_volume : ClusterVolume → S → Result S Error
    unfolding delete_value
    delete_volume v s = delete_value st (volume_key v.cluster_id v.volume_id) s

    unfoldable pub get_volume_metadata : ClusterVolume → S → Result (Dict String V) Error
    unfolding get_value
    get_volume_metadata v s =
        get_value st metadata_coding (metadata_key v.cluster_id v.volume_id)
          (Error.not_found_volume_metadata v.cluster_id v.volume_id) s

    unfoldable pub set_volume_metadata : ClusterVolume → Dict String V → S → Result S Error
    unfolding set_value
    set_volume_metadata v md s =
        set_value st metadata_coding (metadata_key v.cluster_id v.volume_id) md s

    unfoldable pub merge_volume_metadata : ClusterVolume → Dict String V → S → Result S Error
    unfolding set_merged merge_base get_volume_metadata
    merge_volume_metadata v md s =
        set_merged (metadata_key v.cluster_id v.volume_id) md
          (merge_base is_not_found_volume_metadata (get_volume_metadata v s)) s

-- the configuration of a cluster, under "clusters/%d/config"
module _ {S : Type 0} (st : Store S) (json : Json Config) (config_key : ℕ → String) where
  unfoldable pub get_config : ℕ → S → Result Config Error
  unfolding get_value
  get_config cid s = get_value st json.coding (config_key cid) (Error.not_found_config cid) s

  unfoldable pub put_config : Config → S → Result S Error
  unfolding set_value
  put_config c s = set_value st json.coding (config_key c.cluster_id) c s

  -- this deletion is not by a prefix
  unfoldable pub delete_config : ℕ → S → Result S Error
  delete_config cid s = elim (st.delete (config_key cid) s) [
    | none ↦ Result.error Error.unusable_store
    | some t ↦ Result.ok t
  ]
