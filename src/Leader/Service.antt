-- ===== src/Leader/Service.antt =====
-- The services of a cluster and what is excluded of them: `StorageServices`, `ComputeServices`,
-- `Agent`, `ClusterServiceStatus` and `ExcludedCluster` of cluster-manager/queue/message.go, with
-- the fields of the generated exception messages that the checks read. A nil slice is the empty one;
-- a map is an `Option` where the code asks whether it is nil.
use cdm_center.Prelude.{ℕ, String, Bool, Option, List}
use cdm_center.Prelude.Dict.{Dict}

pub record StorageServices : Type 0 where
  pub id : String
  pub binary : String
  pub backend_name : String
  pub host : String
  pub zone : String
  pub status : String
  pub updated_at : String
  pub exception : Bool
  pub deleted : Bool

pub record ComputeServices : Type 0 where
  pub id : String
  pub binary : String
  pub host : String
  pub zone : String
  pub status : String
  pub state : String
  pub updated_at : String
  pub exception : Bool
  pub deleted : Bool

pub record Agent : Type 0 where
  pub id : String
  pub type : String
  pub binary : String
  pub host : String
  pub status : String
  pub heartbeat_timestamp : String
  pub exception : Bool
  pub deleted : Bool

pub record StorageStatus : Type 0 where
  pub binary : String
  pub host : String
  pub zone : String
  pub exception : Bool

-- An exclusion of a compute or a network service is read for its flag only.
pub record Exclusion : Type 0 where
  pub exception : Bool

pub record ExcludedCluster : Type 0 where
  pub storage : Option (Dict String StorageStatus)
  pub compute : Option (Dict String Exclusion)
  pub network : Option (Dict String Exclusion)

pub record ClusterServiceStatus : Type 0 where
  pub cluster_id : ℕ
  pub storage : List StorageServices
  pub compute : List ComputeServices
  pub network : List Agent
  pub status : String
  pub is_new : Bool
  pub storage_error : String
  pub compute_error : String
  pub network_error : String
