-- ===== src/Leader/Monitor.antt =====
-- What the leader keeps of the clusters in memory, and the handlers that change it:
-- cluster-manager/leader/monitor.go and health_check.go. A message is what its body decodes to, if
-- it does, and intervals are not negative. The event monitors and the checks that a handler starts leave this memory alone.
mod Tests
pub mod Configured
pub mod Update
use cdm_center.Prelude.{
  ℕ, String, Bool, true, false, not, Option, none, some, List, [], ◌∷◌, ◌≡◌, ◌==◌, if◌then◌else◌,
  ℕ-Eq,
}
use cdm_center.Prelude.Dict.{Dict, lookup, insert, delete}
use cdm_center.Errors.{Error, Param}
use cdm_center.Leader.Service.{ExcludedCluster}

pub record Config : Type 0 where
  pub cluster_id : ℕ
  pub timestamp_interval : ℕ
  pub reserved_sync_interval : ℕ

pub record Cluster : Type 0 where
  pub id : ℕ
  pub name : String

-- A configuration that is `none` is a nil pointer.
pub record Memory : Type 0 where
  pub clusters : Dict ℕ Cluster
  pub is_running_c : Dict ℕ Bool
  pub cfg : Dict ℕ (Option Config)
  pub excluded : Dict ℕ ExcludedCluster

-- the memory behind a handler, an error that it returns, or a dereference of nil
pub data Handled : Type 0 where
  handled : Memory → Handled
  refused : Error → Handled
  crashed : Handled

abbrev pub default_config : ℕ → Config
default_config id = record { cluster_id = id; timestamp_interval = 5; reserved_sync_interval = 1 }

unfoldable pub add_cluster : Cluster → Memory → Memory
add_cluster c m = record m {
  clusters = insert c.id c m.clusters;
  is_running_c = insert c.id false m.is_running_c;
  cfg = insert c.id (some (default_config c.id)) m.cfg;
}

-- `find` is the query for the cluster.
unfoldable pub create_cluster_event_monitor : (ℕ → Option Cluster) → Option ℕ → Memory → Handled
unfolding add_cluster
create_cluster_event_monitor find none m = refused Error.unknown
create_cluster_event_monitor find (some id) m = elim (find id) [
  | none ↦ refused Error.unusable_database
  | some c ↦ handled (add_cluster c m)
]

-- a deletion of a missing key changes nothing
unfoldable pub remove_cluster : ℕ → Memory → Memory
remove_cluster id m = record {
  clusters = delete id m.clusters;
  is_running_c = delete id m.is_running_c;
  cfg = delete id m.cfg;
  excluded = delete id m.excluded;
}

unfoldable pub delete_cluster_event_monitor : Option ℕ → Memory → Handled
unfolding remove_cluster
delete_cluster_event_monitor none m = refused Error.unknown
delete_cluster_event_monitor (some id) m = handled (remove_cluster id m)

-- an assignment to a field of `l.cfg[id]`
unfoldable pub assign : ℕ → (Config → Config) → Option (Option Config) → Memory → Handled
assign id f none m = crashed
assign id f (some none) m = crashed
assign id f (some (some k)) m = handled (record m { cfg = insert id (some (f k)) m.cfg })

abbrev pub with_reserved : ℕ → Config → Config
with_reserved n k = record k { reserved_sync_interval = n }

abbrev pub with_timestamp : ℕ → Config → Config
with_timestamp n k = record k { timestamp_interval = n }

unfoldable pub update_timestamp : ℕ → Config → Handled → Handled
unfolding assign
update_timestamp id msg (refused e) = refused e
update_timestamp id msg crashed = crashed
update_timestamp id msg (handled m) =
    if msg.timestamp_interval == 0
    then handled m
    else assign id (with_timestamp msg.timestamp_interval) (lookup id m.cfg) m

unfoldable pub update_reserved : ℕ → Config → Memory → Handled
unfolding assign
update_reserved id msg m =
    if msg.reserved_sync_interval == 0
    then handled m
    else assign id (with_reserved msg.reserved_sync_interval) (lookup id m.cfg) m

-- The message holds the id of a cluster and, if it is not nil, a configuration.
unfoldable pub update_config_event_monitor : Option (ℕ × Option Config) → Memory → Handled
unfolding update_reserved update_timestamp
update_config_event_monitor none m = refused Error.unknown
update_config_event_monitor (some (id, none)) m = crashed
update_config_event_monitor (some (id, some msg)) m =
    update_timestamp id msg (update_reserved id msg m)

unfoldable pub cluster_exception_monitor : Option (ℕ × ExcludedCluster) → Memory → Handled
cluster_exception_monitor none m = refused Error.unknown
cluster_exception_monitor (some (id, ex)) m =
    if id == 0
    then refused (Error.invalid_parameter_number (Param.plain "cluster.id") id)
    else handled (record m { excluded = insert id ex m.excluded })

-- the flag around a check, of the goroutine `checkCluster`
unfoldable pub set_running : ℕ → Bool → Memory → Memory
set_running id b m = record m { is_running_c = insert id b m.is_running_c }

-- the branch of `healthCheckClusterList` for a cluster without a configuration
unfoldable pub put_default_config : ℕ → Memory → Memory
put_default_config id m = record m { cfg = insert id (some (default_config id)) m.cfg }

-- what `config.GetConfig` brings back: `not_found_config` is its error of that name
pub data Got : Type 0 where
  got : Config → Got
  not_found_config : Got
  failed : Got

-- Another error leaves a nil pointer.
abbrev pub config_of : ℕ → Got → Option Config
config_of id (got k) = some k
config_of id not_found_config = some (default_config id)
config_of id failed = none

-- the loop of `leaderInit`
unfoldable pub leader_init : (ℕ → Got) → List Cluster → Memory → Memory
leader_init get [] m = m
leader_init get (c ∷ cs) m = leader_init get cs (record m {
  cfg = insert c.id (config_of c.id (get c.id)) m.cfg;
  clusters = insert c.id c m.clusters;
  is_running_c = insert c.id false m.is_running_c;
})

-- One change of the memory, under the lock: a message, a check that starts or ends, or the loop.
pub data Step : Memory → Memory → Type 0 where
  created :
      (find : ℕ → Option Cluster) (body : Option ℕ) (m n : Memory)
      → create_cluster_event_monitor find body m ≡ handled n
      → Step m n
  deleted :
      (body : Option ℕ) (m n : Memory) → delete_cluster_event_monitor body m ≡ handled n → Step m n
  configured :
      (body : Option (ℕ × Option Config)) (m n : Memory)
      → update_config_event_monitor body m ≡ handled n
      → Step m n
  excepted :
      (body : Option (ℕ × ExcludedCluster)) (m n : Memory)
      → cluster_exception_monitor body m ≡ handled n
      → Step m n
  running : (id : ℕ) (b : Bool) (m : Memory) → Step m (set_running id b m)
  defaulted : (id : ℕ) (m : Memory) → lookup id m.cfg ≡ none → Step m (put_default_config id m)

pub data Steps : Memory → Memory → Type 0 where
  done : {m : Memory} → Steps m m
  more : {l m n : Memory} → Step l m → Steps m n → Steps l n
