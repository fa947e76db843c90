-- ===== src/Sync/Tests.antt =====
-- Runs of the synchronization on concrete clusters.
use cdm_center.Prelude.{
  ℕ, zero, ◌≤◌, String, true, false, Option, none, some, [], ◌∷◌, ◌≡◌, ◌≢◌, ◌↔◌, refl, String-Eq,
  str_eq, eq_iff,
}
use cdm_center.Prelude.Dict.{lookup}
use cdm_center.Prelude.Lists.{All}
use cdm_center.Errors.{Error}
use cdm_center.Constant.{
  cluster_sync_state_code_init, cluster_sync_state_code_running, cluster_sync_state_code_done,
}
use cdm_center.Sync.Resource.{
  Resource, Resource-Eq, with_tenant_uuid, make_failed_message, status_of,
}
use cdm_center.Sync.Reserve.{ReservedSynchronizer, empty, reserve_cluster}
use cdm_center.Sync.Reserve.Entry.{entry, kept_tenant, reserved, reserve_cluster-entry, has_entry}
use cdm_center.Sync.ReservedSync
use cdm_center.Sync.ReservedSync.{
  Call, Env, reserved_sync, run_reserved, conclude, deferred, sync_reserved, sync_rest, each,
  sync_instance, sync_item, sync_one, called, started,
}
use cdm_center.Sync.ReservedSync.Loops.{is_failing, is_error}
use cdm_center.Sync.ReservedSync.Hits.{requeued}
use cdm_center.Sync.ReservedSync.Tallies.{Succeeds}
use cdm_center.Sync.ReservedSync.Requeue.{HasDistinctKeys, reserved_sync-requeues}
use cdm_center.Sync.ReservedSync.Zones.{IsEarly, reserved_sync-stops_at_zones}
use cdm_center.Sync.ReservedSync.Status.{reserved_sync-done_iff, reserved_sync-leaves_open}
use cdm_center.Sync.Cluster
use cdm_center.Sync.Cluster.{sync_cluster, final_status, list_resources}
use cdm_center.Sync.Cluster.Rounds.{ok_within, is_ok}
use cdm_center.Sync.Cluster.Result.{missing, sync_cluster-statuses}
use cdm_center.Sync.Cluster.Progress.{sync_cluster-progress_le}

reserve_cluster-entry_example :
    (has_entry (reserve_cluster 7 Resource.volume "v1" (with_tenant_uuid "t" ∷ []) none) 7 ≡ true)
    × (reserved
          (reserve_cluster 7 Resource.volume "v1" (with_tenant_uuid "t" ∷ []) none)
          7
          Resource.volume
          "v1"
        ≡ some "t")
unfolding kept_tenant
reserve_cluster-entry_example =
    reserve_cluster-entry 7 7 Resource.volume Resource.volume "v1" "v1" (with_tenant_uuid "t" ∷ [])
      none

-- every call for a volume fails, every other one succeeds
abbrev volume_error : Call → Option Error
volume_error (Call.sync Resource.volume u t) = some Error.unknown
volume_error _ = none

abbrev volumes_fail : Env
volumes_fail = record {
  lock_error = none;
  synchronizer_error = none;
  status_error = λ c. none;
  outcome = volume_error;
}

abbrev two_reserved : ReservedSynchronizer
two_reserved = record empty { volumes = ("v1", "t") ∷ []; instances = ("i1", "u") ∷ [] }

abbrev one_instance : ReservedSynchronizer
one_instance = record empty { instances = ("i1", "u") ∷ [] }

abbrev zones_and_volume : ReservedSynchronizer
zones_and_volume = record two_reserved { availability_zone_list = true }

two_reserved-HasDistinctKeys : HasDistinctKeys two_reserved
unfolding lookup
two_reserved-HasDistinctKeys = record {
  projects = tt;
  security_groups = tt;
  security_group_rules = tt;
  networks = tt;
  subnets = tt;
  routers = tt;
  floating_ips = tt;
  volume_types = tt;
  volumes = (refl, tt);
  volume_snapshots = tt;
  keypairs = tt;
  instances = (refl, tt);
}

v1-ne : ◌≢◌ {A = String} "v1" ""
v1-ne h = let e : str_eq "v1" "" ≡ true = (eq_iff "v1" "").1 h in cc

volume-ne-tenant : Resource.volume ≢ Resource.tenant
volume-ne-tenant h = cc

volume-ne-zones : Resource.volume ≢ Resource.availability_zone_list
volume-ne-zones h = cc

reserved_sync-requeues_example :
    reserved
      (reserved_sync volumes_fail 5 1 two_reserved none).progress.reservations
      1
      Resource.volume
      "v1"
    ≡ some "t"
unfolding entry requeued is_failing is_error lookup
reserved_sync-requeues_example =
    reserved_sync-requeues volumes_fail 5 1 two_reserved none Resource.volume "v1" v1-ne
      two_reserved-HasDistinctKeys refl refl refl refl

reserved_sync-stops_at_zones_example :
    (reserved
        (reserved_sync volumes_fail 5 1 zones_and_volume none).progress.reservations
        1
        Resource.volume
        "v1"
      ≡ reserved none 1 Resource.volume "v1")
    × All IsEarly (reserved_sync volumes_fail 5 1 zones_and_volume none).progress.calls
    × ((reserved_sync volumes_fail 5 1 zones_and_volume none).statuses
        ≡ record (status_of cluster_sync_state_code_init) { started_at = some 5 }
          ∷ status_of cluster_sync_state_code_running
          ∷ [])
    × ((reserved_sync volumes_fail 5 1 zones_and_volume none).is_closed ≡ false)
unfolding ReservedSync.set_status
reserved_sync-stops_at_zones_example =
    reserved_sync-stops_at_zones volumes_fail 5 1 zones_and_volume none Resource.volume "v1" refl
      refl refl (λ c. refl) volume-ne-tenant volume-ne-zones

reserved_sync-done_iff_example :
    ((reserved_sync volumes_fail 5 1 one_instance none).statuses
      ≡ record (status_of cluster_sync_state_code_init) { started_at = some 5 }
        ∷ status_of cluster_sync_state_code_running
        ∷ status_of cluster_sync_state_code_done
        ∷ [])
    ↔ All
        (Succeeds volumes_fail 1)
        (reserved_sync volumes_fail 5 1 one_instance none).progress.calls
reserved_sync-done_iff_example =
    reserved_sync-done_iff volumes_fail 5 1 one_instance none refl refl refl refl (λ c. refl)

instance-Succeeds :
    All (Succeeds volumes_fail 1) (reserved_sync volumes_fail 5 1 one_instance none).progress.calls
unfolding reserved_sync run_reserved conclude deferred sync_reserved sync_rest each sync_instance
    sync_item sync_one called started
instance-Succeeds = (refl, (refl, tt))

reserved_sync-leaves_open_example :
    (reserved_sync volumes_fail 5 1 one_instance none).is_closed ≡ false
reserved_sync-leaves_open_example =
    reserved_sync-leaves_open volumes_fail 5 1 one_instance none refl refl refl refl (λ c. refl)
      instance-Succeeds

-- volumes fail in the first round, routers always
abbrev router_error : ℕ → Resource → Option Error
router_error zero Resource.volume_list = some Error.unknown
router_error i Resource.router_list = some Error.unknown
router_error i r = none

abbrev routers_fail : Cluster.Env
routers_fail = record {
  synchronizer_error = none;
  status_error = λ c. none;
  outcome = router_error;
}

sync_cluster-statuses_example :
    ((sync_cluster routers_fail 5 1).statuses
      ≡ record (status_of cluster_sync_state_code_init) { started_at = some 5 }
        ∷ status_of cluster_sync_state_code_running
        ∷ Cluster.final_status (make_failed_message Resource.router_list ∷ [])
        ∷ [])
    × ((sync_cluster routers_fail 5 1).is_closed ≡ true)
    × ((sync_cluster routers_fail 5 1).result ≡ none)
unfolding missing ok_within is_ok
sync_cluster-statuses_example = sync_cluster-statuses routers_fail 5 1 refl (λ c. refl)

sync_cluster-progress_le_example :
    All (λ m. m.progress ≤ 110) (sync_cluster routers_fail 5 1).run.published
sync_cluster-progress_le_example = sync_cluster-progress_le routers_fail 5 1
