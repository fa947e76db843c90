-- ===== src/Sync/ReservedSync.antt =====
-- `ReservedSync` and `reservedSync` of cluster-manager/sync/sync.go. What the functions of other
-- files that `reservedSync` calls bring back is a parameter: an error or none for each call. The map
-- of the other goroutines' reservations does not change while it runs.
pub mod Loops
pub mod Run
pub mod Hits
pub mod Requeue
pub mod Zones
pub mod Tallies
pub mod Status
use cdm_center.Prelude.{ℕ, String, Bool, true, false, Option, none, some, List, [], ◌∷◌, ◌++◌}
use cdm_center.Prelude.Dict.{Dict}
use cdm_center.Errors.{Error}
use cdm_center.Constant.{
  cluster_sync_state_code_init, cluster_sync_state_code_running, cluster_sync_state_code_done,
  cluster_sync_state_code_failed,
}
use cdm_center.Sync.Resource.{
  Resource, Options, with_tenant_uuid, Message, make_failed_message, SyncStatus, status_of,
}
use cdm_center.Sync.Reserve.{ReservedSynchronizer, Reservations, or_empty_map, reserve_cluster}

-- `sync r uuid tenant` is the call of `SyncCluster…` for the type `r`, with its option.
pub data Call : Type 0 where
  sync : Resource → String → String → Call
  wait_volume_status : String → Call
  wait_instance_status : String → Call

pub record Env : Type 0 where
  pub lock_error : Option Error
  pub synchronizer_error : Option Error
  -- what `SetStatus` answers for a status code
  pub status_error : String → Option Error
  pub outcome : Call → Option Error

-- `err` is the variable of that name that the deferred function reads.
pub record Progress : Type 0 where
  pub calls : List Call
  pub failed_reason : List Message
  pub reservations : Reservations
  pub err : Option Error

unfoldable pub called : Call → Progress → Progress
called c p = record p { calls = p.calls ++ c ∷ [] }

-- a failed call: its message, and its reservation for the next run
unfoldable pub failed : ℕ → Resource → String → List (Options → Options) → Progress → Progress
failed cid r uuid opts p = record p {
  failed_reason = p.failed_reason ++ make_failed_message r ∷ [];
  reservations = reserve_cluster cid r uuid opts p.reservations;
}

module _ (env : Env) (cid : ℕ) where
  unfoldable pub sync_one :
      Resource → String → String → List (Options → Options) → Progress → Progress
  unfolding called failed
  sync_one r uuid tenant opts p =
      let p' = called (sync r uuid tenant) p in
      elim (env.outcome (sync r uuid tenant)) [ none ↦ p' | some e ↦ failed cid r uuid opts p' ]

  -- the body of the loops over projects, volume types and keypairs
  unfoldable pub sync_named : Resource → String → Bool → Progress → Progress
  unfolding sync_one
  sync_named r uuid b p = sync_one r uuid "" [] p

  -- the body of the other loops
  unfoldable pub sync_item : Resource → String → String → Progress → Progress
  unfolding sync_one
  sync_item r uuid tenant p = sync_one r uuid tenant (with_tenant_uuid tenant ∷ []) p

  unfoldable pub sync_volume : String → String → Progress → Progress
  unfolding called failed sync_item
  sync_volume uuid tenant p =
      let p' = called (wait_volume_status uuid) p in
      elim (env.outcome (wait_volume_status uuid)) [
        | none ↦ sync_item Resource.volume uuid tenant p'
        | some e ↦ failed cid Resource.volume uuid (with_tenant_uuid tenant ∷ []) p'
      ]

  -- `err = waitInstanceStatus(…)` assigns the outer variable
  unfoldable pub sync_instance : String → String → Progress → Progress
  unfolding called failed sync_item
  sync_instance uuid tenant p =
      let c = wait_instance_status uuid in
      let p' = record (called c p) { err = env.outcome c } in
      elim (env.outcome c) [
        | none ↦ sync_item Resource.instance_ uuid tenant p'
        | some e ↦ failed cid Resource.instance_ uuid (with_tenant_uuid tenant ∷ []) p'
      ]

  -- the call for one of the two lists
  unfoldable pub sync_list : Resource → Progress → Progress
  unfolding sync_one
  sync_list r p = sync_one r "" "" [] p

-- `for uuid, v := range m { … }`
unfoldable pub each {ℓ κ} : {V : Type ℓ} {P : Type κ} → (String → V → P → P) → Dict String V → P → P
each body [] p = p
each body ((uuid, v) ∷ m) p = each body m (body uuid v p)

module _ (env : Env) (cid : ℕ) where
  -- the loops behind the two lists
  unfoldable pub sync_rest : ReservedSynchronizer → Progress → Progress
  sync_rest rs p =
      let p1 = each (sync_item env cid Resource.security_group) rs.security_groups p in
      let p2 = each (sync_item env cid Resource.security_group_rule) rs.security_group_rules p1 in
      let p3 = each (sync_item env cid Resource.network) rs.networks p2 in
      let p4 = each (sync_item env cid Resource.subnet) rs.subnets p3 in
      let p5 = each (sync_item env cid Resource.router) rs.routers p4 in
      let p6 = each (sync_item env cid Resource.floating_ip) rs.floating_ips p5 in
      let p7 = each (sync_named env cid Resource.storage) rs.volume_types p6 in
      let p8 = each (sync_volume env cid) rs.volumes p7 in
      let p9 = each (sync_item env cid Resource.volume_snapshot) rs.volume_snapshots p8 in
      let p10 = each (sync_named env cid Resource.keypair) rs.keypairs p9 in
      each (sync_instance env cid) rs.instances p10

  -- The loops up to the last status. The flag is true if the function returned behind one of the
  -- two lists, so that no status follows.
  unfoldable pub sync_reserved : ReservedSynchronizer → Progress → Progress × Bool
  sync_reserved rs p =
      let q = each (sync_named env cid Resource.tenant) rs.projects p in
      elim rs.availability_zone_list [
        | true ↦ (sync_list env cid Resource.availability_zone_list q, true)
        | false ↦ elim rs.hypervisor_list [
          | true ↦ (sync_list env cid Resource.hypervisor_list q, true)
          | false ↦ (sync_rest rs q, false)
        ]
      ]

-- What a run leaves: the calls and reservations, the statuses stored by `SetStatus` in order,
-- whether the client was closed, and the result.
pub record Outcome : Type 0 where
  pub progress : Progress
  pub statuses : List SyncStatus
  pub is_closed : Bool
  pub result : Option Error

-- `SetStatus`: a status is stored, or an error comes back.
unfoldable pub set_status : Env → SyncStatus → List SyncStatus → List SyncStatus
set_status env st l = elim (env.status_error st.status_code) [ none ↦ l ++ st ∷ [] | some e ↦ l ]

-- the status behind the loops
unfoldable pub final_status : List Message → SyncStatus
final_status [] = status_of cluster_sync_state_code_done
final_status (m ∷ ms) = record (status_of cluster_sync_state_code_failed) { reasons = m ∷ ms }

-- the deferred function: it acts only if `err` holds an error
unfoldable pub deferred : Env → Outcome → Outcome
unfolding set_status
deferred env o = elim o.progress.err [
  | none ↦ o
  | some e ↦ record o {
    statuses = set_status env (status_of cluster_sync_state_code_failed) o.statuses;
    is_closed = true;
  }
]

unfoldable pub started : Reservations → Option Error → Progress
started g e = record { calls = []; failed_reason = []; reservations = g; err = e }

unfoldable pub nothing_done : Reservations → Error → List SyncStatus → Outcome
unfolding started
nothing_done g e l = record {
  progress = started g none;
  statuses = l;
  is_closed = false;
  result = some e;
}

-- the status behind the loops, if the function did not return before it
unfoldable pub conclude : Env → List SyncStatus → Progress × Bool → Outcome
unfolding set_status final_status
conclude env l (p, returned) = record {
  progress = p;
  statuses = elim returned [ true ↦ l | false ↦ set_status env (final_status p.failed_reason) l ];
  is_closed = false;
  result = none;
}

-- the run behind `NewSynchronizer`
unfoldable pub run_reserved :
    Env → ℕ → ReservedSynchronizer → Reservations → List SyncStatus → Outcome
unfolding started set_status
run_reserved env cid rs g l =
    conclude env (set_status env (status_of cluster_sync_state_code_running) l)
      (sync_reserved env cid rs (started g (env.status_error cluster_sync_state_code_running)))

-- `now` is the time of the start.
unfoldable pub reserved_sync : Env → ℕ → ℕ → ReservedSynchronizer → Reservations → Outcome
unfolding set_status nothing_done deferred run_reserved
reserved_sync env now cid rs g = elim env.lock_error [
  | some e ↦ nothing_done g e []
  | none ↦
      let init = record (status_of cluster_sync_state_code_init) { started_at = some now } in
      let l = set_status env init [] in
      elim env.synchronizer_error [
        | some e ↦ nothing_done g e l
        | none ↦ deferred env (run_reserved env cid rs g l)
      ]
]

-- the loop of `ReservedSync` over the copy of the map
unfoldable pub sync_clusters :
    (ℕ → Env) → ℕ → Dict ℕ ReservedSynchronizer → Reservations → Reservations
sync_clusters env now [] g = g
sync_clusters env now ((cid, rs) ∷ m) g =
    sync_clusters env now m (reserved_sync (env cid) now cid rs g).progress.reservations

-- The map is copied and set to nil; what a cluster's run reserves again goes to the new map.
unfoldable pub sync_all : (ℕ → Env) → ℕ → Reservations → Reservations
unfolding sync_clusters
sync_all env now g = sync_clusters env now (or_empty_map g) none
