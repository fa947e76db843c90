-- ===== src/Sync/ReservedSync/Run.antt =====
-- The frame of `reservedSync` (cluster-manager/sync/sync.go) around its loops.
use cdm_center.Prelude.{ℕ, true, false, none, some, List, [], ◌∷◌, ◌++◌, ◌≡◌, arith}
use cdm_center.Constant.{cluster_sync_state_code_init, cluster_sync_state_code_running}
use cdm_center.Sync.Resource.{Resource, SyncStatus, status_of}
use cdm_center.Sync.Reserve.{ReservedSynchronizer, Reservations}
use cdm_center.Sync.ReservedSync.{
  Env, Progress, Outcome, sync_named, sync_list, each, sync_rest, sync_reserved, reserved_sync,
  run_reserved, conclude, deferred, started, set_status,
}

-- the statuses stored before the run: that of the start, if it could be stored
abbrev pub init_statuses : Env → ℕ → List SyncStatus
init_statuses env now =
    set_status env (record (status_of cluster_sync_state_code_init) { started_at = some now }) []

module _ (env : Env) (now cid : ℕ) (rs : ReservedSynchronizer) (g : Reservations) where
  pub reserved_sync_runs :
      env.lock_error ≡ none
      → env.synchronizer_error ≡ none
      → reserved_sync env now cid rs g
        ≡ deferred env (run_reserved env cid rs g (init_statuses env now))
  unfolding reserved_sync
  reserved_sync_runs lock syn = ground arith

  pub progress-run :
      (l : List SyncStatus)
      → (deferred env (run_reserved env cid rs g l)).progress
        ≡ (sync_reserved env cid rs
            (started g (env.status_error cluster_sync_state_code_running))).0
  unfolding deferred run_reserved conclude
  progress-run l = ground arith

module _ (env : Env) (cid : ℕ) (rs : ReservedSynchronizer) (p : Progress) where
  pub sync_reserved_rest :
      rs.availability_zone_list ≡ false
      → rs.hypervisor_list ≡ false
      → sync_reserved env cid rs p
        ≡ (sync_rest env cid rs (each (sync_named env cid Resource.tenant) rs.projects p), false)
  unfolding sync_reserved
  sync_reserved_rest z h = ground arith

  pub sync_reserved_zones :
      rs.availability_zone_list ≡ true
      → sync_reserved env cid rs p ≡ (
        sync_list env cid Resource.availability_zone_list
            (each (sync_named env cid Resource.tenant) rs.projects p),
        true,
      )
  unfolding sync_reserved
  sync_reserved_zones z = ground arith

pub deferred-none : (env : Env) (o : Outcome) → o.progress.err ≡ none → deferred env o ≡ o
unfolding deferred
deferred-none env o h = ground arith

pub set_status-stored :
    (env : Env) (st : SyncStatus) (l : List SyncStatus)
    → env.status_error st.status_code ≡ none
    → set_status env st l ≡ l ++ st ∷ []
unfolding set_status
set_status-stored env st l h = ground arith
