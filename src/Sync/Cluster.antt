-- ===== src/Sync/Cluster.antt =====
-- `Cluster`, `checkFailedSyncFunc` and `publishToStatus` of cluster-manager/sync/cluster.go: the
-- synchronization of a whole cluster in at most three rounds. What a call of `SyncCluster…List`
-- brings back in a round is a parameter. The eleven blocks of the loop differ in the resource only
-- and are one function over it; sleeping and logging are left out.
pub mod Rounds
pub mod Result
pub mod Progress
use cdm_center.Prelude.{
  ℕ, zero, suc, ◌+◌, ◌-◌, ◌*◌, String, Bool, true, false, not, ◌||◌, Option, none, some, List, [],
  ◌∷◌, ◌++◌, ◌==◌, if◌then◌else◌, leb, String-Eq,
}
use cdm_center.Prelude.Dict.{Dict, lookup, insert}
use cdm_center.Errors.{Error}
use cdm_center.Constant.{
  cluster_sync_state_code_init, cluster_sync_state_code_running, cluster_sync_state_code_done,
  cluster_sync_state_code_failed,
}
use cdm_center.Sync.Resource.{
  Resource, Resource-Eq, Message, make_failed_message, SyncStatus, status_of,
}

abbrev pub completed : String
completed = "cluster.sync.completed"

abbrev pub failed : String
failed = "cluster.sync.failed"

abbrev pub running : String
running = "cluster.sync.running"

abbrev pub waiting : String
waiting = "waiting"

-- the message to the user interface
pub record SyncClusterStatus : Type 0 where
  pub cluster_id : ℕ
  pub completion : Dict Resource String
  pub progress : ℕ

-- the loop that counts the values "completed" and "failed"
unfoldable pub count_finished : Dict Resource String → ℕ
count_finished [] = 0
count_finished ((r, value) ∷ m) =
    let n = count_finished m in if value == completed || value == failed then suc n else n

unfoldable pub progress_of : ℕ → ℕ
progress_of count = if leb count 2 then count * 5 else (count - 1) * 10

-- some value is false
unfoldable pub check_failed_sync_func : Dict Resource Bool → Bool
check_failed_sync_func [] = false
check_failed_sync_func ((r, v) ∷ m) = not v || check_failed_sync_func m

-- The eleven resources in the order of the loop; the maps are made with these keys.
abbrev pub list_resources : List Resource
list_resources =
    Resource.tenant_list ∷ Resource.availability_zone_list ∷ Resource.hypervisor_list
    ∷ Resource.security_group_list ∷ Resource.network_list ∷ Resource.router_list
    ∷ Resource.storage_list ∷ Resource.volume_list ∷ Resource.volume_snapshot_list
    ∷ Resource.keypair_list ∷ Resource.instance_list ∷ []

unfoldable pub all_with {ℓ} : {V : Type ℓ} → V → List Resource → Dict Resource V
all_with v [] = []
all_with v (r ∷ rs) = (r, v) ∷ all_with v rs

-- What `outcome i r` says of the call for `r` in round `i`; what `SetStatus` answers for a code.
pub record Env : Type 0 where
  pub synchronizer_error : Option Error
  pub status_error : String → Option Error
  pub outcome : ℕ → Resource → Option Error

pub record Run : Type 0 where
  pub sync_func : Dict Resource Bool
  pub sync_status_func : Dict Resource String
  pub calls : List Resource
  pub published : List SyncClusterStatus

-- `m[k]` with Go's zero value for a missing key
unfoldable pub is_synced : Dict Resource Bool → Resource → Bool
is_synced m r = elim (lookup r m) [ none ↦ false | some b ↦ b ]

unfoldable pub status_at : Dict Resource String → Resource → String
status_at m r = elim (lookup r m) [ none ↦ "" | some s ↦ s ]

module _ (env : Env) (cid : ℕ) where
  unfoldable pub publish_to_status : Run → Run
  publish_to_status st = record st {
    published =
        st.published
        ++ record {
          cluster_id = cid;
          completion = st.sync_status_func;
          progress = progress_of (count_finished st.sync_status_func);
        }
          ∷ [];
  }

  -- `syncStatusFunc[r] = value` and the message behind it
  unfoldable pub announce : Resource → String → Run → Run
  unfolding publish_to_status
  announce r value st =
      publish_to_status (record st { sync_status_func = insert r value st.sync_status_func })

  unfoldable pub mark_running : Resource → Run → Run
  unfolding announce
  mark_running r st =
      if status_at st.sync_status_func r == completed then st else announce r running st

  unfoldable pub call_sync : ℕ → Resource → Run → Run
  unfolding announce
  call_sync i r st =
      let called = record st { calls = st.calls ++ r ∷ [] } in
      elim (env.outcome i r) [
        | none ↦ announce r completed (record called { sync_func = insert r true st.sync_func })
        | some e ↦ announce r failed called
      ]

  -- one of the eleven blocks
  unfoldable pub sync_step : ℕ → Resource → Run → Run
  sync_step i r st =
      let st' = mark_running r st in if is_synced st'.sync_func r then st' else call_sync i r st'

  unfoldable pub sync_each : ℕ → List Resource → Run → Run
  sync_each i [] st = st
  sync_each i (r ∷ rs) st = sync_each i rs (sync_step i r st)

  -- The block for the instance specs: it writes a status, publishes nothing and leaves the map of
  -- what is synchronized alone.
  unfoldable pub spec_step : ℕ → Run → Run
  spec_step i st =
      let r = Resource.instance_spec_list in
      if is_synced st.sync_func r
      then st
      else (let called = record st { calls = st.calls ++ r ∷ [] } in
          record called {
            sync_status_func =
                insert r (elim (env.outcome i r) [ none ↦ completed | some e ↦ failed ])
                  st.sync_status_func;
          })

  unfoldable pub sync_round : ℕ → Run → Run
  sync_round i st = spec_step i (sync_each i list_resources st)

  -- `for i := 0; i < 3 && checkFailedSyncFunc(syncFunc); i++`, with the rounds left
  unfoldable pub sync_rounds : ℕ → ℕ → Run → Run
  sync_rounds zero i st = st
  sync_rounds (suc n) i st = elim (check_failed_sync_func st.sync_func) [
    | false ↦ st
    | true ↦ sync_rounds n (i + 1) (sync_round i st)
  ]

unfoldable pub first_run : Run
unfolding all_with
first_run = record {
  sync_func = all_with false list_resources;
  sync_status_func = all_with waiting list_resources;
  calls = [];
  published = [];
}

-- the loop that collects the messages of what is not synchronized
unfoldable pub failed_reasons : Dict Resource Bool → List Message
failed_reasons [] = []
failed_reasons ((r, v) ∷ m) =
    let rest = failed_reasons m in if v then rest else make_failed_message r ∷ rest

unfoldable pub final_status : List Message → SyncStatus
final_status [] = status_of cluster_sync_state_code_done
final_status (m ∷ ms) = record (status_of cluster_sync_state_code_failed) { reasons = m ∷ ms }

-- The run, the statuses stored by `SetStatus` in order, whether the client was closed, the result.
pub record Outcome : Type 0 where
  pub run : Run
  pub statuses : List SyncStatus
  pub is_closed : Bool
  pub result : Option Error

-- `SetStatus`: a status is stored, or an error comes back.
unfoldable pub set_status : Env → SyncStatus → List SyncStatus → List SyncStatus
set_status env st l = elim (env.status_error st.status_code) [ none ↦ l ++ st ∷ [] | some e ↦ l ]

-- the deferred function: `err` is the error returned
unfoldable pub deferred : Env → Run → List SyncStatus → Option Error → Outcome
unfolding set_status
deferred env st l none = record { run = st; statuses = l; is_closed = true; result = none }
deferred env st l (some e) = record {
  run = st;
  statuses = set_status env (status_of cluster_sync_state_code_failed) l;
  is_closed = true;
  result = some e;
}

-- behind `NewSynchronizer`
unfoldable pub run_cluster : Env → ℕ → List SyncStatus → Outcome
unfolding set_status deferred
run_cluster env cid l =
    let code = cluster_sync_state_code_running in
    elim (env.status_error code) [
      | some e ↦ deferred env first_run l (some e)
      | none ↦
          let st = sync_rounds env cid 3 0 first_run in
          let last = final_status (failed_reasons st.sync_func) in
          deferred env st (set_status env last (l ++ status_of code ∷ []))
            (env.status_error last.status_code)
    ]

abbrev pub returned : List SyncStatus → Error → Outcome
returned l e = record { run = first_run; statuses = l; is_closed = false; result = some e }

-- `now` is the time of the start.
unfoldable pub sync_cluster : Env → ℕ → ℕ → Outcome
unfolding run_cluster
sync_cluster env now cid =
    let init = record (status_of cluster_sync_state_code_init) { started_at = some now } in
    elim (env.status_error init.status_code) [
      | some e ↦ returned [] e
      | none ↦ elim env.synchronizer_error [
        | some e ↦ returned (init ∷ []) e
        | none ↦ run_cluster env cid (init ∷ [])
      ]
    ]
