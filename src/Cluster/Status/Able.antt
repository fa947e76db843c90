-- ===== src/Cluster/Status/Able.antt =====
-- When `IsAbleToSync` (cluster-manager/internal/cluster/cluster_util.go) lets a synchronization
-- start.
use cdm_center.Prelude.{
  ℕ, ◌*◌, String, Bool, true, false, ◌&&◌, ◌||◌, not, Option, none, some, ◌≡◌, refl, ap, ◌∙◌, ◌==◌,
  arith, String-Eq,
}
use cdm_center.Constant.{cluster_sync_state_code_init, cluster_sync_state_code_running}
use cdm_center.Sync.Resource.{SyncStatus, status_of}
use cdm_center.Cluster.Store.{Store, Lawful, Json, Result}
use cdm_center.Cluster.Status.{
  set_status, get_status, is_able_to_sync, able_of, able_init, able_running, is_over, minute,
}
use cdm_center.Cluster.Status.Stored.{read_back}

-- the status is of a run that started long ago: a minute for init, five for running
unfoldable pub is_stale : ℕ → SyncStatus → Bool
unfolding is_over
is_stale now status =
    (status.status_code == cluster_sync_state_code_init && is_over now status.started_at minute)
    || (status.status_code == cluster_sync_state_code_running
        && is_over now status.started_at (5 * minute))

is_over-five :
    (now : ℕ) (started : Option ℕ)
    → is_over now started (5 * minute) ≡ true
    → is_over now started minute ≡ true
unfolding is_over
is_over-five now none h = h
is_over-five now (some t) h = ground arith

able_of-ok :
    (now : ℕ) (status : SyncStatus)
    → able_of now (Result.ok status) ≡ (not (is_stale now status), status)
unfolding able_of able_init able_running is_stale
able_of-ok now status = ground (arith, is_over-five now status.started_at)

-- A status that was read lets a synchronization start unless it is of a run that started a minute
-- ago or more and is still init, or five minutes ago or more and is still running. The status is
-- returned with the answer.
pub is_able_to_sync-read :
    {S : Type 0} (st : Store S) (json : Json SyncStatus) (key : ℕ → String) (now cid : ℕ) (s : S)
    (status : SyncStatus)
    → get_status st json key cid s ≡ Result.ok status
    → is_able_to_sync st json key now cid s ≡ (not (is_stale now status), status)
unfolding is_able_to_sync
is_able_to_sync-read st json key now cid s status h = ap (able_of now) h ∙ able_of-ok now status

stored-running : (now : ℕ) → is_stale now (status_of cluster_sync_state_code_running) ≡ false
unfolding is_stale is_over
stored-running now = refl

-- Over a store and an encoding that keep their laws, a run that has just stored its status
-- running, which has no time, keeps no other run from starting, at whatever time.
pub is_able_to_sync-running :
    {S : Type 0} (st : Store S) (law : Lawful st) (json : Json SyncStatus) (key : ℕ → String)
    (now cid : ℕ) (s t : S)
    → set_status st json key cid (status_of cluster_sync_state_code_running) s ≡ Result.ok t
    → (is_able_to_sync st json key now cid t).0 ≡ true
is_able_to_sync-running st law json key now cid s t h =
    ap (λ r. r.0)
      (is_able_to_sync-read st json key now cid t _ (read_back st law json key cid _ s t h))
    ∙ ap not (stored-running now)
