-- ===== src/Cluster/Status.antt =====
-- `SetStatus`, `GetStatus`, `DeleteStatus` and `IsAbleToSync` of
-- cluster-manager/internal/cluster/cluster_util.go; `SetException`, `GetException` and
-- `DeleteException` are the same code over another key, type and error, and so are `set_value`,
-- `get_value` and `delete_value` at them. A time is a number of nanoseconds, the zero time is `none`.
pub mod Stored
pub mod Able
use cdm_center.Prelude.{
  ℕ, ◌-◌, ◌*◌, String, Bool, true, false, ◌&&◌, ◌||◌, not, Option, none, some, ◌==◌, if◌then◌else◌,
  leb, String-Eq,
}
use cdm_center.Errors.{Error, is_not_found_cluster_sync_status}
use cdm_center.Constant.{
  cluster_sync_state_code_init, cluster_sync_state_code_running, cluster_sync_state_code_unknown,
}
use cdm_center.Sync.Resource.{SyncStatus, status_of}
use cdm_center.Cluster.Store.{Answer, Store, Coding, Json, Result}

module _ {S : Type 0} {A : Type 0} (st : Store S) (coding : Coding A) where
  unfoldable pub set_value : String → A → S → Result S Error
  set_value key a s = elim (coding.marshal a) [
    | none ↦ Result.error Error.unknown
    | some b ↦ elim (st.put key b s) [
      | none ↦ Result.error Error.unusable_store
      | some t ↦ Result.ok t
    ]
  ]

  -- what an answer of the store becomes
  unfoldable pub decoded : Error → Answer → Result A Error
  decoded missing Answer.not_found_key = Result.error missing
  decoded missing Answer.unusable = Result.error Error.unusable_store
  decoded missing (Answer.found v) = elim (coding.unmarshal v) [
    | none ↦ Result.error Error.unknown
    | some a ↦ Result.ok a
  ]

  unfoldable pub get_value : String → Error → S → Result A Error
  unfolding decoded
  get_value key missing s = decoded missing (st.get key s)

unfoldable pub delete_value : {S : Type 0} → Store S → String → S → Result S Error
delete_value st key s = elim (st.delete_prefix key s) [
  | none ↦ Result.error Error.unusable_store
  | some t ↦ Result.ok t
]

-- `sync_status_key` is `fmt.Sprintf` with the format "clusters/%d/sync/status".
module _ {S : Type 0} (st : Store S) (json : Json SyncStatus) (sync_status_key : ℕ → String) where
  unfoldable pub set_status : ℕ → SyncStatus → S → Result S Error
  unfolding set_value
  set_status cid state s = set_value st json.coding (sync_status_key cid) state s

  unfoldable pub get_status : ℕ → S → Result SyncStatus Error
  unfolding get_value
  get_status cid s =
      get_value st json.coding (sync_status_key cid) (Error.not_found_cluster_sync_status cid) s

  unfoldable pub delete_status : ℕ → S → Result S Error
  unfolding delete_value
  delete_status cid s = delete_value st (sync_status_key cid) s

abbrev pub minute : ℕ
minute = 60000000000

-- `!IsZero(started) && Since(started) >= limit`
unfoldable pub is_over : ℕ → Option ℕ → ℕ → Bool
is_over now none limit = false
is_over now (some started) limit = leb limit (now - started)

-- the cases for a status that was read, with their fallthroughs
unfoldable pub able_default : SyncStatus → Bool × SyncStatus
able_default status = (true, status)

unfoldable pub able_running : ℕ → SyncStatus → Bool × SyncStatus
unfolding is_over able_default
able_running now status =
    if is_over now status.started_at (5 * minute) then (false, status) else able_default status

unfoldable pub able_init : ℕ → SyncStatus → Bool × SyncStatus
unfolding is_over able_running
able_init now status =
    if is_over now status.started_at (1 * minute) then (false, status) else able_running now status

abbrev pub unknown_status : SyncStatus
unknown_status = status_of cluster_sync_state_code_unknown

unfoldable pub able_of : ℕ → Result SyncStatus Error → Bool × SyncStatus
unfolding able_init able_running able_default
able_of now (Result.error e) =
    if is_not_found_cluster_sync_status e then (true, unknown_status) else (false, unknown_status)
able_of now (Result.ok status) =
    if status.status_code == cluster_sync_state_code_init
    then able_init now status
    else (if status.status_code == cluster_sync_state_code_running
        then able_running now status
        else able_default status)

unfoldable pub is_able_to_sync :
    {S : Type 0} → Store S → Json SyncStatus → (ℕ → String) → ℕ → ℕ → S → Bool × SyncStatus
unfolding able_of get_status
is_able_to_sync st json sync_status_key now cid s =
    able_of now (get_status st json sync_status_key cid s)
