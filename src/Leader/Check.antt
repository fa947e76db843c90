-- ===== src/Leader/Check.antt =====
-- `checkStorageWarning`, `checkComputeWarning`, `checkNetworkWarning`, and `validateStatusAndErr`
-- of cluster-manager/leader/check.go. Their loops over services have one body, but for
-- the test and the exclusion, and are one function here; logging is left out.
pub mod Warning
use cdm_center.Prelude.{
  ℕ, suc, ◌+◌, String, Bool, true, false, ◌&&◌, ◌||◌, not, Option, none, some, List, [], ◌∷◌, map,
  ◌==◌, if◌then◌else◌, String-Eq, ℕ-Eq, leb,
}
use cdm_center.Prelude.Dict.{Dict, lookup}
use cdm_center.Prelude.Lists.{any}
use cdm_center.Errors.{Error}
use cdm_center.Constant.{cluster_state_active, cluster_state_inactive, cluster_state_warning}
use cdm_center.Leader.Service.{
  StorageServices, ComputeServices, Agent, StorageStatus, Exclusion, ExcludedCluster,
}

abbrev pub unavailable : String
unavailable = "unavailable"

-- The variable `state` behind the loop.
unfoldable pub scan {ℓ} : {A : Type ℓ} → (A → Bool) → (A → Bool) → String → List A → String
scan is_down is_excluded state [] = state
scan is_down is_excluded state (v ∷ vs) =
    let next =
      if is_down v
      then (if is_excluded v then cluster_state_active else cluster_state_warning)
      else state in
    scan is_down is_excluded next vs

-- the error behind the loop, with its text
unfoldable pub warning_error : String → String → Option Error
warning_error text state = if state == cluster_state_warning then some (Error.other text) else none

abbrev pub or_nil : Option (Dict String Exclusion) → Dict String Exclusion
or_nil none = []
or_nil (some m) = m

abbrev pub or_nil_storage : Option (Dict String StorageStatus) → Dict String StorageStatus
or_nil_storage none = []
or_nil_storage (some m) = m

unfoldable pub matches : StorageServices → (String × StorageStatus) → Bool
matches v (k, ex) = v.binary == ex.binary && v.host == ex.host && v.zone == ex.zone && ex.exception

-- the exclusions of the storage services have no ids and are searched for the service
unfoldable pub is_excluded_storage : Option ExcludedCluster → StorageServices → Bool
unfolding matches
is_excluded_storage none v = false
is_excluded_storage (some excluded) v = any (matches v) (or_nil_storage excluded.storage)

-- `if ex, ok := m[id]; ok && ex.Exception`
unfoldable pub is_exception : Dict String Exclusion → String → Bool
is_exception m id = elim (lookup id m) [ none ↦ false | some ex ↦ ex.exception ]

unfoldable pub is_excluded_compute : Option ExcludedCluster → ComputeServices → Bool
unfolding is_exception
is_excluded_compute none v = false
is_excluded_compute (some excluded) v = is_exception (or_nil excluded.compute) v.id

unfoldable pub is_excluded_network : Option ExcludedCluster → Agent → Bool
unfolding is_exception
is_excluded_network none v = false
is_excluded_network (some excluded) v = is_exception (or_nil excluded.network) v.id

abbrev pub storage_text : String
storage_text = "Inoperative due to 'unavailable' condition in the storage"

abbrev pub compute_text : String
compute_text = "Inoperative due to 'unavailable' condition in the compute"

abbrev pub network_text : String
network_text = "Inoperative due to 'unavailable' condition in the network"

abbrev pub storage_is_down : StorageServices → Bool
storage_is_down v = v.status == unavailable

abbrev pub agent_is_down : Agent → Bool
agent_is_down v = v.status == unavailable

abbrev pub compute_is_down : ComputeServices → Bool
compute_is_down v = not (v.state == "up" && v.status == "enabled")

unfoldable pub check_storage_warning :
    List StorageServices → Option ExcludedCluster → String × Option Error
unfolding scan warning_error
check_storage_warning storages excluded =
    let state = scan storage_is_down (is_excluded_storage excluded) "" storages in
    (state, warning_error storage_text state)

-- The service that goes into the result under its key: the status says what state and status said,
-- and the state is not copied.
unfoldable pub compute_of : (String × ComputeServices) → ComputeServices
compute_of (id, v) = record {
  id = id;
  binary = v.binary;
  host = v.host;
  zone = v.zone;
  status = if compute_is_down v then unavailable else "available";
  state = "";
  updated_at = v.updated_at;
  exception = false;
  deleted = false;
}

unfoldable pub check_compute_warning :
    Dict String ComputeServices
    → Option ExcludedCluster
    → List ComputeServices × (String × Option Error)
unfolding scan warning_error compute_of
check_compute_warning computes excluded =
    let state =
      scan (λ e. compute_is_down e.1) (λ e. is_excluded_compute excluded e.1) "" computes in
    (map compute_of computes, (state, warning_error compute_text state))

unfoldable pub check_network_warning : List Agent → Option ExcludedCluster → String × Option Error
unfolding scan warning_error
check_network_warning networks excluded =
    let state = scan agent_is_down (is_excluded_network excluded) "" networks in
    (state, warning_error network_text state)

abbrev pub error_text : (Error → String) → Option Error → String
error_text text none = ""
error_text text (some e) = text e

-- The first component of `validateStatusAndErr`; the others are `error_text` of the errors.
unfoldable pub validate_status : String → String → String → String
validate_status storage compute network =
    if storage == cluster_state_inactive
      || compute == cluster_state_inactive
      || network == cluster_state_inactive
    then cluster_state_inactive
    else (if storage == cluster_state_warning
          || compute == cluster_state_warning
          || network == cluster_state_warning
        then cluster_state_warning
        else cluster_state_active)
