-- ===== src/Leader/CheckStatus.antt =====
-- `checkStatus` of cluster-manager/leader/check.go: the status of a cluster from services and
-- exclusions that are in the leader's options. The three loops are one function.
pub mod Counting
use cdm_center.Prelude.{
  ℕ, suc, ◌+◌, String, Bool, true, false, Option, none, some, List, [], ◌∷◌, ◌==◌, if◌then◌else◌,
  ℕ-Eq, String-Eq,
}
use cdm_center.Prelude.Dict.{Dict}
use cdm_center.Constant.{cluster_state_active, cluster_state_warning}
use cdm_center.Leader.Service.{
  StorageServices, ComputeServices, Agent, StorageStatus, Exclusion, ExcludedCluster,
  ClusterServiceStatus,
}
use cdm_center.Leader.Check.{
  unavailable, matches, is_exception, storage_is_down, agent_is_down, storage_text, compute_text,
  network_text,
}

-- `unCnt`, `unCntExd` and the error text of one kind of services
pub record Counts : Type 0 where
  pub un_cnt : ℕ
  pub un_cnt_exd : ℕ
  pub text : String

-- One pass over services of a kind: `times` is how often the exclusions name one.
unfoldable pub count_services {ℓ} :
    {A : Type ℓ} → (A → Bool) → (A → ℕ) → String → List A → Counts → Counts
count_services is_down times text [] c = c
count_services is_down times text (v ∷ vs) c =
    let n = times v in
    let next =
      if is_down v
      then (record {
        un_cnt = c.un_cnt + 1;
        un_cnt_exd = c.un_cnt_exd + n;
        text = if n == 0 then text else "";
      })
      else c in
    count_services is_down times text vs next

unfoldable pub count_matches : StorageServices → Dict String StorageStatus → ℕ
unfolding matches
count_matches v [] = 0
count_matches v (ex ∷ m) = let n = count_matches v m in if matches v ex then suc n else n

unfoldable pub count_exception : Dict String Exclusion → String → ℕ
unfolding is_exception
count_exception m id = if is_exception m id then 1 else 0

abbrev pub compute_is_unavailable : ComputeServices → Bool
compute_is_unavailable v = v.status == unavailable

abbrev pub no_counts : String → Counts
no_counts text = record { un_cnt = 0; un_cnt_exd = 0; text = text }

-- A kind of services without a map of exclusions is skipped.
unfoldable pub count_storage : Option (Dict String StorageStatus) → ClusterServiceStatus → Counts
unfolding count_services count_matches
count_storage none st = no_counts st.storage_error
count_storage (some m) st =
    count_services storage_is_down (λ v. count_matches v m) storage_text st.storage
      (no_counts st.storage_error)

unfoldable pub count_compute : Option (Dict String Exclusion) → ClusterServiceStatus → Counts
unfolding count_services count_exception
count_compute none st = no_counts st.compute_error
count_compute (some m) st =
    count_services compute_is_unavailable (λ v. count_exception m v.id) compute_text st.compute
      (no_counts st.compute_error)

unfoldable pub count_network : Option (Dict String Exclusion) → ClusterServiceStatus → Counts
unfolding count_services count_exception
count_network none st = no_counts st.network_error
count_network (some m) st =
    count_services agent_is_down (λ v. count_exception m v.id) network_text st.network
      (no_counts st.network_error)

-- what is returned behind the loops, of the sums of the counts
unfoldable pub status_of_counts : ℕ → ℕ → String → String
status_of_counts un_cnt un_cnt_exd given =
    if un_cnt == 0
    then given
    else (if un_cnt == un_cnt_exd then cluster_state_active else cluster_state_warning)

-- The status, and the options with their error texts.
unfoldable pub check_status :
    Option ExcludedCluster → ClusterServiceStatus → String × ClusterServiceStatus
unfolding count_storage count_compute count_network status_of_counts
check_status none st = (st.status, st)
check_status (some ex) st =
    let s = count_storage ex.storage st in
    let c = count_compute ex.compute st in
    let n = count_network ex.network st in
    (
      status_of_counts (s.un_cnt + c.un_cnt + n.un_cnt) (s.un_cnt_exd + c.un_cnt_exd + n.un_cnt_exd)
          st.status,
      record st { storage_error = s.text; compute_error = c.text; network_error = n.text },
    )
