-- ===== src/Leader/CheckStatus/Counting.antt =====
-- What the counts of `checkStatus` (cluster-manager/leader/check.go) come to.
use cdm_center.Prelude.{
  ℕ, suc, ◌+◌, ◌≤◌, String, Bool, ◌&&◌, ◌||◌, not, some, List, [], ◌∷◌, ◌≡◌, refl, ◌∙◌, ◌==◌,
  if◌then◌else◌, arith, ℕ-Eq,
}
use native.Mathlib.Nat.{zero-add}
use cdm_center.Prelude.Dict.{Dict}
use cdm_center.Prelude.Lists.{any, all, All}
use cdm_center.Constant.{cluster_state_active, cluster_state_warning}
use cdm_center.Leader.Service.{StorageStatus, Exclusion, ClusterServiceStatus}
use cdm_center.Leader.Check.{storage_is_down, agent_is_down}
use cdm_center.Leader.CheckStatus.{
  Counts, count_services, count_matches, count_exception, compute_is_unavailable, count_storage,
  count_compute, count_network, status_of_counts, check_status,
}

module _ {ℓ} {A : Type ℓ} (is_down : A → Bool) (times : A → ℕ) where
  unfoldable pub down : List A → ℕ
  down [] = 0
  down (v ∷ vs) = let n = down vs in if is_down v then suc n else n

  unfoldable pub excluded : List A → ℕ
  excluded [] = 0
  excluded (v ∷ vs) = let n = excluded vs in if is_down v then times v + n else n

  -- every service that is down is named by the exclusions
  unfoldable pub is_covered : List A → Bool
  is_covered vs = all (λ v. not (is_down v) || times v == 1) vs

  un_cnt-count_services :
      (text : String) (vs : List A) (c : Counts)
      → (count_services is_down times text vs c).un_cnt ≡ c.un_cnt + down vs
  unfolding count_services down
  un_cnt-count_services text [] c = ground arith
  un_cnt-count_services text (v ∷ vs) c = rw (un_cnt-count_services text vs) (ground arith)

  un_cnt_exd-count_services :
      (text : String) (vs : List A) (c : Counts)
      → (count_services is_down times text vs c).un_cnt_exd ≡ c.un_cnt_exd + excluded vs
  unfolding count_services excluded
  un_cnt_exd-count_services text [] c = ground arith
  un_cnt_exd-count_services text (v ∷ vs) c = rw (un_cnt_exd-count_services text vs) (ground arith)

  excluded-le-down : (vs : List A) → All (λ v. times v ≤ 1) vs → excluded vs ≤ down vs
  unfolding down excluded
  excluded-le-down [] h = ground arith
  excluded-le-down (v ∷ vs) h = ground (arith, excluded-le-down vs h.1, h.0)

  down-excluded-is_covered :
      (vs : List A) → All (λ v. times v ≤ 1) vs → (down vs == excluded vs) ≡ is_covered vs
  unfolding down excluded is_covered
  down-excluded-is_covered [] h = refl
  down-excluded-is_covered (v ∷ vs) h =
      ground (arith, down-excluded-is_covered vs h.1, excluded-le-down vs h.1, h.0)

  down-any : (vs : List A) → (down vs == 0) ≡ not (any is_down vs)
  unfolding down
  down-any [] = refl
  down-any (v ∷ vs) = ground (arith, down-any vs)

count_exception-le : (m : Dict String Exclusion) (id : String) → count_exception m id ≤ 1
unfolding count_exception
count_exception-le m id = ground arith

count_exception-All {ℓ} :
    {A : Type ℓ} (m : Dict String Exclusion) (id : A → String) (vs : List A)
    → All (λ v. count_exception m (id v) ≤ 1) vs
count_exception-All m id [] = tt
count_exception-All m id (v ∷ vs) = (count_exception-le m (id v), count_exception-All m id vs)

-- equal sums of three numbers that are bounded one by one
sums-equal :
    (a b c x y z : ℕ)
    → x ≤ a
    → y ≤ b
    → z ≤ c
    → (a + b + c == x + y + z) ≡ ((a == x) && (b == y) && (c == z))
sums-equal a b c x y z h k l = ground arith

-- some service of the three kinds is unavailable
unfoldable pub any_down : ClusterServiceStatus → Bool
any_down st =
    any storage_is_down st.storage
    || any compute_is_unavailable st.compute
    || any agent_is_down st.network

-- every unavailable service is excluded
unfoldable pub all_excluded :
    Dict String StorageStatus
    → Dict String Exclusion
    → Dict String Exclusion
    → ClusterServiceStatus
    → Bool
all_excluded ms mc mn st =
    all (λ v. not (storage_is_down v) || count_matches v ms == 1) st.storage
    && all (λ v. not (compute_is_unavailable v) || count_exception mc v.id == 1) st.compute
    && all (λ v. not (agent_is_down v) || count_exception mn v.id == 1) st.network

module _ (ms : Dict String StorageStatus) (mc mn : Dict String Exclusion)
    (st : ClusterServiceStatus) where
  abbrev down_all : ℕ
  down_all =
      down storage_is_down (λ v. count_matches v ms) st.storage
      + down compute_is_unavailable (λ v. count_exception mc v.id) st.compute
      + down agent_is_down (λ v. count_exception mn v.id) st.network

  abbrev excluded_all : ℕ
  excluded_all =
      excluded storage_is_down (λ v. count_matches v ms) st.storage
      + excluded compute_is_unavailable (λ v. count_exception mc v.id) st.compute
      + excluded agent_is_down (λ v. count_exception mn v.id) st.network

  down_all-any : (down_all == 0) ≡ not (any_down st)
  unfolding any_down
  down_all-any = ground (
    arith,
    down-any storage_is_down (λ v. count_matches v ms) st.storage,
    down-any compute_is_unavailable (λ v. count_exception mc v.id) st.compute,
    down-any agent_is_down (λ v. count_exception mn v.id) st.network,
  )

  down_all-excluded :
      All (λ v. count_matches v ms ≤ 1) st.storage
      → (down_all == excluded_all) ≡ all_excluded ms mc mn st
  unfolding all_excluded is_covered
  down_all-excluded h =
      let hc = count_exception-All mc (λ v. v.id) st.compute in
      let hn = count_exception-All mn (λ v. v.id) st.network in
      rw
        (
          sums-equal _ _ _ _ _ _
              (excluded-le-down storage_is_down (λ v. count_matches v ms) st.storage h)
              (excluded-le-down compute_is_unavailable (λ v. count_exception mc v.id) st.compute hc)
              (excluded-le-down agent_is_down (λ v. count_exception mn v.id) st.network hn),
          down-excluded-is_covered storage_is_down (λ v. count_matches v ms) st.storage h,
          down-excluded-is_covered compute_is_unavailable (λ v. count_exception mc v.id) st.compute
              hc,
          down-excluded-is_covered agent_is_down (λ v. count_exception mn v.id) st.network hn,
        )
        refl

  status-counts :
      (check_status
        (some (record { storage = some ms; compute = some mc; network = some mn }))
        st).0
      ≡ status_of_counts down_all excluded_all st.status
  unfolding check_status count_storage count_compute count_network
  status-counts =
      rw
        (
          un_cnt-count_services storage_is_down (λ v. count_matches v ms),
          un_cnt-count_services compute_is_unavailable (λ v. count_exception mc v.id),
          un_cnt-count_services agent_is_down (λ v. count_exception mn v.id),
          un_cnt_exd-count_services storage_is_down (λ v. count_matches v ms),
          un_cnt_exd-count_services compute_is_unavailable (λ v. count_exception mc v.id),
          un_cnt_exd-count_services agent_is_down (λ v. count_exception mn v.id),
        )
        (simp zero-add)

-- Where the three maps of exclusions are there and no storage service is named by two of them, the
-- status is the given one if no service is unavailable, and else active if every unavailable service
-- is excluded, and warning if one is not.
pub check_status-excluded :
    (ms : Dict String StorageStatus) (mc mn : Dict String Exclusion) (st : ClusterServiceStatus)
    → All (λ v. count_matches v ms ≤ 1) st.storage
    → (check_status
        (some (record { storage = some ms; compute = some mc; network = some mn }))
        st).0
      ≡ (if any_down st
          then (if all_excluded ms mc mn st then cluster_state_active else cluster_state_warning)
          else st.status)
unfolding status_of_counts
check_status-excluded ms mc mn st h =
    status-counts ms mc mn st
    ∙ ground (arith, down_all-any ms mc mn st, down_all-excluded ms mc mn st h)
