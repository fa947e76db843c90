-- ===== src/Leader/Check/Warning.antt =====
-- Which services decide the status that the checks of cluster-manager/leader/check.go find.
use cdm_center.Prelude.{
  String, Bool, true, false, Option, none, some, List, [], ◌∷◌, ◌≡◌, refl, ◌==◌, if◌then◌else◌,
  arith, String-Eq, Option-cases, inl, inr,
}
use cdm_center.Prelude.Lists.{any}
use cdm_center.Constant.{cluster_state_active, cluster_state_warning}
use cdm_center.Leader.Service.{StorageServices, Agent, ExcludedCluster}
use cdm_center.Leader.Check.{
  scan, storage_is_down, agent_is_down, is_excluded_storage, is_excluded_network,
  check_storage_warning, check_network_warning,
}

-- the last element at which `p` holds
unfoldable pub last_that {ℓ} : {A : Type ℓ} → (A → Bool) → List A → Option A
last_that p [] = none
last_that p (x ∷ xs) =
    let rest = last_that p xs in
    elim rest [ some y ↦ some y | none ↦ (if p x then some x else none) ]

-- the state that a service gives which is down
abbrev pub state_for : Bool → String
state_for true = cluster_state_active
state_for false = cluster_state_warning

module _ {ℓ} {A : Type ℓ} (is_down is_excluded : A → Bool) where
  pub scan-last :
      (state : String) (vs : List A)
      → scan is_down is_excluded state vs
        ≡ (elim (last_that is_down vs) [ none ↦ state | some v ↦ state_for (is_excluded v) ])
  unfolding scan last_that
  scan-last state [] = refl
  scan-last state (v ∷ vs) = ground (
    arith,
    scan-last state vs,
    scan-last cluster_state_active vs,
    scan-last cluster_state_warning vs,
  )

-- The last unavailable storage service alone decides the state: active if it is excluded, warning
-- if not, and the empty text, which is neither, if none is unavailable.
pub check_storage_warning-last :
    (storages : List StorageServices) (excluded : Option ExcludedCluster)
    → (check_storage_warning storages excluded).0 ≡ (elim (last_that storage_is_down storages) [
      | none ↦ ""
      | some v ↦ state_for (is_excluded_storage excluded v)
    ])
unfolding check_storage_warning
check_storage_warning-last storages excluded =
    scan-last storage_is_down (is_excluded_storage excluded) "" storages

pub last_that-any {ℓ} :
    {A : Type ℓ} (p : A → Bool) (xs : List A)
    → any p xs ≡ (elim (last_that p xs) [ none ↦ false | some y ↦ true ])
unfolding last_that
last_that-any p [] = refl
last_that-any p (x ∷ xs) = ground (arith, last_that-any p xs)

-- With no exclusions for the cluster the agents of the network give the state warning exactly if one
-- of them is unavailable.
pub check_network_warning-unexcluded :
    (networks : List Agent)
    → ((check_network_warning networks none).0 == cluster_state_warning)
      ≡ any agent_is_down networks
unfolding check_network_warning is_excluded_network
check_network_warning-unexcluded networks =
    rw
      (
        scan-last agent_is_down (is_excluded_network none) "" networks,
        last_that-any agent_is_down networks,
      )
      (elim (Option-cases (last_that agent_is_down networks)) [
        | inl e ↦ rw e refl
        | inr (v, e) ↦ rw e refl
      ])
