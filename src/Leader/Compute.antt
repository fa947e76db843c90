-- ===== src/Leader/Compute.antt =====
-- `GetComputeServiceList` of cluster-manager/sync/hypervisor.go, whose result `checkComputeWarning`
-- of cluster-manager/leader/check.go reads. The list that the API returns is the argument.
use cdm_center.Prelude.{
  String, Bool, false, none, some, List, [], ◌∷◌, ◌≡◌, refl, sym, ap, ◌∙◌, ◌==◌, if◌then◌else◌,
  String-Eq, Bool-cases, inl, inr,
}
use cdm_center.Prelude.Dict.{Dict, lookup, insert}
use cdm_center.Prelude.Lists.{All}
use cdm_center.Constant.{cluster_state_active, cluster_state_warning}
use cdm_center.Leader.Service.{ComputeServices, ExcludedCluster}
use cdm_center.Leader.Check.{
  scan, check_compute_warning, compute_is_down, is_excluded_compute, is_exception, or_nil,
}

-- a compute service of the API
pub record Service : Type 0 where
  pub id : String
  pub binary : String
  pub host : String
  pub zone_name : String
  pub status : String
  pub state : String
  pub updated_at : String

unfoldable pub compute_entry : Service → ComputeServices
compute_entry s = record {
  id = "";
  binary = s.binary;
  host = s.host;
  zone = s.zone_name;
  status = s.status;
  state = s.state;
  updated_at = s.updated_at;
  exception = false;
  deleted = false;
}

-- the loop, with the map made so far
unfoldable pub put_computes :
    List Service → Dict String ComputeServices → Dict String ComputeServices
unfolding compute_entry
put_computes [] m = m
put_computes (s ∷ ss) m = put_computes ss (insert s.id (compute_entry s) m)

unfoldable pub get_compute_service_list : List Service → Dict String ComputeServices
unfolding put_computes
get_compute_service_list ss = put_computes ss []

-- no service of the map has an id
abbrev WithoutIds : Dict String ComputeServices → Type 0
WithoutIds m = All (λ e. e.1.id ≡ "") m

insert-WithoutIds :
    (k : String) (s : Service) (m : Dict String ComputeServices)
    → WithoutIds m
    → WithoutIds (insert k (compute_entry s) m)
unfolding insert compute_entry
insert-WithoutIds k s [] h = (refl, tt)
insert-WithoutIds k s ((j, v) ∷ m) h = elim (Bool-cases (j == k)) [
  | inl e ↦ rw e (refl, h.1)
  | inr e ↦ rw e (h.0, insert-WithoutIds k s m h.1)
]

put_computes-WithoutIds :
    (ss : List Service) (m : Dict String ComputeServices)
    → WithoutIds m
    → WithoutIds (put_computes ss m)
unfolding put_computes
put_computes-WithoutIds [] m h = h
put_computes-WithoutIds (s ∷ ss) m h =
    put_computes-WithoutIds ss (insert s.id (compute_entry s) m) (insert-WithoutIds s.id s m h)

-- without an exclusion under the empty id, none is found for a service without one
is_excluded_compute-false :
    (ex : ExcludedCluster) (v : ComputeServices)
    → lookup "" (or_nil ex.compute) ≡ none
    → v.id ≡ ""
    → is_excluded_compute (some ex) v ≡ false
unfolding is_excluded_compute is_exception
is_excluded_compute-false ex v h i = rw (i, is_exception, h) refl

scan-unexcluded :
    (ex : ExcludedCluster)
    → lookup "" (or_nil ex.compute) ≡ none
    → (m : Dict String ComputeServices) (state : String) → WithoutIds m
    → scan (λ e. compute_is_down e.1) (λ e. is_excluded_compute (some ex) e.1) state m
      ≡ scan (λ e. compute_is_down e.1) (λ e. is_excluded_compute none e.1) state m
unfolding scan
scan-unexcluded ex n [] state h = refl
scan-unexcluded ex n ((k, v) ∷ m) state h =
    let next : Bool → String = λ b.
      if compute_is_down v
      then (if b then cluster_state_active else cluster_state_warning)
      else state in
    let none_excluded : is_excluded_compute none v ≡ false = unfold is_excluded_compute in refl in
    scan-unexcluded ex n m (next (is_excluded_compute (some ex) v)) h.1
    ∙ ap (λ b. scan (λ e. compute_is_down e.1) (λ e. is_excluded_compute none e.1) (next b) m)
        (is_excluded_compute-false ex v n h.0 ∙ sym none_excluded)

-- Exclusions of compute services by their ids have no effect: on the list that
-- `GetComputeServiceList` makes, the check finds the state, warning or not, that it finds without
-- exclusions, unless the empty id is excluded.
pub check_compute_warning-ignores_exclusions :
    (ss : List Service) (ex : ExcludedCluster)
    → lookup "" (or_nil ex.compute) ≡ none
    → (check_compute_warning (get_compute_service_list ss) (some ex)).1.0
      ≡ (check_compute_warning (get_compute_service_list ss) none).1.0
unfolding check_compute_warning get_compute_service_list
check_compute_warning-ignores_exclusions ss ex n =
    scan-unexcluded ex n (put_computes ss []) "" (put_computes-WithoutIds ss [] tt)
