-- ===== src/Leader/CheckCluster/Healthy.antt =====
-- A cluster whose services are all available (cluster-manager/leader/check.go).
use cdm_center.Prelude.{
  ℕ, String, Bool, false, none, List, [], ◌∷◌, ◌≡◌, refl, ◌∙◌, arith, String-Eq, ℕ-Eq, inr,
}
use cdm_center.Prelude.Dict.{Dict, lookup}
use cdm_center.Prelude.Lists.{any}
use cdm_center.Constant.{cluster_state_active}
use cdm_center.Leader.Service.{StorageServices, ComputeServices, Agent}
use cdm_center.Leader.Check.{
  scan, storage_is_down, compute_is_down, agent_is_down, is_excluded_storage, is_excluded_compute,
  is_excluded_network, check_storage_warning, check_compute_warning, check_network_warning,
}
use cdm_center.Leader.CheckCluster.{
  Service, Env, Leader, storage_service, compute_service, network_service, check_cluster,
}
use cdm_center.Leader.CheckCluster.Verdict.{
  verdict, is_retried, last_verdict, verdicts, check_cluster-status,
}

scan-none {ℓ} :
    {A : Type ℓ} (is_down is_excluded : A → Bool) (state : String) (vs : List A)
    → any is_down vs ≡ false
    → scan is_down is_excluded state vs ≡ state
unfolding scan
scan-none is_down is_excluded state [] h = refl
scan-none is_down is_excluded state (v ∷ vs) h =
    ground (arith, h, scan-none is_down is_excluded state vs)

last_verdict-first {ℓ κ} :
    {B : Type ℓ} {A : Type κ} (s : Service B A) (b : B)
    → s.list 0 ≡ inr b
    → s.update_error 0 ≡ none
    → (s.check b).1.0 ≡ ""
    → last_verdict s ≡ ""
unfolding last_verdict
last_verdict-first s b l u c =
    let once : is_retried s ≡ false = unfold is_retried in rw (is_retried, l, u, c) refl in
    let first : verdict s 0 ≡ "" = unfold verdict in rw (verdict, l, c) refl in rw once first

-- Where the client is there and the services are asked, a cluster is active if the first lists of
-- its storage services, compute services and agents come back without one that is down, and the
-- services are stored; whatever is excluded.
pub check_cluster-healthy :
    (env : Env) (id : ℕ) (l : Leader) (ss : List StorageServices) (cs : Dict String ComputeServices)
    (ns : List Agent)
    → env.synchronizer_error ≡ none
    → l.open_stack ≡ false
    → env.storage_list 0 ≡ inr ss
    → env.compute_list 0 ≡ inr cs
    → env.network_list 0 ≡ inr ns
    → env.update_storages_error 0 ≡ none
    → env.update_hypervisor_error 0 ≡ none
    → any storage_is_down ss ≡ false
    → any (λ e. compute_is_down e.1) cs ≡ false
    → any agent_is_down ns ≡ false
    → (check_cluster env id l).status ≡ cluster_state_active
check_cluster-healthy env id l ss cs ns h o sl cl nl su cu sd cd nd =
    let ex = lookup id l.excluded in
    let s : last_verdict (storage_service env ex) ≡ "" =
      unfold storage_service in
      unfold check_storage_warning in
      last_verdict-first (storage_service env ex) ss sl su
        (scan-none storage_is_down (is_excluded_storage ex) "" ss sd) in
    let c : last_verdict (compute_service env ex) ≡ "" =
      unfold compute_service in
      unfold check_compute_warning in
      last_verdict-first (compute_service env ex) cs cl cu
        (scan-none (λ e. compute_is_down e.1) (λ e. is_excluded_compute ex e.1) "" cs cd) in
    let n : last_verdict (network_service env ex) ≡ "" =
      unfold network_service in
      unfold check_network_warning in
      last_verdict-first (network_service env ex) ns nl refl
        (scan-none agent_is_down (is_excluded_network ex) "" ns nd) in
    check_cluster-status env id l h o ∙ (unfold verdicts in rw (s, c, n) refl)
