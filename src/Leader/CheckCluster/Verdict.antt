-- ===== src/Leader/CheckCluster/Verdict.antt =====
-- The status that `CheckCluster` (cluster-manager/leader/check.go) finds, without its loop.
use cdm_center.Prelude.{
  ℕ, ◌+◌, String, Bool, true, false, ◌||◌, Option, none, some, List, [], ◌∷◌, ◌≡◌, refl, ap, ◌∙◌,
  ◌==◌, if◌then◌else◌, arith, String-Eq, ℕ-Eq, Bool-cases, Sum-cases, inl, inr,
}
use cdm_center.Prelude.Dict.{lookup}
use cdm_center.Prelude.Lists.{any}
use cdm_center.Errors.{Error}
use cdm_center.Constant.{cluster_state_active, cluster_state_inactive, cluster_state_warning}
use cdm_center.Leader.Service.{ExcludedCluster}
use cdm_center.Leader.Check.{validate_status}
use cdm_center.Leader.CheckCluster.{
  Service, Worker, Env, Leader, start, is_some, status_of_error, after_error, checked, after_list,
  attempt, attempts, next_attempt, run_worker, storage_service, compute_service, network_service,
  check_services, check_cluster, without_synchronizer, check_existing,
}

module _ {ℓ κ} {B : Type ℓ} {A : Type κ} where
  -- what the answers of one attempt say, whatever went before
  unfoldable pub verdict : Service B A → ℕ → String
  verdict s i = elim (s.list i) [ inl e ↦ status_of_error e | inr b ↦ (s.check b).1.0 ]

  -- The first attempt is repeated if its services could not be stored, or if it warns.
  unfoldable pub is_retried : Service B A → Bool
  is_retried s = elim (s.list 0) [
    | inl e ↦ is_some (s.set_unknown_error 0)
    | inr b ↦ is_some (s.update_error 0) || (s.check b).1.0 == cluster_state_warning
  ]

  unfoldable pub last_verdict : Service B A → String
  unfolding verdict is_retried
  last_verdict s = verdict s (if is_retried s then 1 else 0)

module _ {ℓ κ} {B : Type ℓ} {A : Type κ} (s : Service B A) where
  attempt-again : (w : Worker A) → (attempt s 0 w).1 ≡ is_retried s
  unfolding attempt is_retried after_error after_list checked
  attempt-again w = elim (Sum-cases (s.list 0)) [
    | inl (e, p) ↦ rw (attempt, p) (ground arith)
    | inr (b, p) ↦ rw (attempt, p) (ground arith)
  ]

  first-status : (w : Worker A) → is_retried s ≡ false → (attempt s 0 w).0.status ≡ verdict s 0
  unfolding attempt verdict is_retried after_error after_list checked
  first-status w h = elim (Sum-cases (s.list 0)) [
    | inl (e, p) ↦ rw (attempt, verdict, p) refl
    | inr (b, p) ↦ rw (attempt, verdict, p) (ground (arith, p))
  ]

  second-status : (w : Worker A) → (attempt s 1 w).0.status ≡ verdict s 1
  unfolding attempt verdict after_error after_list checked
  second-status w = elim (Sum-cases (s.list 1)) [
    | inl (e, p) ↦ rw (attempt, verdict, p) refl
    | inr (b, p) ↦ rw (attempt, verdict, p) (ground arith)
  ]

  next_attempt-true :
      (again : ℕ → Worker A → Worker A) (i : ℕ) (p : Worker A × Bool)
      → p.1 ≡ true
      → next_attempt s again i p ≡ again (i + 1) p.0
  unfolding next_attempt
  next_attempt-true again i (w, true) h = refl
  next_attempt-true again i (w, false) h = cc

  next_attempt-false :
      (again : ℕ → Worker A → Worker A) (i : ℕ) (p : Worker A × Bool)
      → p.1 ≡ false
      → next_attempt s again i p ≡ p.0
  unfolding next_attempt
  next_attempt-false again i (w, true) h = cc
  next_attempt-false again i (w, false) h = refl

  next_attempt-last : (i : ℕ) (p : Worker A × Bool) → next_attempt s (λ j v. v) i p ≡ p.0
  unfolding next_attempt
  next_attempt-last i (w, true) = refl
  next_attempt-last i (w, false) = refl

  run_worker-status : (run_worker s).status ≡ last_verdict s
  unfolding run_worker attempts last_verdict
  run_worker-status =
      let p = attempt s 0 start in
      elim (Bool-cases (is_retried s)) [
        | inl e ↦ rw e (
            ap (λ w. w.status) (next_attempt-true (attempts s 1) 0 p (attempt-again start ∙ e))
            ∙ ap (λ w. w.status) (next_attempt-last 1 (attempt s 1 p.0))
            ∙ second-status p.0)
        | inr e ↦ rw e (
            ap (λ w. w.status) (next_attempt-false (attempts s 1) 0 p (attempt-again start ∙ e))
            ∙ first-status start e)
      ]

-- The status of a service: that of its last attempt.
unfoldable pub verdicts : Env → Option ExcludedCluster → List String
unfolding last_verdict storage_service compute_service network_service
verdicts env excluded =
    last_verdict (storage_service env excluded)
    ∷ last_verdict (compute_service env excluded)
    ∷ last_verdict (network_service env excluded)
    ∷ []

validate_status-any :
    (a b c : String)
    → validate_status a b c ≡ (
        if any (λ v. v == cluster_state_inactive) (a ∷ b ∷ c ∷ [])
        then cluster_state_inactive
        else (if any (λ v. v == cluster_state_warning) (a ∷ b ∷ c ∷ [])
            then cluster_state_warning
            else cluster_state_active))
unfolding validate_status
validate_status-any a b c = ground arith

check_services-status :
    (env : Env) (id : ℕ) (l : Leader)
    → (check_services env id l).status ≡ (
        if any (λ v. v == cluster_state_inactive) (verdicts env (lookup id l.excluded))
        then cluster_state_inactive
        else (if any (λ v. v == cluster_state_warning) (verdicts env (lookup id l.excluded))
            then cluster_state_warning
            else cluster_state_active))
unfolding check_services verdicts
check_services-status env id l =
    let excluded = lookup id l.excluded in
    rw
      (
        run_worker-status (storage_service env excluded),
        run_worker-status (compute_service env excluded),
        run_worker-status (network_service env excluded),
      )
      (validate_status-any (last_verdict (storage_service env excluded))
        (last_verdict (compute_service env excluded)) (last_verdict (network_service env excluded)))

if-asked {ℓ} :
    {A : Type ℓ} (f : Error → A) (a b : A) (o : Option Error) (c : Bool)
    → o ≡ none
    → c ≡ false
    → (elim o [ some e ↦ f e | none ↦ if c then a else b ]) ≡ b
if-asked f a b o c h k = rw (h, k) refl

-- Where the client is there and the services are asked, the status of a cluster is inactive if the
-- last attempt of one of the three services says so, else warning if the last attempt of one does,
-- and else active. An attempt whose list fails says inactive for an error of the remote server, and
-- else warning. The second attempt is the last one. The first is the last one, behind a list, if its
-- services could be stored and give no warning, and behind a list that failed, if their unknown
-- state could be stored, whatever it says.
pub check_cluster-status :
    (env : Env) (id : ℕ) (l : Leader)
    → env.synchronizer_error ≡ none
    → l.open_stack ≡ false
    → (check_cluster env id l).status ≡ (
        if any (λ v. v == cluster_state_inactive) (verdicts env (lookup id l.excluded))
        then cluster_state_inactive
        else (if any (λ v. v == cluster_state_warning) (verdicts env (lookup id l.excluded))
            then cluster_state_warning
            else cluster_state_active))
unfolding check_cluster
check_cluster-status env id l h o =
    ap (λ x. x.status)
      (if-asked (without_synchronizer env id l) (check_existing id l) (check_services env id l)
        env.synchronizer_error l.open_stack h o)
    ∙ check_services-status env id l
