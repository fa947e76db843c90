-- ===== src/Leader/CheckCluster.antt =====
-- `CheckCluster` of cluster-manager/leader/check.go. What the service lists, `SetUnknown…Status` and
-- `Update…Status` bring back in an attempt is a parameter. The three goroutines write variables of
-- their own, so each is a function; their shared variable `err` is one of each.
pub mod Verdict
pub mod Healthy
use cdm_center.Prelude.{
  ℕ, zero, suc, ◌+◌, String, Bool, true, false, ◌&&◌, ◌||◌, Option, none, some, List, [], ◌∷◌, ◌==◌,
  if◌then◌else◌, ℕ-Eq, String-Eq, ◌⊎◌, inl, inr,
}
use cdm_center.Prelude.Dict.{Dict, lookup}
use cdm_center.Errors.{Error, is_remote_server_error}
use cdm_center.Constant.{cluster_state_active, cluster_state_inactive, cluster_state_warning}
use cdm_center.Leader.Service.{
  StorageServices, ComputeServices, Agent, ExcludedCluster, ClusterServiceStatus,
}
use cdm_center.Leader.Check.{
  check_storage_warning, check_compute_warning, check_network_warning, validate_status, error_text,
}
use cdm_center.Leader.CheckStatus.{check_status}

-- A goroutine: what an attempt brings back, and how its variables follow from it. `B` is what the
-- list call returns, `A` what is published.
pub record Service {ℓ κ} (B : Type ℓ) (A : Type κ) : Type (ℓ ⊔ κ) where
  pub list : ℕ → Error ⊎ B
  pub set_unknown_error : ℕ → Option Error
  pub update_error : ℕ → Option Error
  -- the services behind a call that failed, and behind one that did not
  pub on_error : List A → List A
  pub on_list : B → List A → List A
  pub check : B → List A × (String × Option Error)

pub record Worker {ℓ} (A : Type ℓ) : Type ℓ where
  pub services : List A
  pub status : String
  pub err : Option Error

abbrev pub start {ℓ} : {A : Type ℓ} → Worker A
start = record { services = []; status = cluster_state_active; err = none }

abbrev pub is_some {ℓ} : {A : Type ℓ} → Option A → Bool
is_some none = false
is_some (some a) = true

abbrev pub status_of_error : Error → String
status_of_error e =
    if is_remote_server_error e then cluster_state_inactive else cluster_state_warning

module _ {ℓ κ} {B : Type ℓ} {A : Type κ} (s : Service B A) where
  -- the `continue` of an attempt: the condition, in the first attempt only
  abbrev pub goes_on : ℕ → Bool → Bool
  goes_on i b = b && i == 0

  unfoldable pub after_error : ℕ → Error → Worker A → Worker A × Bool
  after_error i e w = (
    record { services = s.on_error w.services; status = status_of_error e; err = some e },
    goes_on i (is_some (s.set_unknown_error i)),
  )

  unfoldable pub checked : B → Worker A
  checked b = let r = s.check b in record { services = r.0; status = r.1.0; err = r.1.1 }

  unfoldable pub after_list : ℕ → B → Worker A → Worker A × Bool
  unfolding checked
  after_list i b w =
      if goes_on i (is_some (s.update_error i))
      then (record { services = s.on_list b w.services; status = w.status; err = none }, true)
      else (checked b, goes_on i ((checked b).status == cluster_state_warning))

  -- the body of the loop, and whether it goes on
  unfoldable pub attempt : ℕ → Worker A → Worker A × Bool
  unfolding after_error after_list
  attempt i w = elim (s.list i) [ inl e ↦ after_error i e w | inr b ↦ after_list i b w ]

  unfoldable pub next_attempt : (ℕ → Worker A → Worker A) → ℕ → Worker A × Bool → Worker A
  next_attempt again i (w, true) = again (i + 1) w
  next_attempt again i (w, false) = w

  -- `for i := 0; i < 2; i++`, with the attempts left
  unfoldable pub attempts : ℕ → ℕ → Worker A → Worker A
  unfolding next_attempt
  attempts zero i w = w
  attempts (suc n) i w = next_attempt (λ j v. attempts n j v) i (attempt i w)

  unfoldable pub run_worker : Worker A
  run_worker = attempts 2 0 start

-- What the calls bring back in the attempts. `text` is the method `Error` of an error.
pub record Env : Type 0 where
  pub synchronizer_error : Option Error
  pub storage_list : ℕ → Error ⊎ List StorageServices
  pub compute_list : ℕ → Error ⊎ Dict String ComputeServices
  pub network_list : ℕ → Error ⊎ List Agent
  pub set_unknown_storages_error : ℕ → Option Error
  pub set_unknown_hypervisor_error : ℕ → Option Error
  pub update_storages_error : ℕ → Option Error
  pub update_hypervisor_error : ℕ → Option Error
  pub text : Error → String

-- the leader's options and its exclusions by cluster
pub record Leader : Type 0 where
  pub open_stack : Bool
  pub opts_excluded : Option ExcludedCluster
  pub opts_check_cluster : Option ClusterServiceStatus
  pub excluded : Dict ℕ ExcludedCluster

module _ (env : Env) (excluded : Option ExcludedCluster) where
  unfoldable pub storage_service : Service (List StorageServices) StorageServices
  storage_service = record {
    list = env.storage_list;
    set_unknown_error = env.set_unknown_storages_error;
    update_error = env.update_storages_error;
    on_error = λ old. [];
    on_list = λ b old. b;
    check = λ b. (b, check_storage_warning b excluded);
  }

  unfoldable pub compute_service : Service (Dict String ComputeServices) ComputeServices
  compute_service = record {
    list = env.compute_list;
    set_unknown_error = env.set_unknown_hypervisor_error;
    update_error = env.update_hypervisor_error;
    on_error = λ old. old;
    on_list = λ b old. old;
    check = λ b. check_compute_warning b excluded;
  }

  -- A failed list of agents ends the loop; nothing is stored.
  unfoldable pub network_service : Service (List Agent) Agent
  network_service = record {
    list = env.network_list;
    set_unknown_error = λ i. none;
    update_error = λ i. none;
    on_error = λ old. [];
    on_list = λ b old. b;
    check = λ b. (b, check_network_warning b excluded);
  }

-- The result, the message published if there is one, and the leader behind the call.
pub record Outcome : Type 0 where
  pub status : String
  pub message : Option ClusterServiceStatus
  pub leader : Leader

unfoldable pub without_synchronizer : Env → ℕ → Leader → Error → Outcome
without_synchronizer env id l e = record {
  status = cluster_state_inactive;
  message = some (record {
    cluster_id = id;
    storage = [];
    compute = [];
    network = [];
    status = cluster_state_inactive;
    is_new = false;
    storage_error = env.text e;
    compute_error = env.text e;
    network_error = env.text e;
  });
  leader = l;
}

unfoldable pub check_existing : ℕ → Leader → Outcome
check_existing id l = elim l.opts_check_cluster [
  | none ↦ record { status = ""; message = none; leader = l }
  | some given ↦
      let r = check_status l.opts_excluded given in
      record {
        status = r.0;
        message = some (record r.1 { cluster_id = id; status = r.0; is_new = false });
        leader = record l { opts_check_cluster = some r.1 };
      }
]

unfoldable pub check_services : Env → ℕ → Leader → Outcome
unfolding run_worker
check_services env id l =
    let excluded = lookup id l.excluded in
    let s = run_worker (storage_service env excluded) in
    let c = run_worker (compute_service env excluded) in
    let n = run_worker (network_service env excluded) in
    let status = validate_status s.status c.status n.status in
    record {
      status = status;
      message = some (record {
        cluster_id = id;
        storage = s.services;
        compute = c.services;
        network = n.services;
        status = status;
        is_new = true;
        storage_error = error_text env.text s.err;
        compute_error = error_text env.text c.err;
        network_error = error_text env.text n.err;
      });
      leader = l;
    }

unfoldable pub check_cluster : Env → ℕ → Leader → Outcome
unfolding without_synchronizer check_existing check_services
check_cluster env id l = elim env.synchronizer_error [
  | some e ↦ without_synchronizer env id l e
  | none ↦ if l.open_stack then check_existing id l else check_services env id l
]
