-- ===== src/Sync/Cluster/Result.antt =====
-- The statuses that `Cluster` (cluster-manager/sync/cluster.go) stores.
use cdm_center.Prelude.{
  ℕ, String, Bool, true, false, ◌||◌, Option, none, some, List, [], ◌∷◌, ◌++◌, ◌≡◌, refl, ap, ◌∙◌,
  if◌then◌else◌, arith, eq_refl,
}
use cdm_center.Prelude.Dict.{Dict, lookup}
use cdm_center.Prelude.Lists.{All}
use cdm_center.Errors.{Error}
use cdm_center.Constant.{cluster_sync_state_code_init, cluster_sync_state_code_running}
use cdm_center.Sync.Resource.{
  Resource, Resource-Eq, code, resource_eq, resource_eq_iff, Message, make_failed_message,
  SyncStatus, status_of,
}
use cdm_center.Sync.Cluster.{
  Env, Run, list_resources, all_with, is_synced, sync_rounds, first_run, failed_reasons,
  final_status, set_status, deferred, run_cluster, sync_cluster,
}
use cdm_center.Sync.Cluster.Rounds.{
  is_ok, ok_within, keys, contains, keys-sync_rounds, is_synced-sync_rounds,
}

-- the failure messages of the listed resources at which `p` does not hold, in their order
unfoldable pub missing : (Resource → Bool) → List Resource → List Message
missing p [] = []
missing p (r ∷ rs) = let rest = missing p rs in if p r then rest else make_failed_message r ∷ rest

missing-congr :
    (p q : Resource → Bool) (rs : List Resource)
    → All (λ r. p r ≡ q r) rs
    → missing p rs ≡ missing q rs
unfolding missing
missing-congr p q [] h = refl
missing-congr p q (r ∷ rs) h = ground (arith, missing-congr p q rs h.1)

abbrev Distinct : List Resource → Type 0
Distinct [] = Unit
Distinct (r ∷ rs) = All (λ s. resource_eq r s ≡ false) rs × Distinct rs

-- a map with these keys, but for the first entry
is_synced-behind :
    (r : Resource) (v : Bool) (m : Dict Resource Bool) (rs : List Resource)
    → All (λ s. resource_eq r s ≡ false) rs
    → All (λ s. is_synced m s ≡ is_synced ((r, v) ∷ m) s) rs
unfolding is_synced lookup
is_synced-behind r v m [] h = tt
is_synced-behind r v m (s ∷ rs) h = (ground (arith, h.0), is_synced-behind r v m rs h.1)

is_synced-first : (r : Resource) (v : Bool) (m : Dict Resource Bool) → is_synced ((r, v) ∷ m) r ≡ v
unfolding is_synced lookup
is_synced-first r v m = ground (arith, eq_refl (code r), resource_eq_iff r r)

failed_reasons-eq-missing :
    (m : Dict Resource Bool) → Distinct (keys m) → failed_reasons m ≡ missing (is_synced m) (keys m)
unfolding failed_reasons missing
failed_reasons-eq-missing [] d = refl
failed_reasons-eq-missing ((r, v) ∷ m) d = ground (
  arith,
  failed_reasons-eq-missing m d.1,
  missing-congr (is_synced m) (is_synced ((r, v) ∷ m)) (keys m)
      (is_synced-behind r v m (keys m) d.0),
  is_synced-first r v m,
)

is_synced-all_with : (rs : List Resource) (s : Resource) → is_synced (all_with false rs) s ≡ false
unfolding is_synced lookup all_with
is_synced-all_with [] s = refl
is_synced-all_with (r ∷ rs) s = ground (arith, is_synced-all_with rs s)

module _ (env : Env) (cid : ℕ) where
  is_synced-end :
      (r : Resource)
      → contains list_resources r ≡ true
      → is_synced (sync_rounds env cid 3 0 first_run).sync_func r ≡ ok_within env 3 0 r
  unfolding first_run
  is_synced-end r c =
      is_synced-sync_rounds env cid 3 0 r first_run refl c
      ∙ ap (λ b. b || ok_within env 3 0 r) (is_synced-all_with list_resources r)

  synced-end :
      (rs : List Resource)
      → All (λ r. contains list_resources r ≡ true) rs
      → All
          (λ r. is_synced (sync_rounds env cid 3 0 first_run).sync_func r ≡ ok_within env 3 0 r)
          rs
  synced-end [] h = tt
  synced-end (r ∷ rs) h = (is_synced-end r h.0, synced-end rs h.1)

  failed_reasons-end :
      failed_reasons (sync_rounds env cid 3 0 first_run).sync_func
      ≡ missing (ok_within env 3 0) list_resources
  unfolding first_run all_with
  failed_reasons-end =
      let m = (sync_rounds env cid 3 0 first_run).sync_func in
      let k : keys m ≡ list_resources = keys-sync_rounds env cid 3 0 first_run refl in
      failed_reasons-eq-missing m (rw k (ground arith))
      ∙ ap (missing (is_synced m)) k
      ∙ missing-congr (is_synced m) (ok_within env 3 0) list_resources
          (synced-end list_resources (ground arith))

set_status-stored :
    (env : Env) (st : SyncStatus) (l : List SyncStatus)
    → env.status_error st.status_code ≡ none
    → set_status env st l ≡ l ++ st ∷ []
unfolding set_status
set_status-stored env st l h = rw (set_status, h) refl

deferred-stored :
    (env : Env) (st : Run) (l : List SyncStatus) (e : Option Error)
    → e ≡ none
    → deferred env st l e ≡ record { run = st; statuses = l; is_closed = true; result = none }
unfolding deferred
deferred-stored env st l e h = rw h refl

run_cluster-stored :
    (env : Env) (cid : ℕ) (l : List SyncStatus) (last : SyncStatus)
    → ((c : String) → env.status_error c ≡ none)
    → final_status (failed_reasons (sync_rounds env cid 3 0 first_run).sync_func) ≡ last
    → run_cluster env cid l ≡ record {
      run = sync_rounds env cid 3 0 first_run;
      statuses = (l ++ status_of cluster_sync_state_code_running ∷ []) ++ last ∷ [];
      is_closed = true;
      result = none;
    }
unfolding run_cluster
run_cluster-stored env cid l last s e =
    rw
      (
        run_cluster,
        s cluster_sync_state_code_running,
        e,
        set_status-stored env last (l ++ status_of cluster_sync_state_code_running ∷ [])
            (s last.status_code),
        deferred-stored env (sync_rounds env cid 3 0 first_run)
            ((l ++ status_of cluster_sync_state_code_running ∷ []) ++ last ∷ [])
            (env.status_error last.status_code) (s last.status_code),
      )
      refl

-- If the synchronizer is there and statuses can be stored, a run stores three: init with its
-- time, running, and one that names the listed resources whose call failed in each of three
-- rounds, in the order of the list that stands for the map, and is done if there is none. It
-- closes the client and returns no error.
pub sync_cluster-statuses :
    (env : Env) (now cid : ℕ)
    → env.synchronizer_error ≡ none
    → ((c : String) → env.status_error c ≡ none)
    → ((sync_cluster env now cid).statuses
        ≡ record (status_of cluster_sync_state_code_init) { started_at = some now }
          ∷ status_of cluster_sync_state_code_running
          ∷ final_status (missing (ok_within env 3 0) list_resources)
          ∷ [])
      × ((sync_cluster env now cid).is_closed ≡ true)
      × ((sync_cluster env now cid).result ≡ none)
unfolding sync_cluster ok_within is_ok
sync_cluster-statuses env now cid h s =
    let init = record (status_of cluster_sync_state_code_init) { started_at = some now } in
    rw
      (
        sync_cluster,
        s init.status_code,
        h,
        run_cluster-stored env cid (init ∷ []) _ s (ap final_status (failed_reasons-end env cid)),
      )
      (refl, refl, refl)
