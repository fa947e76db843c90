-- ===== src/Sync/ReservedSync/Status.antt =====
-- The status and the client behind a run of `reservedSync` (cluster-manager/sync/sync.go).
use cdm_center.Prelude.{
  ℕ, String, false, none, some, List, [], ◌∷◌, ◌++◌, ◌≡◌, ◌↔◌, refl, ◌∙◌, ap, sym, Option-cases,
  inl, inr, eq_iff,
}
use cdm_center.Prelude.Lists.{All}
use cdm_center.Constant.{
  cluster_sync_state_code_init, cluster_sync_state_code_running, cluster_sync_state_code_done,
  cluster_sync_state_code_failed,
}
use cdm_center.Sync.Resource.{Resource, Message, SyncStatus, status_of}
use cdm_center.Sync.Reserve.{ReservedSynchronizer, Reservations}
use cdm_center.Sync.ReservedSync.{
  Env, Progress, Outcome, sync_named, each, sync_rest, reserved_sync, started, run_reserved,
  conclude, deferred, set_status, final_status,
}
use cdm_center.Sync.ReservedSync.Run.{reserved_sync_runs, sync_reserved_rest, set_status-stored}
use cdm_center.Sync.ReservedSync.Tallies.{Succeeds, Tallies, names-Tallies, rest-Tallies}

-- the loops of a run in which neither list is reserved
abbrev pub full_run : Env → ℕ → ReservedSynchronizer → Reservations → Progress
full_run env cid rs g =
    sync_rest env cid rs (each (sync_named env cid Resource.tenant) rs.projects (started g none))

full_run-Tallies :
    (env : Env) (cid : ℕ) (rs : ReservedSynchronizer) (g : Reservations)
    → Tallies env cid (full_run env cid rs g)
unfolding started
full_run-Tallies env cid rs g = rest-Tallies env cid rs _ (
    names-Tallies env cid Resource.tenant rs.projects _
      (record { ok_of_nil = λ e. tt; nil_of_ok = λ a. (refl, refl) }))

module _ (env : Env) (now cid : ℕ) (rs : ReservedSynchronizer) (g : Reservations) where
  -- a run with these statuses, before the deferred function
  abbrev ended : List SyncStatus → Outcome
  ended l = record {
    progress = full_run env cid rs g;
    statuses = l;
    is_closed = false;
    result = none;
  }

  abbrev init : SyncStatus
  init = record (status_of cluster_sync_state_code_init) { started_at = some now }

  abbrev running : SyncStatus
  running = status_of cluster_sync_state_code_running

  finished :
      rs.availability_zone_list ≡ false
      → rs.hypervisor_list ≡ false
      → env.lock_error ≡ none
      → env.synchronizer_error ≡ none
      → ((c : String) → env.status_error c ≡ none)
      → reserved_sync env now cid rs g
        ≡ deferred env
            (ended (init ∷ running ∷ final_status (full_run env cid rs g).failed_reason ∷ []))
  unfolding run_reserved
  finished z h lock syn put =
      rw
        (
          reserved_sync_runs env now cid rs g lock syn,
          put cluster_sync_state_code_running,
          sync_reserved_rest env cid rs (started g none) z h,
        )
        (unfold conclude in
          ap (λ l. deferred env (ended l))
            (set_status-stored env (final_status (full_run env cid rs g).failed_reason) _ (put _)
              ∙ ap (λ l. l ++ final_status (full_run env cid rs g).failed_reason ∷ [])
                  (set_status-stored env running _ (put _)
                    ∙ ap (λ l. l ++ running ∷ []) (set_status-stored env init [] (put _)))))

final_status-done :
    (ms : List Message) → final_status ms ≡ status_of cluster_sync_state_code_done → ms ≡ []
unfolding final_status
final_status-done [] h = refl
final_status-done (m ∷ ms) h = cc (
    (eq_iff cluster_sync_state_code_failed cluster_sync_state_code_done).1
      (ap (λ (st : SyncStatus). st.status_code) h))

third-injective :
    (a b c d : SyncStatus) (e : List SyncStatus)
    → ◌≡◌ {A = List SyncStatus} (a ∷ b ∷ c ∷ e) (a ∷ b ∷ d ∷ [])
    → (c ≡ d) × (e ≡ [])
third-injective a b c d e h = (cc h, cc h)

-- The deferred function behind a run with these tallies.
module _ (env : Env) (cid : ℕ) (o : Outcome) (a b : SyncStatus) where
  abbrev done : List SyncStatus
  done = a ∷ b ∷ status_of cluster_sync_state_code_done ∷ []

  deferred-done_iff :
      ((c : String) → env.status_error c ≡ none)
      → Tallies env cid o.progress
      → o.statuses ≡ a ∷ b ∷ final_status o.progress.failed_reason ∷ []
      → o.is_closed ≡ false
      → (((deferred env o).statuses ≡ done)
          ↔ All (Succeeds env cid) (deferred env o).progress.calls)
        × (All (Succeeds env cid) (deferred env o).progress.calls
            → (deferred env o).is_closed ≡ false)
  unfolding deferred final_status
  deferred-done_iff put t s open_ = elim (Option-cases o.progress.err) [
    | inl e ↦ rw e (
      (
        λ d. t.ok_of_nil (final_status-done _ (third-injective a b _ _ [] (sym s ∙ d)).0),
        λ ok. s ∙ ap (λ ms. a ∷ b ∷ final_status ms ∷ []) (t.nil_of_ok ok).0,
      ),
      λ ok. open_,
    )
    | inr (x, e) ↦
        rw e
          ((λ d. no_fourth d, λ ok. cc ((t.nil_of_ok ok).1, e)), λ ok. cc ((t.nil_of_ok ok).1, e))
  ]
    where
      failed_status : SyncStatus
      failed_status = status_of cluster_sync_state_code_failed

      no_fourth : {X : Type 0} → set_status env failed_status o.statuses ≡ done → X
      no_fourth d =
          let longer =
            set_status-stored env failed_status o.statuses (put _)
            ∙ ap (λ l. l ++ failed_status ∷ []) s in
          cc ((third-injective a b _ _ (failed_status ∷ []) (sym longer ∙ d)).1)

-- both parts: the statuses, and the client
finished_iff :
    (env : Env) (now cid : ℕ) (rs : ReservedSynchronizer) (g : Reservations)
    → rs.availability_zone_list ≡ false
    → rs.hypervisor_list ≡ false
    → env.lock_error ≡ none
    → env.synchronizer_error ≡ none
    → ((c : String) → env.status_error c ≡ none)
    → let o = reserved_sync env now cid rs g in
      ((o.statuses
          ≡ record (status_of cluster_sync_state_code_init) { started_at = some now }
            ∷ status_of cluster_sync_state_code_running
            ∷ status_of cluster_sync_state_code_done
            ∷ [])
        ↔ All (Succeeds env cid) o.progress.calls)
      × (All (Succeeds env cid) o.progress.calls → o.is_closed ≡ false)
finished_iff env now cid rs g z h lock syn put = rw (finished env now cid rs g z h lock syn put) (
    deferred-done_iff env cid _ (init env now cid rs g) (running env now cid rs g) put
      (full_run-Tallies env cid rs g) refl refl)

-- If the lock and the synchronizer are there, statuses can be stored and neither list is
-- reserved, then the statuses of a run are "init", "running" and "done", and nothing behind it,
-- exactly if no call of the run failed.
pub reserved_sync-done_iff :
    (env : Env) (now cid : ℕ) (rs : ReservedSynchronizer) (g : Reservations)
    → rs.availability_zone_list ≡ false
    → rs.hypervisor_list ≡ false
    → env.lock_error ≡ none
    → env.synchronizer_error ≡ none
    → ((c : String) → env.status_error c ≡ none)
    → ((reserved_sync env now cid rs g).statuses
        ≡ record (status_of cluster_sync_state_code_init) { started_at = some now }
          ∷ status_of cluster_sync_state_code_running
          ∷ status_of cluster_sync_state_code_done
          ∷ [])
      ↔ All (Succeeds env cid) (reserved_sync env now cid rs g).progress.calls
reserved_sync-done_iff env now cid rs g z h lock syn put =
    (finished_iff env now cid rs g z h lock syn put).0

-- If the lock and the synchronizer are there, statuses can be stored, neither list is reserved
-- and no call fails, then a run does not close the client that it opened.
pub reserved_sync-leaves_open :
    (env : Env) (now cid : ℕ) (rs : ReservedSynchronizer) (g : Reservations)
    → rs.availability_zone_list ≡ false
    → rs.hypervisor_list ≡ false
    → env.lock_error ≡ none
    → env.synchronizer_error ≡ none
    → ((c : String) → env.status_error c ≡ none)
    → All (Succeeds env cid) (reserved_sync env now cid rs g).progress.calls
    → (reserved_sync env now cid rs g).is_closed ≡ false
reserved_sync-leaves_open env now cid rs g z h lock syn put ok =
    (finished_iff env now cid rs g z h lock syn put).1 ok
