-- ===== src/Sync/ReservedSync/Zones.antt =====
-- What `reservedSync` (cluster-manager/sync/sync.go) does when the list of availability zones is
-- reserved: it returns behind that list.
use cdm_center.Prelude.{
  ℕ, String, Bool, true, false, none, List, [], ◌∷◌, ◌++◌, ◌≡◌, ◌≢◌, refl, ◌∙◌, arith, ap,
  Bool-cases, sym, ◌⊎◌, inl, inr,
}
use cdm_center.Prelude.Dict.{Dict}
use cdm_center.Prelude.Lists.{All}
use cdm_center.Constant.{cluster_sync_state_code_running}
use cdm_center.Sync.Resource.{Resource, resource_eq, resource_eq_iff, SyncStatus, status_of}
use cdm_center.Sync.Reserve.{ReservedSynchronizer, Reservations}
use cdm_center.Sync.Reserve.Entry.{reserved, reserved-reserve_cluster}
use cdm_center.Sync.ReservedSync.{
  Env, Call, Progress, Outcome, sync, sync_named, sync_list, each, reserved_sync, started,
  run_reserved, conclude, set_status,
}
use cdm_center.Sync.ReservedSync.Loops.{each_frame, read, read-sync_named}
use cdm_center.Sync.ReservedSync.Run.{
  init_statuses, reserved_sync_runs, sync_reserved_zones, deferred-none, set_status-stored,
}

-- a call for a tenant, or for the list of availability zones
abbrev pub IsEarly : Call → Type 0
IsEarly c =
    ((u : String) × (c ≡ sync Resource.tenant u ""))
    ⊎ (c ≡ sync Resource.availability_zone_list "" "")

All-snoc {ℓ κ} :
    {A : Type ℓ} (P : A → Type κ) (xs : List A) (x : A) → All P xs → P x → All P (xs ++ x ∷ [])
All-snoc P [] x h k = (k, tt)
All-snoc P (y ∷ xs) x h k = (h.0, All-snoc P xs x h.1 k)

module _ (env : Env) (cid : ℕ) where
  tenants-IsEarly :
      (m : Dict String Bool) (p : Progress)
      → All IsEarly p.calls
      → All IsEarly (each (sync_named env cid Resource.tenant) m p).calls
  unfolding each sync_named
  tenants-IsEarly [] p h = h
  tenants-IsEarly ((u, b) ∷ m) p h =
      tenants-IsEarly m (sync_named env cid Resource.tenant u b p)
        (ground (arith, All-snoc IsEarly p.calls (sync Resource.tenant u "") h (inl (u, refl))))

  zones-IsEarly :
      (p : Progress)
      → All IsEarly p.calls
      → All IsEarly (sync_list env cid Resource.availability_zone_list p).calls
  unfolding sync_list
  zones-IsEarly p h =
      ground
        (arith, All-snoc IsEarly p.calls (sync Resource.availability_zone_list "" "") h (inr refl))

  tenants-err :
      (m : Dict String Bool) (p : Progress)
      → (each (sync_named env cid Resource.tenant) m p).err ≡ p.err
  unfolding sync_named
  tenants-err m p = each_frame _ (λ (q : Progress). q.err) (λ u b q. ground arith) m p

  module _ (s : Resource) (v : String) where
    tenants_keep :
        resource_eq Resource.tenant s ≡ false
        → (m : Dict String Bool) (p : Progress)
        → read env cid s v (each (sync_named env cid Resource.tenant) m p) ≡ read env cid s v p
    tenants_keep h m p =
        each_frame _ (read env cid s v)
          (λ u t q. ground (arith, read-sync_named env cid s v Resource.tenant u t q)) m p

    zones_keep :
        resource_eq Resource.availability_zone_list s ≡ false
        → (p : Progress)
        → read env cid s v (sync_list env cid Resource.availability_zone_list p)
          ≡ read env cid s v p
    unfolding sync_list
    zones_keep h p = ground (
      arith,
      reserved-reserve_cluster cid cid Resource.availability_zone_list s "" v [] p.reservations,
    )

-- the loop over the tenants and the call for the list
abbrev pub zones_run : Env → ℕ → ReservedSynchronizer → Reservations → Progress
zones_run env cid rs g =
    sync_list env cid Resource.availability_zone_list
      (each (sync_named env cid Resource.tenant) rs.projects (started g none))

zones_run-err :
    (env : Env) (cid : ℕ) (rs : ReservedSynchronizer) (g : Reservations)
    → (zones_run env cid rs g).err ≡ none
unfolding sync_list started
zones_run-err env cid rs g = ground (arith, tenants-err env cid rs.projects (started g none))

module _ (env : Env) (now cid : ℕ) (rs : ReservedSynchronizer) (g : Reservations) where
  stopped :
      rs.availability_zone_list ≡ true
      → env.lock_error ≡ none
      → env.synchronizer_error ≡ none
      → ((c : String) → env.status_error c ≡ none)
      → reserved_sync env now cid rs g ≡ record {
        progress = zones_run env cid rs g;
        statuses = init_statuses env now ++ status_of cluster_sync_state_code_running ∷ [];
        is_closed = false;
        result = none;
      }
  unfolding run_reserved
  stopped z lock syn put =
      rw
        (
          reserved_sync_runs env now cid rs g lock syn,
          put cluster_sync_state_code_running,
          sync_reserved_zones env cid rs (started g none) z,
        )
        (unfold conclude in
          deferred-none env (unfinished (set_status env running (init_statuses env now)))
            (zones_run-err env cid rs g)
          ∙ ap unfinished (
              set_status-stored env running (init_statuses env now)
                (put cluster_sync_state_code_running)))
    where
      running : SyncStatus
      running = status_of cluster_sync_state_code_running

      unfinished : List SyncStatus → Outcome
      unfinished l = record {
        progress = zones_run env cid rs g;
        statuses = l;
        is_closed = false;
        result = none;
      }

-- If the lock and the synchronizer are there, statuses can be stored and the list of
-- availability zones is reserved, then `reservedSync` makes no call but those for the tenants
-- and the list, reserves nothing of another type again, leaves the status at "running", and does
-- not close the client.
pub reserved_sync-stops_at_zones :
    (env : Env) (now cid : ℕ) (rs : ReservedSynchronizer) (g : Reservations) (s : Resource)
    (v : String)
    → rs.availability_zone_list ≡ true
    → env.lock_error ≡ none
    → env.synchronizer_error ≡ none
    → ((c : String) → env.status_error c ≡ none)
    → s ≢ Resource.tenant
    → s ≢ Resource.availability_zone_list
    → let o = reserved_sync env now cid rs g in
      (reserved o.progress.reservations cid s v ≡ reserved g cid s v)
      × All IsEarly o.progress.calls
      × (o.statuses ≡ init_statuses env now ++ status_of cluster_sync_state_code_running ∷ [])
      × (o.is_closed ≡ false)
unfolding started
reserved_sync-stops_at_zones env now cid rs g s v z lock syn put nt nz =
    rw (stopped env now cid rs g z lock syn put) (
      zones_keep env cid s v (other Resource.availability_zone_list nz) _
          ∙ tenants_keep env cid s v (other Resource.tenant nt) rs.projects (started g none),
      zones-IsEarly env cid _ (tenants-IsEarly env cid rs.projects (started g none) tt),
      refl,
      refl,
    )
  where
    other : (r : Resource) → s ≢ r → resource_eq r s ≡ false
    other r n = elim (Bool-cases (resource_eq r s)) [
      | inl e ↦ absurd (n (sym ((resource_eq_iff r s).0 e)))
      | inr e ↦ e
    ]
