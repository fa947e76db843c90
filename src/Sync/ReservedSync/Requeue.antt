-- ===== src/Sync/ReservedSync/Requeue.antt =====
-- Which reservations `reservedSync` (cluster-manager/sync/sync.go) leaves for the next run.
use cdm_center.Prelude.{
  ℕ, String, Bool, false, Option, none, some, ◌≡◌, ◌≢◌, refl, ◌∙◌, if◌then◌else◌, String-Eq,
  Bool-cases, inl, inr,
}
use cdm_center.Prelude.Dict.{Dict, lookup}
use cdm_center.Sync.Resource.{Resource, resource_eq, resource_eq_iff, with_tenant_uuid, no_options}
use cdm_center.Sync.Reserve.{ReservedSynchronizer, Reservations, is_list}
use cdm_center.Sync.Reserve.Entry.{entry, no_tenant, reserved, kept_tenant}
use cdm_center.Sync.ReservedSync.{
  Env, Call, Progress, sync_named, sync_item, sync_volume, sync_instance, each, sync_rest,
  reserved_sync, started,
}
use cdm_center.Sync.ReservedSync.Run.{reserved_sync_runs, progress-run, sync_reserved_rest}
use cdm_center.Sync.ReservedSync.Loops.{Distinct, is_failing, is_error, read}
use cdm_center.Sync.ReservedSync.Hits.{
  requeued, named_ne, item_ne, volume_ne, instance_ne, item_hit, named_hit, volume_hit,
  instance_hit,
}

-- Every map of the reservation has each key once.
pub record HasDistinctKeys (rs : ReservedSynchronizer) : Type 0 where
  pub projects : Distinct rs.projects
  pub security_groups : Distinct rs.security_groups
  pub security_group_rules : Distinct rs.security_group_rules
  pub networks : Distinct rs.networks
  pub subnets : Distinct rs.subnets
  pub routers : Distinct rs.routers
  pub floating_ips : Distinct rs.floating_ips
  pub volume_types : Distinct rs.volume_types
  pub volumes : Distinct rs.volumes
  pub volume_snapshots : Distinct rs.volume_snapshots
  pub keypairs : Distinct rs.keypairs
  pub instances : Distinct rs.instances

module _ (env : Env) (cid : ℕ) (v : String) (named : v ≢ "") where
  module _ (s : Resource) where
    -- one loop over the type `r`, with what stands reserved under `v` before it
    abbrev after : Resource → Option String → Option String → Option String
    after r o a = if resource_eq r s then requeued env cid s v o a else a

    item_loop :
        (r : Resource)
        → is_list r ≡ false
        → ((t : String)
            → is_failing env cid r v t ≡ is_error env cid (env.outcome (Call.sync r v t)))
        → ((t : String) → kept_tenant r (with_tenant_uuid t no_options) ≡ some t)
        → (m : Dict String String) (p : Progress) → Distinct m
        → read env cid s v (each (sync_item env cid r) m p)
          ≡ after r (lookup v m) (read env cid s v p)
    item_loop r h k kt m p d = elim (Bool-cases (resource_eq r s)) [
      | inl e ↦ rw e (rw (← (resource_eq_iff r s).0 e) (item_hit env cid v named r h k kt m p d))
      | inr e ↦ rw e (item_ne env cid s v r e m p)
    ]

    named_loop :
        (r : Resource)
        → is_list r ≡ false
        → is_failing env cid r v "" ≡ is_error env cid (env.outcome (Call.sync r v ""))
        → kept_tenant r no_options ≡ some ""
        → (m : Dict String Bool) (p : Progress) → Distinct m
        → read env cid s v (each (sync_named env cid r) m p)
          ≡ after r (no_tenant (lookup v m)) (read env cid s v p)
    named_loop r h k kt m p d = elim (Bool-cases (resource_eq r s)) [
      | inl e ↦ rw e (rw (← (resource_eq_iff r s).0 e) (named_hit env cid v named r h k kt m p d))
      | inr e ↦ rw e (named_ne env cid s v r e m p)
    ]

    volume_loop :
        (m : Dict String String) (p : Progress)
        → Distinct m
        → read env cid s v (each (sync_volume env cid) m p)
          ≡ after Resource.volume (lookup v m) (read env cid s v p)
    volume_loop m p d = elim (Bool-cases (resource_eq Resource.volume s)) [
      | inl e ↦
          rw e (rw (← (resource_eq_iff Resource.volume s).0 e) (volume_hit env cid v named m p d))
      | inr e ↦ rw e (volume_ne env cid s v e m p)
    ]

    instance_loop :
        (m : Dict String String) (p : Progress)
        → Distinct m
        → read env cid s v (each (sync_instance env cid) m p)
          ≡ after Resource.instance_ (lookup v m) (read env cid s v p)
    instance_loop m p d = elim (Bool-cases (resource_eq Resource.instance_ s)) [
      | inl e ↦
          rw e
            (rw (← (resource_eq_iff Resource.instance_ s).0 e) (instance_hit env cid v named m p d))
      | inr e ↦ rw e (instance_ne env cid s v e m p)
    ]

    all_loops :
        (rs : ReservedSynchronizer) (p : Progress)
        → HasDistinctKeys rs
        → read env cid s v
            (sync_rest env cid rs (each (sync_named env cid Resource.tenant) rs.projects p))
          ≡ after Resource.instance_ (lookup v rs.instances) (
              after Resource.keypair (no_tenant (lookup v rs.keypairs)) (
                after Resource.volume_snapshot (lookup v rs.volume_snapshots) (
                  after Resource.volume (lookup v rs.volumes) (
                    after Resource.storage (no_tenant (lookup v rs.volume_types)) (
                      after Resource.floating_ip (lookup v rs.floating_ips) (
                        after Resource.router (lookup v rs.routers) (
                          after Resource.subnet (lookup v rs.subnets) (
                            after Resource.network (lookup v rs.networks) (
                              after Resource.security_group_rule
                                (lookup v rs.security_group_rules)
                                (after Resource.security_group (lookup v rs.security_groups) (
                                  after Resource.tenant
                                    (no_tenant (lookup v rs.projects))
                                    (read env cid s v p))))))))))))
    unfolding sync_rest kept_tenant is_failing
    all_loops rs p d = rw (
      instance_loop rs.instances _ d.instances,
      named_loop Resource.keypair refl refl refl rs.keypairs _ d.keypairs,
      item_loop Resource.volume_snapshot refl (λ t. refl) (λ t. refl) rs.volume_snapshots _
          d.volume_snapshots,
      volume_loop rs.volumes _ d.volumes,
      named_loop Resource.storage refl refl refl rs.volume_types _ d.volume_types,
      item_loop Resource.floating_ip refl (λ t. refl) (λ t. refl) rs.floating_ips _ d.floating_ips,
      item_loop Resource.router refl (λ t. refl) (λ t. refl) rs.routers _ d.routers,
      item_loop Resource.subnet refl (λ t. refl) (λ t. refl) rs.subnets _ d.subnets,
      item_loop Resource.network refl (λ t. refl) (λ t. refl) rs.networks _ d.networks,
      item_loop Resource.security_group_rule refl (λ t. refl) (λ t. refl) rs.security_group_rules _
          d.security_group_rules,
      item_loop Resource.security_group refl (λ t. refl) (λ t. refl) rs.security_groups _
          d.security_groups,
      named_loop Resource.tenant refl refl refl rs.projects _ d.projects,
    )

  which_loop :
      (s : Resource) (rs : ReservedSynchronizer) (a : Option String)
      → rs.availability_zone_list ≡ false
      → rs.hypervisor_list ≡ false
      → after s Resource.instance_ (lookup v rs.instances) (
          after s Resource.keypair (no_tenant (lookup v rs.keypairs)) (
            after s Resource.volume_snapshot (lookup v rs.volume_snapshots) (
              after s Resource.volume (lookup v rs.volumes) (
                after s Resource.storage (no_tenant (lookup v rs.volume_types)) (
                  after s Resource.floating_ip (lookup v rs.floating_ips) (
                    after s Resource.router (lookup v rs.routers) (
                      after s Resource.subnet (lookup v rs.subnets) (
                        after s Resource.network (lookup v rs.networks) (
                          after s Resource.security_group_rule (lookup v rs.security_group_rules) (
                            after s Resource.security_group (lookup v rs.security_groups) (
                              after s Resource.tenant
                                (no_tenant (lookup v rs.projects))
                                (a))))))))))))
        ≡ requeued env cid s v (entry rs s v) a
  unfolding entry requeued
  which_loop Resource.tenant_list rs a z h = refl
  which_loop Resource.availability_zone_list rs a z h = rw z
  which_loop Resource.hypervisor_list rs a z h = rw h
  which_loop _ rs a z h = refl

-- If the lock and the synchronizer are there, neither list is reserved and no map has a key
-- twice, then after `reservedSync` a resource that was reserved under a uuid which is not empty
-- is reserved again under its tenant exactly where one of its calls failed, and every other such
-- place of the cluster is as it was before.
pub reserved_sync-requeues :
    (env : Env) (now cid : ℕ) (rs : ReservedSynchronizer) (g : Reservations) (s : Resource)
    (v : String)
    → v ≢ ""
    → HasDistinctKeys rs
    → rs.availability_zone_list ≡ false
    → rs.hypervisor_list ≡ false
    → env.lock_error ≡ none
    → env.synchronizer_error ≡ none
    → reserved (reserved_sync env now cid rs g).progress.reservations cid s v
      ≡ requeued env cid s v (entry rs s v) (reserved g cid s v)
unfolding started
reserved_sync-requeues env now cid rs g s v ne d z h lock syn =
    rw (reserved_sync_runs env now cid rs g lock syn, progress-run, sync_reserved_rest _ _ rs _ z h)
      (all_loops env cid v ne s rs _ d ∙ which_loop env cid v ne s rs _ z h)
