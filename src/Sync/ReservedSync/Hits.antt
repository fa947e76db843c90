-- ===== src/Sync/ReservedSync/Hits.antt =====
-- One loop of `reservedSync` (cluster-manager/sync/sync.go) and the place of a resource: a loop over
-- another type leaves it, and one over its own type fills it where a call fails.
use cdm_center.Prelude.{
  ℕ, String, Bool, false, Option, none, some, ◌≡◌, ◌≢◌, refl, ◌∙◌, if◌then◌else◌, arith, eq_iff,
  eq_refl, String-Eq,
}
use cdm_center.Prelude.Dict.{Dict, lookup}
use cdm_center.Sync.Resource.{Resource, code, resource_eq, with_tenant_uuid, no_options}
use cdm_center.Sync.Reserve.{is_list}
use cdm_center.Sync.Reserve.Entry.{no_tenant, kept_tenant}
use cdm_center.Sync.ReservedSync.{
  Env, Call, Progress, sync_named, sync_item, sync_volume, sync_instance, each,
}
use cdm_center.Sync.ReservedSync.Loops.{
  Distinct, each_frame, each_hit, is_failing, is_error, read, read-sync_item, read-sync_named,
  read-sync_volume, read-sync_instance,
}

module _ (env : Env) (cid : ℕ) where
  -- A reservation under a tenant is kept under it if its synchronization fails; where nothing was
  -- reserved, or it succeeds, the place is as before.
  unfoldable pub requeued : Resource → String → Option String → Option String → Option String
  requeued s v none before = before
  requeued s v (some t) before = if is_failing env cid s v t then some t else before

  module _ (s : Resource) (v : String) where
    pub named_ne :
        (r : Resource)
        → resource_eq r s ≡ false
        → (m : Dict String Bool) (p : Progress)
        → read env cid s v (each (sync_named env cid r) m p) ≡ read env cid s v p
    named_ne r h m p =
        each_frame _ (read env cid s v)
          (λ u t q. ground (arith, read-sync_named env cid s v r u t q)) m p

    pub item_ne :
        (r : Resource)
        → resource_eq r s ≡ false
        → (m : Dict String String) (p : Progress)
        → read env cid s v (each (sync_item env cid r) m p) ≡ read env cid s v p
    item_ne r h m p =
        each_frame _ (read env cid s v)
          (λ u t q. ground (arith, read-sync_item env cid s v r u t q)) m p

    pub volume_ne :
        resource_eq Resource.volume s ≡ false
        → (m : Dict String String) (p : Progress)
        → read env cid s v (each (sync_volume env cid) m p) ≡ read env cid s v p
    volume_ne h m p =
        each_frame _ (read env cid s v)
          (λ u t q. ground (arith, read-sync_volume env cid s v u t q)) m p

    pub instance_ne :
        resource_eq Resource.instance_ s ≡ false
        → (m : Dict String String) (p : Progress)
        → read env cid s v (each (sync_instance env cid) m p) ≡ read env cid s v p
    instance_ne h m p =
        each_frame _ (read env cid s v)
          (λ u t q. ground (arith, read-sync_instance env cid s v u t q)) m p

  module _ (v : String) (named : v ≢ "") where
    as_requeued :
        (s : Resource) (o a : Option String)
        → (elim o [ none ↦ a | some t ↦ if is_failing env cid s v t then some t else a ])
          ≡ requeued s v o a
    unfolding requeued
    as_requeued s none a = refl
    as_requeued s (some t) a = refl

    named_as_requeued :
        (s : Resource) (o : Option Bool) (a : Option String)
        → (elim o [ none ↦ a | some t ↦ if is_failing env cid s v "" then some "" else a ])
          ≡ requeued s v (no_tenant o) a
    unfolding requeued
    named_as_requeued s none a = refl
    named_as_requeued s (some t) a = refl

    pub item_hit :
        (s : Resource)
        → is_list s ≡ false
        → ((t : String)
            → is_failing env cid s v t ≡ is_error env cid (env.outcome (Call.sync s v t)))
        → ((t : String) → kept_tenant s (with_tenant_uuid t no_options) ≡ some t)
        → (m : Dict String String) (p : Progress) → Distinct m
        → read env cid s v (each (sync_item env cid s) m p)
          ≡ requeued s v (lookup v m) (read env cid s v p)
    item_hit s h k kt m p d =
        each_hit (sync_item env cid s) (read env cid s v) v
          (λ u t q ne. ground (arith, read-sync_item env cid s v s u t q, eq_iff u v, h))
          (λ t a. if is_failing env cid s v t then some t else a)
          (λ t q. ground (
            arith,
            read-sync_item env cid s v s v t q,
            eq_iff v v,
            eq_iff v "",
            eq_refl (code s),
            k t,
            kt t,
          ))
          m p d
        ∙ as_requeued s (lookup v m) (read env cid s v p)

    pub named_hit :
        (s : Resource)
        → is_list s ≡ false
        → is_failing env cid s v "" ≡ is_error env cid (env.outcome (Call.sync s v ""))
        → kept_tenant s no_options ≡ some ""
        → (m : Dict String Bool) (p : Progress) → Distinct m
        → read env cid s v (each (sync_named env cid s) m p)
          ≡ requeued s v (no_tenant (lookup v m)) (read env cid s v p)
    named_hit s h k kt m p d =
        each_hit (sync_named env cid s) (read env cid s v) v
          (λ u t q ne. ground (arith, read-sync_named env cid s v s u t q, eq_iff u v, h))
          (λ t a. if is_failing env cid s v "" then some "" else a)
          (λ t q. ground (
            arith,
            read-sync_named env cid s v s v t q,
            eq_iff v v,
            eq_iff v "",
            eq_refl (code s),
            k,
            kt,
          ))
          m p d
        ∙ named_as_requeued s (lookup v m) (read env cid s v p)

    pub volume_hit :
        (m : Dict String String) (p : Progress)
        → Distinct m
        → read env cid Resource.volume v (each (sync_volume env cid) m p)
          ≡ requeued Resource.volume v (lookup v m) (read env cid Resource.volume v p)
    volume_hit m p d =
        each_hit (sync_volume env cid) (read env cid Resource.volume v) v
          (λ u t q ne. ground (arith, read-sync_volume env cid Resource.volume v u t q, eq_iff u v))
          (λ t a. if is_failing env cid Resource.volume v t then some t else a)
          (λ t q.
            ground
              (arith, read-sync_volume env cid Resource.volume v v t q, eq_iff v v, eq_iff v ""))
          m p d
        ∙ as_requeued Resource.volume (lookup v m) (read env cid Resource.volume v p)

    pub instance_hit :
        (m : Dict String String) (p : Progress)
        → Distinct m
        → read env cid Resource.instance_ v (each (sync_instance env cid) m p)
          ≡ requeued Resource.instance_ v (lookup v m) (read env cid Resource.instance_ v p)
    instance_hit m p d =
        each_hit (sync_instance env cid) (read env cid Resource.instance_ v) v
          (λ u t q ne.
            ground (arith, read-sync_instance env cid Resource.instance_ v u t q, eq_iff u v))
          (λ t a. if is_failing env cid Resource.instance_ v t then some t else a)
          (λ t q.
            ground (
              arith,
              read-sync_instance env cid Resource.instance_ v v t q,
              eq_iff v v,
              eq_iff v "",
            ))
          m p d
        ∙ as_requeued Resource.instance_ (lookup v m) (read env cid Resource.instance_ v p)
