-- ===== src/Sync/ReservedSync/Loops.antt =====
-- The loops of `reservedSync` (cluster-manager/sync/sync.go), seen through the reservation of one
-- resource.
use cdm_center.Prelude.{
  ℕ, String, Bool, true, false, ◌&&◌, ◌||◌, not, Option, none, some, [], ◌∷◌, ◌≡◌, ◌≢◌, refl, sym,
  ◌∙◌, if◌then◌else◌, arith, str_eq, Bool-cases, inl, inr, ap, subst, eq_iff, String-Eq,
}
use cdm_center.Prelude.Dict.{Dict, lookup}
use cdm_center.Errors.{Error}
use cdm_center.Sync.Resource.{Resource, with_tenant_uuid, no_options, Resource-Eq, resource_eq}
use cdm_center.Sync.Reserve.{is_list}
use cdm_center.Sync.Reserve.Entry.{reserved, reserved-reserve_cluster, kept_tenant}
use cdm_center.Sync.ReservedSync.{
  Env, Progress, sync, wait_volume_status, wait_instance_status, sync_named, sync_item, sync_volume,
  sync_instance, each,
}

-- A Go map has a key once.
abbrev pub Distinct {ℓ} : {V : Type ℓ} → Dict String V → Type ℓ
Distinct [] = Unit
Distinct ((k, v) ∷ m) = (lookup k m ≡ none) × Distinct m

module _ {ℓ κ ρ} {V : Type ℓ} {P : Type κ} {A : Type ρ} (body : String → V → P → P)
    (read : P → A) where
  pub each_frame :
      ((u : String) (t : V) (p : P) → read (body u t p) ≡ read p)
      → (m : Dict String V) (p : P) → read (each body m p) ≡ read p
  unfolding each
  each_frame keep [] p = refl
  each_frame keep ((u, t) ∷ m) p = each_frame keep m (body u t p) ∙ keep u t p

  module _ (v : String)
      (keep : (u : String) (t : V) (p : P) → u ≢ v → read (body u t p) ≡ read p) where
    pub each_miss : (m : Dict String V) (p : P) → lookup v m ≡ none → read (each body m p) ≡ read p
    unfolding each lookup
    each_miss [] p h = refl
    each_miss ((u, t) ∷ m) p h = elim (Bool-cases (str_eq u v)) [
      | inl e ↦ cc (rw e at h)
      | inr e ↦ each_miss m (body u t p) (rw e at h) ∙ keep u t p (λ q. cc (e, (eq_iff u v).1 q))
    ]

    pub each_hit :
        (new : V → A → A)
        → ((t : V) (p : P) → read (body v t p) ≡ new t (read p))
        → (m : Dict String V) (p : P) → Distinct m
        → read (each body m p) ≡ (elim (lookup v m) [ none ↦ read p | some t ↦ new t (read p) ])
    unfolding each lookup
    each_hit new hit [] p d = refl
    each_hit new hit ((u, t) ∷ m) p d = elim (Bool-cases (str_eq u v)) [
      | inl e ↦
          let q : u ≡ v = (eq_iff u v).0 e in
          rw e (
            each_miss m (body u t p) (subst (λ k. lookup k m ≡ none) q d.0)
            ∙ subst (λ k. read (body k t p) ≡ new t (read p)) (sym q) (hit t p))
      | inr e ↦ rw e (
          each_hit new hit m (body u t p) d.1
          ∙ ap (λ a. elim (lookup v m) [ none ↦ a | some t' ↦ new t' a ])
              (keep u t p (λ q. cc (e, (eq_iff u v).1 q))))
    ]

module _ (env : Env) (cid : ℕ) where
  -- Does the synchronization of a reserved resource fail?
  unfoldable pub is_error : Option Error → Bool
  is_error none = false
  is_error (some e) = true

  unfoldable pub is_failing : Resource → String → String → Bool
  unfolding is_error
  is_failing Resource.volume u t =
      is_error (env.outcome (wait_volume_status u))
      || is_error (env.outcome (sync Resource.volume u t))
  is_failing Resource.instance_ u t =
      is_error (env.outcome (wait_instance_status u))
      || is_error (env.outcome (sync Resource.instance_ u t))
  is_failing r u t = is_error (env.outcome (sync r u t))

  module _ (s : Resource) (v : String) where
    abbrev pub read : Progress → Option String
    read p = reserved p.reservations cid s v

    -- the place of the reservation that is read
    abbrev pub place : Resource → String → Bool
    place r u = resource_eq r s && (is_list r || (str_eq u v && not (str_eq u "")))

    pub read-sync_item :
        (r : Resource) (u t : String) (p : Progress)
        → read (sync_item env cid r u t p) ≡ (
            if is_error (env.outcome (sync r u t)) && place r u
            then kept_tenant r (with_tenant_uuid t no_options)
            else read p)
    unfolding sync_item is_error
    read-sync_item r u t p =
        ground
          (arith, reserved-reserve_cluster cid cid r s u v (with_tenant_uuid t ∷ []) p.reservations)

    pub read-sync_named :
        (r : Resource) (u : String) (b : Bool) (p : Progress)
        → read (sync_named env cid r u b p) ≡ (
            if is_error (env.outcome (sync r u "")) && place r u
            then kept_tenant r no_options
            else read p)
    unfolding sync_named is_error
    read-sync_named r u b p =
        ground (arith, reserved-reserve_cluster cid cid r s u v [] p.reservations)

    pub read-sync_volume :
        (u t : String) (p : Progress)
        → read (sync_volume env cid u t p)
          ≡ (if is_failing Resource.volume u t && place Resource.volume u then some t else read p)
    unfolding sync_volume is_failing kept_tenant
    read-sync_volume u t p = ground (
      arith,
      reserved-reserve_cluster cid cid Resource.volume s u v (with_tenant_uuid t ∷ [])
          p.reservations,
    )

    pub read-sync_instance :
        (u t : String) (p : Progress)
        → read (sync_instance env cid u t p) ≡ (
            if is_failing Resource.instance_ u t && place Resource.instance_ u
            then some t
            else read p)
    unfolding sync_instance is_failing kept_tenant
    read-sync_instance u t p = ground (
      arith,
      reserved-reserve_cluster cid cid Resource.instance_ s u v (with_tenant_uuid t ∷ [])
          p.reservations,
    )
