-- ===== src/Sync/ReservedSync/Tallies.antt =====
-- Messages stand for failed calls, through the loops of `reservedSync`
-- (cluster-manager/sync/sync.go).
use cdm_center.Prelude.{
  ℕ, String, Bool, none, some, List, [], ◌∷◌, ◌++◌, ◌≡◌, ◌≢◌, ◌↔◌, refl, arith, Option-cases, inl,
  inr,
}
use cdm_center.Prelude.Dict.{Dict}
use cdm_center.Prelude.Lists.{All}
use cdm_center.Errors.{Error}
use cdm_center.Sync.Resource.{Resource, Options, with_tenant_uuid, make_failed_message}
use cdm_center.Sync.Reserve.{ReservedSynchronizer}
use cdm_center.Sync.ReservedSync.{
  Env, Call, Progress, sync, wait_volume_status, wait_instance_status, called, failed, sync_one,
  sync_named, sync_item, sync_volume, sync_instance, each, sync_rest,
}

module _ {ℓ κ} {A : Type ℓ} (P : A → Type κ) where
  pub All-snoc_iff : (xs : List A) (x : A) → All P (xs ++ x ∷ []) ↔ (All P xs × P x)
  All-snoc_iff [] x = (λ h. (tt, h.0), λ h. (h.1, tt))
  All-snoc_iff (y ∷ xs) x =
      let ih = All-snoc_iff xs x in
      (λ h. ((h.0, (ih.0 h.1).0), (ih.0 h.1).1), λ h. (h.0.0, ih.1 (h.0.1, h.1)))

snoc-ne-nil {ℓ} : {A : Type ℓ} (xs : List A) (x : A) → xs ++ x ∷ [] ≢ []
snoc-ne-nil [] x h = cc
snoc-ne-nil (y ∷ xs) x h = cc

module _ (env : Env) (cid : ℕ) where
  -- the call brought no error back
  abbrev pub Succeeds : Call → Type 0
  Succeeds c = env.outcome c ≡ none

  -- Messages stand for failed calls, and without one `err` holds nothing.
  pub record Tallies (p : Progress) : Type 0 where
    pub ok_of_nil : p.failed_reason ≡ [] → All Succeeds p.calls
    pub nil_of_ok : All Succeeds p.calls → (p.failed_reason ≡ []) × (p.err ≡ none)

  called-Tallies : (c : Call) (p : Progress) → Succeeds c → Tallies p → Tallies (called c p)
  unfolding called
  called-Tallies c p ok h = record {
    ok_of_nil = λ e. (All-snoc_iff Succeeds p.calls c).1 (h.ok_of_nil e, ok);
    nil_of_ok = λ a. h.nil_of_ok ((All-snoc_iff Succeeds p.calls c).0 a).0;
  }

  failed-Tallies :
      (c : Call) (r : Resource) (u : String) (opts : List (Options → Options)) (e : Error)
      (p q : Progress)
      → env.outcome c ≡ some e
      → q.calls ≡ p.calls ++ c ∷ []
      → Tallies (failed cid r u opts q)
  unfolding failed
  failed-Tallies c r u opts e p q bad same = record {
    ok_of_nil = λ n. absurd (snoc-ne-nil q.failed_reason (make_failed_message r) n);
    nil_of_ok =
        λ a. let ok = ((All-snoc_iff Succeeds p.calls c).0 (rw same at a)).1 in cc (ok, bad);
  }

  sync_one-Tallies :
      (r : Resource) (u t : String) (opts : List (Options → Options)) (p : Progress)
      → Tallies p
      → Tallies (sync_one env cid r u t opts p)
  unfolding sync_one
  sync_one-Tallies r u t opts p h = elim (Option-cases (env.outcome (sync r u t))) [
    | inl e ↦ rw (sync_one, e) (called-Tallies (sync r u t) p e h)
    | inr (x, e) ↦ rw (sync_one, e) (failed-Tallies (sync r u t) r u opts x p _ e refl)
  ]

  sync_volume-Tallies :
      (u t : String) (p : Progress) → Tallies p → Tallies (sync_volume env cid u t p)
  unfolding sync_volume
  sync_volume-Tallies u t p h = elim (Option-cases (env.outcome (wait_volume_status u))) [
    | inl e ↦
        rw (sync_volume, e)
          (sync_one-Tallies Resource.volume u t (with_tenant_uuid t ∷ []) _
            (called-Tallies (wait_volume_status u) p e h))
    | inr (x, e) ↦
        rw (sync_volume, e)
          (failed-Tallies (wait_volume_status u) Resource.volume u (with_tenant_uuid t ∷ []) x p _ e
            refl)
  ]

  waited-Tallies :
      (c : Call) (p : Progress)
      → Succeeds c
      → Tallies p
      → Tallies (record (called c p) { err = env.outcome c })
  unfolding called
  waited-Tallies c p ok h = record {
    ok_of_nil = λ e. (All-snoc_iff Succeeds p.calls c).1 (h.ok_of_nil e, ok);
    nil_of_ok = λ a. ((h.nil_of_ok ((All-snoc_iff Succeeds p.calls c).0 a).0).0, ok);
  }

  sync_instance-Tallies :
      (u t : String) (p : Progress) → Tallies p → Tallies (sync_instance env cid u t p)
  unfolding sync_instance
  sync_instance-Tallies u t p h = elim (Option-cases (env.outcome (wait_instance_status u))) [
    | inl e ↦
        let c = wait_instance_status u in
        let next =
          sync_one-Tallies Resource.instance_ u t (with_tenant_uuid t ∷ []) _
            (waited-Tallies c p e h) in
        ground (arith, next, e)
    | inr (x, e) ↦
        rw (sync_instance, e)
          (failed-Tallies (wait_instance_status u) Resource.instance_ u (with_tenant_uuid t ∷ []) x
            p _ e refl)
  ]

  each-Tallies {ℓ} :
      {V : Type ℓ} (body : String → V → Progress → Progress)
      → ((u : String) (t : V) (p : Progress) → Tallies p → Tallies (body u t p))
      → (m : Dict String V) (p : Progress) → Tallies p
      → Tallies (each body m p)
  unfolding each
  each-Tallies body keep [] p h = h
  each-Tallies body keep ((u, t) ∷ m) p h = each-Tallies body keep m (body u t p) (keep u t p h)

  items-Tallies :
      (r : Resource) (m : Dict String String) (p : Progress)
      → Tallies p
      → Tallies (each (sync_item env cid r) m p)
  unfolding sync_item
  items-Tallies r = each-Tallies _ (λ u t. sync_one-Tallies r u t (with_tenant_uuid t ∷ []))

  pub names-Tallies :
      (r : Resource) (m : Dict String Bool) (p : Progress)
      → Tallies p
      → Tallies (each (sync_named env cid r) m p)
  unfolding sync_named
  names-Tallies r = each-Tallies _ (λ u b. sync_one-Tallies r u "" [])

  pub rest-Tallies :
      (rs : ReservedSynchronizer) (p : Progress) → Tallies p → Tallies (sync_rest env cid rs p)
  unfolding sync_rest
  rest-Tallies rs p h = each-Tallies _ sync_instance-Tallies rs.instances _ (
      names-Tallies Resource.keypair rs.keypairs _ (
        items-Tallies Resource.volume_snapshot rs.volume_snapshots _ (
          each-Tallies _ sync_volume-Tallies rs.volumes _ (
            names-Tallies Resource.storage rs.volume_types _ (
              items-Tallies Resource.floating_ip rs.floating_ips _ (
                items-Tallies Resource.router rs.routers _ (
                  items-Tallies Resource.subnet rs.subnets _ (
                    items-Tallies Resource.network rs.networks _ (
                      items-Tallies Resource.security_group_rule rs.security_group_rules _
                        (items-Tallies Resource.security_group rs.security_groups _ h))))))))))
