-- ===== src/Notification/Returns/Cases.antt =====
-- The cases of floating IPs and of attachments in
-- cluster-manager/client/openstack/notification/notification.go return.
use cdm_center.Prelude.{
  ℕ, String, Bool, true, false, Option, none, some, List, ◌≡◌, ◌≢◌, refl, if◌then◌else◌, String-Eq,
  Bool-cases, Option-cases, inl, inr, arith,
}
use cdm_center.Errors.{Error}
use cdm_center.Cluster.Store.{Result}
use cdm_center.Sync.Resource.{Resource}
use cdm_center.Notification.Payload.{Value, Values, Fields, get, as_array, has_text, text_at}
use cdm_center.Notification.Keys.{
  has_keys, has_keys_of, has_entries, and_tenant, have_instance, has_attachment_keys,
}
use cdm_center.Notification.Calls.{World, after}
use cdm_center.Notification.Cases.{
  reserve_attachments, attach, detach, reserve_attachment, reserve_found, reserve_behind,
  reserve_floating_ip, reserve_floating_ip_of, reserve_detached, find_instance, show_port,
  reserve_owner, get_instance_from_floating_ip,
}
use cdm_center.Notification.Handler.{guarded}
use cdm_center.Notification.Returns.Objects.{
  are_objects, are_objects_if, is_port_id, has_port_id, Returns, guarded-cases, owner-Returns,
  some-injective,
}

find_instance-present :
    (w : World) (v : Value) (u : String) → is_port_id v ≡ true → find_instance w v (some u) ≢ none
unfolding find_instance show_port
find_instance-present w Value.null u h n = absurd (ground (arith, n))
find_instance-present w (Value.text s) u h n = elim (Option-cases w.connect) [
  | inl e ↦ absurd (ground (arith, e, n))
  | inr (x, e) ↦ absurd (ground (arith, e, n))
]
find_instance-present w Value.scalar u h n = absurd (ground (arith, h))
find_instance-present w (Value.array vs) u h n = absurd (ground (arith, h))
find_instance-present w (Value.object o) u h n = absurd (ground (arith, h))

behind-Returns :
    (cid : ℕ) (f : Option (Result (Option String) Error))
    → f ≢ none
    → Returns (reserve_behind cid f)
unfolding reserve_behind reserve_found
behind-Returns cid none n = absurd (n refl)
behind-Returns cid (some (Result.error e)) n = (some e, refl)
behind-Returns cid (some (Result.ok none)) n = (none, refl)
behind-Returns cid (some (Result.ok (some i))) n = (none, refl)

floating_ip_of-Returns :
    (w : World) (deletion update : Bool) (o : Fields) (u : Option String)
    → has_port_id update (some o) ≡ true
    → text_at "id" o ≡ u
    → (if has_text u then if deletion then has_text (text_at "tenant_id" o) else true else false)
      ≡ true
    → Returns (reserve_floating_ip_of w deletion update o u)
unfolding reserve_floating_ip_of after get_instance_from_floating_ip has_port_id reserve_owner
floating_ip_of-Returns w deletion update o none p e h = absurd (ground (arith, h))
floating_ip_of-Returns w true update o (some u) p e h =
    owner-Returns w.cluster_id true (some Resource.floating_ip) u (text_at "tenant_id" o)
      (ground (arith, h))
floating_ip_of-Returns w false false o (some u) p e h = (none, refl)
floating_ip_of-Returns w false true o (some u) p e h = rw e (
    behind-Returns w.cluster_id (find_instance w (get "port_id" o) (some u))
      (find_instance-present w (get "port_id" o) u p))

pub floating_ip-Returns :
    (w : World) (deletion update : Bool) (o : Option Fields)
    → has_port_id update o ≡ true
    → Returns (
        guarded (has_keys_of "id" deletion "tenant_id" o) (reserve_floating_ip w deletion update o))
unfolding has_keys_of has_keys reserve_floating_ip has_port_id
floating_ip-Returns w deletion update none h = absurd (ground (arith, h))
floating_ip-Returns w deletion update (some o) h =
    guarded-cases (has_keys_of "id" deletion "tenant_id" (some o))
      (reserve_floating_ip w deletion update (some o)) (λ n. ground (arith, n))
      (λ k. floating_ip_of-Returns w deletion update o (text_at "id" o) h refl (some-injective k))

entries-present : (vs : Values) → are_objects vs ≡ true → have_instance vs ≢ none
unfolding are_objects have_instance
entries-present Values.no_more h n = ground (arith, n)
entries-present (Values.item (Value.object o) vs) h n =
    let ih = entries-present vs h in ground (arith, ih, n)
entries-present (Values.item Value.null vs) h n = ground (arith, h)
entries-present (Values.item (Value.text s) vs) h n = ground (arith, h)
entries-present (Values.item Value.scalar vs) h n = ground (arith, h)
entries-present (Values.item (Value.array us) vs) h n = ground (arith, h)

attachments-Returns :
    (cid : ℕ) (vs : Values)
    → are_objects vs ≡ true
    → have_instance vs ≡ some true
    → Returns (reserve_attachments cid vs)
unfolding are_objects have_instance reserve_attachments
attachments-Returns cid Values.no_more h k = (none, refl)
attachments-Returns cid (Values.item (Value.object o) vs) h k =
    elim (Option-cases (text_at "instance_uuid" o)) [
      | inl e ↦ absurd (ground (arith, e, k))
      | inr (i, e) ↦
          let rest : have_instance vs ≡ some true = ground (arith, e, k) in
          rw (e, reserve_attachments, after) (attachments-Returns cid vs h rest)
    ]
attachments-Returns cid (Values.item Value.null vs) h k = absurd (ground (arith, h))
attachments-Returns cid (Values.item (Value.text s) vs) h k = absurd (ground (arith, h))
attachments-Returns cid (Values.item Value.scalar vs) h k = absurd (ground (arith, h))
attachments-Returns cid (Values.item (Value.array us) vs) h k = absurd (ground (arith, h))

detach-Returns : (cid : ℕ) (r : Result (List String) Error) → Returns (detach cid r)
unfolding detach
detach-Returns cid (Result.error e) = (some e, refl)
detach-Returns cid (Result.ok us) = (none, refl)

detached-Returns :
    (w : World) (u : String) (t : Option String)
    → has_text t ≡ true
    → Returns (reserve_detached w u t)
unfolding reserve_detached after
detached-Returns w u none h = absurd (ground (arith, h))
detached-Returns w u (some t) h = detach-Returns w.cluster_id (w.get_instances_from_volume u)

and_tenant-true :
    (b : Option Bool) (p : Fields)
    → and_tenant b true p ≡ some true
    → has_text (text_at "tenant_id" p) ≡ true
unfolding and_tenant
and_tenant-true none p h = absurd (ground (arith, h))
and_tenant-true (some true) p h = some-injective h
and_tenant-true (some false) p h = absurd (ground (arith, h))

and_tenant-entries :
    (b : Option Bool) (detached : Bool) (p : Fields)
    → and_tenant b detached p ≡ some true
    → b ≡ some true
unfolding and_tenant
and_tenant-entries none detached p h = absurd (ground (arith, h))
and_tenant-entries (some true) detached p h = refl
and_tenant-entries (some false) detached p h = absurd (ground (arith, h))

-- an attachment whose keys are there
attachment-Returns :
    (w : World) (detached : Bool) (p : Fields) (u : Option String) (vs : Option Values)
    → as_array (get "volume_attachment" p) ≡ vs
    → are_objects_if vs ≡ true
    → has_text u ≡ true
    → has_entries detached p vs ≡ some true
    → Returns (reserve_attachment w detached p u)
unfolding are_objects_if has_entries reserve_attachment after attach
attachment-Returns w detached p none vs e o h k = absurd (ground (arith, h))
attachment-Returns w detached p (some u) none e o h k = absurd (ground (arith, k))
attachment-Returns w false p (some u) (some vs) e o h k =
    rw e (attachments-Returns w.cluster_id vs o (and_tenant-entries (have_instance vs) false p k))
attachment-Returns w true p (some u) (some vs) e o h k =
    detached-Returns w u (text_at "tenant_id" p) (and_tenant-true (have_instance vs) p k)

has_entries-present :
    (detached : Bool) (p : Fields) (vs : Option Values)
    → are_objects_if vs ≡ true
    → has_entries detached p vs ≢ none
unfolding has_entries are_objects_if
has_entries-present detached p none h n = ground (arith, n)
has_entries-present detached p (some vs) h n = elim (Option-cases (have_instance vs)) [
  | inl e ↦ entries-present vs h e
  | inr (true, e) ↦ ground (arith, e, n, and_tenant)
  | inr (false, e) ↦ ground (arith, e, n, and_tenant)
]

pub attached-Returns :
    (w : World) (detached : Bool) (p : Fields)
    → are_objects_if (as_array (get "volume_attachment" p)) ≡ true
    → Returns (
        guarded
          (has_attachment_keys detached p)
          (reserve_attachment w detached p (text_at "volume_id" p)))
unfolding has_attachment_keys guarded
attached-Returns w detached p h = elim (Bool-cases (has_text (text_at "volume_id" p))) [
  | inl e ↦
      let vs = as_array (get "volume_attachment" p) in
      let r = reserve_attachment w detached p (text_at "volume_id" p) in
      rw e (
        guarded-cases (has_entries detached p vs) r (has_entries-present detached p vs h)
          (attachment-Returns w detached p (text_at "volume_id" p) vs refl h e))
  | inr e ↦ rw e (none, refl)
]
