-- ===== src/Sync/Reserve/Entry.antt =====
-- What is reserved, as a table from resource type and uuid to tenant, and how `reserve` and
-- `Reserve` of cluster-manager/sync/sync.go change it.
use cdm_center.Prelude.{
  ℕ, String, Bool, true, false, ◌&&◌, ◌||◌, not, Option, none, some, List, ◌==◌, ◌≡◌, ◌≢◌, refl, ap,
  ◌∙◌, if◌then◌else◌, arith, String-Eq, ℕ-Eq, eq_iff, nat_eq_iff, Bool-cases, inl, inr,
}
use cdm_center.Prelude.Dict.{Dict, lookup, insert, lookup-insert}
use cdm_center.Sync.Resource.{
  Resource, Options, no_options, apply_options, Resource-Eq, resource_eq, resource_eq_iff,
}
use cdm_center.Sync.Reserve.{
  ReservedSynchronizer, Reservations, entry_or_empty, or_empty_map, is_list, record_reservation,
  reserve, reserve_cluster,
}

abbrev pub when : Bool → Option String
when true = some ""
when false = none

abbrev pub no_tenant : Option Bool → Option String
no_tenant none = none
no_tenant (some _) = some ""

-- The tenant under which a resource is reserved; the types that keep no tenant have the empty one.
unfoldable pub entry : ReservedSynchronizer → Resource → String → Option String
entry rs Resource.availability_zone_list uuid = when rs.availability_zone_list
entry rs Resource.hypervisor_list uuid = when rs.hypervisor_list
entry rs Resource.tenant uuid = no_tenant (lookup uuid rs.projects)
entry rs Resource.keypair uuid = no_tenant (lookup uuid rs.keypairs)
entry rs Resource.storage uuid = no_tenant (lookup uuid rs.volume_types)
entry rs Resource.instance_ uuid = lookup uuid rs.instances
entry rs Resource.volume uuid = lookup uuid rs.volumes
entry rs Resource.volume_snapshot uuid = lookup uuid rs.volume_snapshots
entry rs Resource.network uuid = lookup uuid rs.networks
entry rs Resource.subnet uuid = lookup uuid rs.subnets
entry rs Resource.security_group uuid = lookup uuid rs.security_groups
entry rs Resource.security_group_rule uuid = lookup uuid rs.security_group_rules
entry rs Resource.router uuid = lookup uuid rs.routers
entry rs Resource.floating_ip uuid = lookup uuid rs.floating_ips
entry rs _ uuid = none

entry-record_reservation_ne :
    (r s : Resource) (u v : String) (o : Options) (rs : ReservedSynchronizer)
    → r ≢ s
    → entry (record_reservation r u o rs) s v ≡ entry rs s v
unfolding entry record_reservation
entry-record_reservation_ne Resource.tenant_list Resource.tenant_list u v o rs h = refl
entry-record_reservation_ne _ _ u v o rs h = ground arith

-- What `reserve` writes for a type: the option's tenant, or the empty text where no tenant is
-- kept; `none` for a type that has no place in a reservation.
unfoldable pub kept_tenant : Resource → Options → Option String
kept_tenant Resource.availability_zone_list o = some ""
kept_tenant Resource.hypervisor_list o = some ""
kept_tenant Resource.tenant o = some ""
kept_tenant Resource.keypair o = some ""
kept_tenant Resource.storage o = some ""
kept_tenant Resource.instance_ o = some o.tenant_uuid
kept_tenant Resource.volume o = some o.tenant_uuid
kept_tenant Resource.volume_snapshot o = some o.tenant_uuid
kept_tenant Resource.network o = some o.tenant_uuid
kept_tenant Resource.subnet o = some o.tenant_uuid
kept_tenant Resource.security_group o = some o.tenant_uuid
kept_tenant Resource.security_group_rule o = some o.tenant_uuid
kept_tenant Resource.router o = some o.tenant_uuid
kept_tenant Resource.floating_ip o = some o.tenant_uuid
kept_tenant _ o = none

entry-record_reservation_self :
    (r : Resource) (u v : String) (o : Options) (rs : ReservedSynchronizer)
    → entry (record_reservation r u o rs) r v
      ≡ (if is_list r || u == v then kept_tenant r o else entry rs r v)
unfolding entry record_reservation kept_tenant
entry-record_reservation_self Resource.tenant_list u v o rs = ground arith
entry-record_reservation_self Resource.tenant u v o rs = rw lookup-insert (ground arith)
entry-record_reservation_self Resource.storage u v o rs = rw lookup-insert (ground arith)
entry-record_reservation_self Resource.keypair u v o rs = rw lookup-insert (ground arith)
entry-record_reservation_self Resource.instance_ u v o rs = rw lookup-insert (ground arith)
entry-record_reservation_self Resource.volume u v o rs = rw lookup-insert (ground arith)
entry-record_reservation_self Resource.volume_snapshot u v o rs = rw lookup-insert (ground arith)
entry-record_reservation_self Resource.network u v o rs = rw lookup-insert (ground arith)
entry-record_reservation_self Resource.subnet u v o rs = rw lookup-insert (ground arith)
entry-record_reservation_self Resource.security_group u v o rs = rw lookup-insert (ground arith)
entry-record_reservation_self Resource.security_group_rule u v o rs =
    rw lookup-insert (ground arith)
entry-record_reservation_self Resource.router u v o rs = rw lookup-insert (ground arith)
entry-record_reservation_self Resource.floating_ip u v o rs = rw lookup-insert (ground arith)
entry-record_reservation_self _ u v o rs = ground arith

entry-reserve_self :
    (r : Resource) (u v : String) (opts : List (Options → Options)) (rs : ReservedSynchronizer)
    → entry (reserve r u opts rs) r v ≡ (
        if is_list r || (u == v && not (u == ""))
        then kept_tenant r (apply_options opts no_options)
        else entry rs r v)
unfolding reserve
entry-reserve_self r u v opts rs = ground (
  arith,
  entry-record_reservation_self r u v (apply_options opts no_options) rs,
  eq_iff u v,
  eq_iff u "",
)

-- A reservation of `s` under `v` is what the call wrote, if it wrote that place, and otherwise what
-- it was; an empty uuid writes nothing unless the type is one of the two lists.
entry-reserve :
    (r s : Resource) (u v : String) (opts : List (Options → Options)) (rs : ReservedSynchronizer)
    → entry (reserve r u opts rs) s v ≡ (
        if r == s && (is_list r || (u == v && not (u == "")))
        then kept_tenant r (apply_options opts no_options)
        else entry rs s v)
unfolding reserve
entry-reserve r s u v opts rs = elim (Bool-cases (resource_eq r s)) [
  | inl e ↦ rw e (rw (← (resource_eq_iff r s).0 e) (entry-reserve_self r u v opts rs))
  | inr e ↦ rw e (
      ground (
        arith,
        entry-record_reservation_ne r s u v (apply_options opts no_options) rs,
        resource_eq_iff r s,
      ))
]

-- The reservation of a resource of a cluster; a cluster without an entry has none.
unfoldable pub reserved : Reservations → ℕ → Resource → String → Option String
reserved g cid r u = entry (entry_or_empty (lookup cid (or_empty_map g))) r u

-- One place at most is written, of one cluster.
pub reserved-reserve_cluster :
    (cid c : ℕ) (r s : Resource) (u v : String) (opts : List (Options → Options)) (g : Reservations)
    → reserved (reserve_cluster cid r u opts g) c s v ≡ (
        if cid == c && (r == s && (is_list r || (u == v && not (u == ""))))
        then kept_tenant r (apply_options opts no_options)
        else reserved g c s v)
unfolding reserved reserve_cluster
reserved-reserve_cluster cid c r s u v opts g = rw lookup-insert (
    ground (
      arith,
      nat_eq_iff cid c,
      entry-reserve r s u v opts (entry_or_empty (lookup cid (or_empty_map g))),
    ))

-- whether a cluster has an entry, which a run of `ReservedSync` takes up
unfoldable pub has_entry : Reservations → ℕ → Bool
has_entry g cid = elim (lookup cid (or_empty_map g)) [ none ↦ false | some rs ↦ true ]

has_entry-insert :
    (cid c : ℕ) (rs : ReservedSynchronizer) (m : Dict ℕ ReservedSynchronizer)
    → has_entry (some (insert cid rs m)) c ≡ (cid == c || has_entry (some m) c)
unfolding has_entry
has_entry-insert cid c rs m = rw (has_entry, lookup-insert) (ground (arith, nat_eq_iff cid c))

has_entry-or_empty_map :
    (g : Reservations) (c : ℕ) → has_entry (some (or_empty_map g)) c ≡ has_entry g c
unfolding has_entry
has_entry-or_empty_map none c = refl
has_entry-or_empty_map (some m) c = refl

-- Reserve makes the entry of its cluster if it is not there, and no other; it writes the place of the
-- type and the uuid in it, or none where the uuid is empty and the type is no list, and every other
-- reservation, of whatever cluster, is as before.
pub reserve_cluster-entry :
    (cid c : ℕ) (r s : Resource) (u v : String) (opts : List (Options → Options)) (g : Reservations)
    → (has_entry (reserve_cluster cid r u opts g) c ≡ (cid == c || has_entry g c))
      × (reserved (reserve_cluster cid r u opts g) c s v ≡ (
          if cid == c && (r == s && (is_list r || (u == v && not (u == ""))))
          then kept_tenant r (apply_options opts no_options)
          else reserved g c s v))
unfolding reserve_cluster
reserve_cluster-entry cid c r s u v opts g = (
  has_entry-insert cid c _ (or_empty_map g) ∙ ap (λ b. cid == c || b) (has_entry-or_empty_map g c),
  reserved-reserve_cluster cid c r s u v opts g,
)
