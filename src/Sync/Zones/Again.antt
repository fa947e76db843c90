-- ===== src/Sync/Zones/Again.antt =====
-- A second run of `SyncClusterAvailabilityZoneList` of cluster-manager/sync/availability_zone.go finds
-- nothing to do.
use cdm_center.Prelude.{
  ℕ, true, false, none, some, List, [], ◌∷◌, ◌≡◌, ◌≢◌, refl, sym, ap, ◌∙◌, subst, String-Eq, ℕ-Eq,
  arith, eq_iff,
}
use cdm_center.Prelude.Lists.{All}
use cdm_center.Cluster.Store.{Result}
use cdm_center.Sync.Resource.{Options, no_options, apply_options}
use cdm_center.Sync.Zones.{
  Zone, Found, Database, Lawful, Run, exists, newer, delete_unlisted,
  sync_deleted_availability_zone_list, sync_found, sync_cluster_availability_zone, sync_each,
  sync_listed, sync_cluster_availability_zone_list, compare_availability_zone,
}
use cdm_center.Sync.Zones.Mirror.{Listed, Stored, sync_list-Stored, sync_list-exists}

compare_same :
    (a b : Zone)
    → a.name ≡ b.name
    → a.available ≡ b.available
    → compare_availability_zone a b ≡ true
unfolding compare_availability_zone
compare_same a b n e = ground (arith, n, e, eq_iff a.name b.name)

module _ {S : Type 0} (db : Database S) (law : Lawful db) (cid : ℕ) where
  -- no two rows of the cluster have the same name
  unfoldable pub Unique : S → Type 0
  Unique s =
      (i j : ℕ) (q r : Zone)
      → law.row i s ≡ some q
      → law.row j s ≡ some r
      → q.cluster_id ≡ cid
      → r.cluster_id ≡ cid
      → q.name ≡ r.name
      → i ≡ j

  -- a zone that is in the database as the cluster lists it
  Settled : S → Zone → Type 0
  Settled s z =
      (orig : Zone) × (db.first cid z.name s ≡ Found.found orig)
      × (compare_availability_zone orig z ≡ true)

  Settled-zone :
      (opts : List (Options → Options)) (z : Zone) (run : Run db)
      → (apply_options opts no_options).force ≡ false
      → Settled run.state z
      → sync_cluster_availability_zone db cid opts z run ≡ (run, none)
  unfolding Settled sync_cluster_availability_zone sync_found
  Settled-zone opts z run f (orig, e, c) = rw (e, f, c) refl

  Settled-each :
      (opts : List (Options → Options)) (zs : List Zone) (run : Run db)
      → (apply_options opts no_options).force ≡ false
      → All (Settled run.state) zs
      → sync_each db cid opts zs (run, none) ≡ (run, none)
  unfolding sync_each newer
  Settled-each opts [] run f h = refl
  Settled-each opts (z ∷ zs) run f h =
      rw (Settled-zone opts z run f h.0) (Settled-each opts zs run f h.1)

  listed-unlisted :
      (zs ys : List Zone) (run : Run db)
      → All (λ y. exists y.name zs ≡ true) ys
      → delete_unlisted db zs ys run ≡ (run, none)
  unfolding delete_unlisted
  listed-unlisted zs [] run h = refl
  listed-unlisted zs (y ∷ ys) run h = rw (h.0, delete_unlisted) (listed-unlisted zs ys run h.1)

  All-exists :
      (zs ys : List Zone) (s : S)
      → All (λ y. (law.row y.id s ≡ some y) × (y.cluster_id ≡ cid)) ys
      → ((id : ℕ) (r : Zone) → law.row id s ≡ some r → r.cluster_id ≡ cid → exists r.name zs ≡ true)
      → All (λ y. exists y.name zs ≡ true) ys
  All-exists zs [] s sound l = tt
  All-exists zs (y ∷ ys) s sound l = (l y.id y sound.0.0 sound.0.1, All-exists zs ys s sound.1 l)

  -- what `First` finds is the one row of the name
  found-Settled :
      (z : Zone) (s : S) (f : Found)
      → cid ≢ 0
      → z.name ≢ ""
      → Unique s
      → Stored db law cid z s
      → f ≢ Found.failed
      → db.first cid z.name s ≡ f
      → Settled s z
  unfolding Settled Unique Stored
  found-Settled z s Found.failed n named u st ok e = absurd (ok refl)
  found-Settled z s Found.not_found n named u (id, r, here, c, same, a) ok e =
      absurd (law.first-not_found cid z.name s id r n named e here c same)
  found-Settled z s (Found.found orig) n named u (id, r, here, c, same, a) ok e =
      let (there, oc, on) = law.first-found cid z.name s orig n named e in
      let i : orig.id ≡ id = u orig.id id orig r there here oc c (on ∙ sym same) in
      let moved = subst (λ j. law.row j s ≡ some orig) i there in
      let whole : some orig ≡ some r = sym moved ∙ here in
      let one : orig ≡ r = ap (λ o. elim o [ none ↦ orig | some x ↦ x ]) whole in
      (orig, e, compare_same orig z on (ap (λ x. x.available) one ∙ a))

  All-Settled :
      (zs : List Zone) (s : S)
      → cid ≢ 0
      → Listed zs
      → Unique s
      → All (λ z. Stored db law cid z s) zs
      → All (λ z. db.first cid z.name s ≢ Found.failed) zs
      → All (Settled s) zs
  unfolding Listed
  All-Settled [] s n l u st ok = tt
  All-Settled (z ∷ zs) s n (named, zero, fresh, l) u st ok = (
    found-Settled z s (db.first cid z.name s) n named u st.0 ok.0 refl,
    All-Settled zs s n l u st.1 ok.1,
  )

  listed-deleted :
      (zs ys : List Zone) (run : Run db)
      → db.find cid run.state ≡ some ys
      → All (λ y. exists y.name zs ≡ true) ys
      → sync_deleted_availability_zone_list db cid zs run ≡ (run, none)
  unfolding sync_deleted_availability_zone_list
  listed-deleted zs ys run e l =
      rw (e, sync_deleted_availability_zone_list) (listed-unlisted zs ys run l)

  Settled-list :
      (opts : List (Options → Options)) (zs ys : List Zone) (run : Run db)
      → (apply_options opts no_options).force ≡ false
      → db.find cid run.state ≡ some ys
      → All (λ y. exists y.name zs ≡ true) ys
      → All (Settled run.state) zs
      → sync_cluster_availability_zone_list db cid opts (Result.ok zs) run ≡ (run, none)
  unfolding sync_cluster_availability_zone_list sync_listed
  Settled-list opts zs ys run f e l st =
      ap (sync_listed db cid opts zs) (listed-deleted zs ys run e l) ∙ Settled-each opts zs run f st

-- Over a database that keeps its laws, for a cluster whose id is not zero and a list of zones with
-- names, without ids and each name once: where a run returned no error and left no two rows of the
-- cluster with the same name, a second run with the same list and without the option to force it, of
-- which no query fails, changes nothing, publishes nothing and returns no error.
pub sync_list-again :
    {S : Type 0} (db : Database S) (law : Lawful db) (cid : ℕ) (opts : List (Options → Options))
    (zs ys : List Zone) (run next : Run db)
    → cid ≢ 0
    → Listed zs
    → (apply_options opts no_options).force ≡ false
    → sync_cluster_availability_zone_list db cid opts (Result.ok zs) run ≡ (next, none)
    → Unique db law cid next.state
    → db.find cid next.state ≡ some ys
    → All (λ z. db.first cid z.name next.state ≢ Found.failed) zs
    → sync_cluster_availability_zone_list db cid opts (Result.ok zs) next ≡ (next, none)
sync_list-again db law cid opts zs ys run next n l f first_run u e ok =
    let done = ap (λ o. o.1) first_run in
    let at = ap (λ o. o.0.state) first_run in
    let st =
      subst (λ s. All (λ z. Stored db law cid z s) zs) at
        (sync_list-Stored db law cid opts zs run n l done) in
    let within = λ (id : ℕ) (r : Zone) (h : law.row id next.state ≡ some r).
      sync_list-exists db law cid opts zs run id r n l done
        (subst (λ s. law.row id s ≡ some r) (sym at) h) in
    Settled-list db law cid opts zs ys next f e
      (All-exists db law cid zs ys next.state (law.find-sound cid next.state ys n e) within)
      (All-Settled db law cid zs next.state n l u st ok)
