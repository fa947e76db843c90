-- ===== src/Sync/Zones/Mirror.antt =====
-- What `SyncClusterAvailabilityZoneList` of cluster-manager/sync/availability_zone.go makes of the
-- table: a mirror of the cluster's list.
use cdm_center.Prelude.{
  ℕ, true, false, Option, none, some, List, [], ◌∷◌, ◌≡◌, ◌≢◌, refl, sym, subst, String-Eq, ℕ-Eq,
  inl, inr, ◌⊎◌, ◌↔◌, arith, eq_iff,
}
use cdm_center.Prelude.Lists.{All}
use cdm_center.Errors.{Error}
use cdm_center.Cluster.Store.{Result}
use cdm_center.Sync.Resource.{Options}
use cdm_center.Sync.Zones.{
  Zone, Database, Lawful, Run, Outcome, exists, newer, sync_deleted_availability_zone_list,
  sync_cluster_availability_zone, sync_each, sync_listed, sync_cluster_availability_zone_list,
}
use cdm_center.Sync.Zones.Changed.{Synced, sync_cluster_availability_zone-Synced}
use cdm_center.Sync.Zones.Unlisted.{Trimmed, sync_deleted-Trimmed}

-- What a cluster lists: zones with names and without ids, each name once.
unfoldable pub Listed : List Zone → Type 0
unfolding exists
Listed [] = Unit
Listed (z ∷ zs) = (z.name ≢ "") × (z.id ≡ 0) × (exists z.name zs ≡ false) × Listed zs

newer-none : (e err : Option Error) → newer e err ≡ none → (e ≡ none) × (err ≡ none)
unfolding newer
newer-none none err h = (refl, h)
newer-none (some e) err h = absurd (ground (arith, h))

module _ {S : Type 0} (db : Database S) (law : Lawful db) (cid : ℕ) where
  -- a row of the cluster with the name and the availability of a zone
  unfoldable pub Stored : Zone → S → Type 0
  Stored z s =
      (id : ℕ) × (r : Zone) × (law.row id s ≡ some r)
      × (r.cluster_id ≡ cid)
      × (r.name ≡ z.name)
      × (r.available ≡ z.available)

  -- What the loop does to the rows.
  record Looped (zs : List Zone) (s : S) (err : Option Error) (o : Outcome db) : Type 0 where
    keeps :
        (id : ℕ) (r : Zone)
        → law.row id s ≡ some r
        → (r.cluster_id ≡ cid → exists r.name zs ≡ false)
        → law.row id o.0.state ≡ some r
    only :
        (id : ℕ) (r : Zone)
        → law.row id o.0.state ≡ some r
        → (law.row id s ≡ some r) ⊎ ((r.cluster_id ≡ cid) × (exists r.name zs ≡ true))
    stored : o.1 ≡ none → (err ≡ none) × All (λ z. Stored z o.0.state) zs

  Looped-next :
      (z : Zone) (zs : List Zone) (s : S) (err : Option Error) (o p : Outcome db)
      → exists z.name zs ≡ false
      → Synced db law cid z s o
      → Looped zs o.0.state (newer o.1 err) p
      → Looped (z ∷ zs) s err p
  unfolding exists Stored
  Looped-next z zs s err o p fresh y l = record {
    keeps = λ id r h other.
        l.keeps id r (y.keeps id r h (λ c n. ground (arith, other c, n, eq_iff z.name r.name)))
          (λ c. ground (arith, other c));
    only = λ id r h. elim (l.only id r h) [
      | inl before ↦ elim (y.only id r before) [
        | inl first ↦ inl first
        | inr (c, n) ↦ inr (c, ground (arith, n, eq_iff z.name r.name))
      ]
      | inr (c, e) ↦ inr (c, ground (arith, e))
    ];
    stored = λ x.
        let (both, rest) = l.stored x in
        let (done, clean) = newer-none o.1 err both in
        let (id, r, here, c, n, a) = y.stored done in
        let still = l.keeps id r here (λ k. subst (λ m. exists m zs ≡ false) (sym n) fresh) in
        (clean, ((id, r, still, c, n, a), rest));
  }

  sync_each-Looped :
      (opts : List (Options → Options)) (zs : List Zone) (run : Run db) (err : Option Error)
      → cid ≢ 0
      → Listed zs
      → Looped zs run.state err (sync_each db cid opts zs (run, err))
  unfolding sync_each Listed exists
  sync_each-Looped opts [] run err n l = record {
    keeps = λ id r h other. h;
    only = λ id r h. inl h;
    stored = λ x. (x, tt);
  }
  sync_each-Looped opts (z ∷ zs) run err n (named, zero, fresh, l) =
      let o = sync_cluster_availability_zone db cid opts z run in
      Looped-next z zs run.state err o (sync_each db cid opts zs (o.0, newer o.1 err)) fresh
        (sync_cluster_availability_zone-Synced db law cid opts z run n named zero)
        (sync_each-Looped opts zs o.0 (newer o.1 err) n l)

  -- what comes behind the deletions
  record Mirrored (zs : List Zone) (s : S) (o : Outcome db) : Type 0 where
    elsewhere :
        (id : ℕ) (r : Zone)
        → r.cluster_id ≢ cid
        → (law.row id o.0.state ≡ some r) ↔ (law.row id s ≡ some r)
    stored : o.1 ≡ none → All (λ z. Stored z o.0.state) zs
    listed :
        (id : ℕ) (r : Zone)
        → o.1 ≡ none
        → law.row id o.0.state ≡ some r
        → r.cluster_id ≡ cid
        → exists r.name zs ≡ true

  stopped-Mirrored :
      (zs : List Zone) (s : S) (o : Outcome db) (e : Error)
      → o.1 ≡ some e
      → Trimmed db law zs cid s o
      → Mirrored zs s o
  stopped-Mirrored zs s o e failed t = record {
    elsewhere = λ id r n. ((λ h. t.only id r h), (λ h. t.stays id r h (λ c. absurd (n c))));
    stored = λ x. absurd (ground (arith, failed, x));
    listed = λ id r x h c. absurd (ground (arith, failed, x));
  }

  Looped-Mirrored :
      (zs : List Zone) (s : S) (o p : Outcome db)
      → o.1 ≡ none
      → Trimmed db law zs cid s o
      → Looped zs o.0.state none p
      → Mirrored zs s p
  Looped-Mirrored zs s o p done t l = record {
    elsewhere = λ id r n. (
      (λ h. elim (l.only id r h) [ inl before ↦ t.only id r before | inr (c, e) ↦ absurd (n c) ]),
      (λ h. l.keeps id r (t.stays id r h (λ c. absurd (n c))) (λ c. absurd (n c))),
    );
    stored = λ x. (l.stored x).1;
    listed = λ id r x h c. elim (l.only id r h) [
      | inl before ↦ t.left id r done before c
      | inr (k, e) ↦ e
    ];
  }

  sync_listed-Mirrored :
      (opts : List (Options → Options)) (zs : List Zone) (s : S) (o : Outcome db)
      → cid ≢ 0
      → Listed zs
      → Trimmed db law zs cid s o
      → Mirrored zs s (sync_listed db cid opts zs o)
  unfolding sync_listed
  sync_listed-Mirrored opts zs s (run, some e) n l t = stopped-Mirrored zs s (run, some e) e refl t
  sync_listed-Mirrored opts zs s (run, none) n l t =
      Looped-Mirrored zs s (run, none) (sync_each db cid opts zs (run, none)) refl t
        (sync_each-Looped opts zs run none n l)

  sync_list-Mirrored :
      (opts : List (Options → Options)) (zs : List Zone) (run : Run db)
      → cid ≢ 0
      → Listed zs
      → Mirrored zs run.state (sync_cluster_availability_zone_list db cid opts (Result.ok zs) run)
  unfolding sync_cluster_availability_zone_list
  sync_list-Mirrored opts zs run n l =
      sync_listed-Mirrored opts zs run.state (sync_deleted_availability_zone_list db cid zs run) n l
        (sync_deleted-Trimmed db law zs cid run n)

-- Over a database that keeps its laws, for a cluster whose id is not zero and a list of zones with
-- names, without ids and each name once: where the synchronization of the list returns no error, the
-- database has for each zone of the list a row of the cluster with its name and its availability.
pub sync_list-Stored :
    {S : Type 0} (db : Database S) (law : Lawful db) (cid : ℕ) (opts : List (Options → Options))
    (zs : List Zone) (run : Run db)
    → cid ≢ 0
    → Listed zs
    → (sync_cluster_availability_zone_list db cid opts (Result.ok zs) run).1 ≡ none
    → All
        (λ z.
          Stored db law cid z
            ((sync_cluster_availability_zone_list db cid opts (Result.ok zs) run).0.state))
        zs
sync_list-Stored db law cid opts zs run n l done =
    let m = sync_list-Mirrored db law cid opts zs run n l in m.stored done

-- Over a database that keeps its laws, for a cluster whose id is not zero and a list of zones with
-- names, without ids and each name once: where the synchronization of the list returns no error,
-- every row of the cluster has the name of a zone of the list.
pub sync_list-exists :
    {S : Type 0} (db : Database S) (law : Lawful db) (cid : ℕ) (opts : List (Options → Options))
    (zs : List Zone) (run : Run db) (id : ℕ) (r : Zone)
    → cid ≢ 0
    → Listed zs
    → (sync_cluster_availability_zone_list db cid opts (Result.ok zs) run).1 ≡ none
    → law.row id ((sync_cluster_availability_zone_list db cid opts (Result.ok zs) run).0.state)
      ≡ some r
    → r.cluster_id ≡ cid
    → exists r.name zs ≡ true
sync_list-exists db law cid opts zs run id r n l done h c =
    let m = sync_list-Mirrored db law cid opts zs run n l in m.listed id r done h c

-- Over a database that keeps its laws, for a cluster whose id is not zero and a list of zones with
-- names, without ids and each name once: whatever the synchronization of the list returns, a row of
-- another cluster is there behind it exactly if it was there before.
pub sync_list-elsewhere :
    {S : Type 0} (db : Database S) (law : Lawful db) (cid : ℕ) (opts : List (Options → Options))
    (zs : List Zone) (run : Run db) (id : ℕ) (r : Zone)
    → cid ≢ 0
    → Listed zs
    → r.cluster_id ≢ cid
    → (law.row id ((sync_cluster_availability_zone_list db cid opts (Result.ok zs) run).0.state)
        ≡ some r)
      ↔ (law.row id run.state ≡ some r)
sync_list-elsewhere db law cid opts zs run id r n l other =
    let m = sync_list-Mirrored db law cid opts zs run n l in m.elsewhere id r other
