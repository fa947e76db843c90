-- ===== src/Sync/Zones/Get.antt =====
-- `getAvailabilityZone` of cluster-manager/sync/availability_zone.go, where the zone is not in the
-- database at the first look.
use cdm_center.Prelude.{
  ℕ, String, true, false, Option, none, some, List, [], ◌∷◌, ◌==◌, ◌≡◌, ◌≢◌, refl, sym, ◌∙◌, ap,
  subst, arith, String-Eq, eq_iff, Bool-cases, inl, inr,
}
use cdm_center.Prelude.Lists.{All}
use cdm_center.Errors.{Error}
use cdm_center.Cluster.Store.{Result}
use cdm_center.Sync.Resource.{Options}
use cdm_center.Sync.Zones.{
  Zone, Found, Database, Lawful, Run, Outcome, exists, look_again, get_availability_zone,
  sync_cluster_availability_zone_list,
}
use cdm_center.Sync.Zones.Mirror.{Listed, Stored, sync_list-Stored, sync_list-exists}

-- a zone of a list with a name
listed_named :
    (name : String) (P : Zone → Type 0) (zs : List Zone)
    → exists name zs ≡ true
    → All P zs
    → (z : Zone) × (P z × (z.name ≡ name))
unfolding exists
listed_named name P [] h a = absurd (ground (arith, h))
listed_named name P (z ∷ zs) h a = elim (Bool-cases (z.name == name)) [
  | inl e ↦ (z, (a.0, (eq_iff z.name name).0 e))
  | inr e ↦ listed_named name P zs (ground (arith, h, e)) a.1
]

module _ {S : Type 0} (db : Database S) (law : Lawful db) (cid : ℕ) where
  -- A row of the cluster with a name.
  unfoldable pub IsRow : String → Zone → S → Type 0
  IsRow name z s = (law.row z.id s ≡ some z) × (z.cluster_id ≡ cid) × (z.name ≡ name)

  -- What the answer says of the zone with the name: it is listed, and this is its row, or it is not
  -- listed.
  unfoldable pub Answers : String → List Zone → S → Option Zone → Type 0
  Answers name zs s none = exists name zs ≡ false
  Answers name zs s (some z) = (exists name zs ≡ true) × IsRow name z s

  seen : String → Run db → Found → Run db × Result (Option Zone) Error
  seen name run (Found.found z) = (run, Result.ok (some z))
  seen name run Found.not_found = (run, Result.ok none)
  seen name run Found.failed = (run, Result.error Error.unusable_database)

  look_again-seen :
      (name : String) (run : Run db) (f : Found)
      → db.first cid name run.state ≡ f
      → look_again db cid name (run, none) ≡ seen name run f
  unfolding look_again seen
  look_again-seen name run (Found.found y) e = rw (e, look_again) refl
  look_again-seen name run Found.not_found e = rw (e, look_again) refl
  look_again-seen name run Found.failed e = rw (e, look_again) refl

  -- The database behind a synchronization of the list without an error.
  record Synced (zs : List Zone) (s : S) : Type 0 where
    stored : All (λ z. Stored db law cid z s) zs
    listed :
        (id : ℕ) (r : Zone) → law.row id s ≡ some r → r.cluster_id ≡ cid → exists r.name zs ≡ true

  missing-unlisted :
      (name : String) (zs : List Zone) (s : S)
      → cid ≢ 0
      → name ≢ ""
      → Synced zs s
      → db.first cid name s ≡ Found.not_found
      → exists name zs ≡ false
  unfolding Stored
  missing-unlisted name zs s n named y e = elim (Bool-cases (exists name zs)) [
    | inr e_no ↦ e_no
    | inl there_is ↦
        let (z, ((id, r, there, mine, same, up), is)) =
          listed_named name (λ z. Stored db law cid z s) zs there_is y.stored in
        absurd (law.first-not_found cid name s id r n named e there mine (same ∙ is))
  ]

  seen-Answers :
      (name : String) (zs : List Zone) (run : Run db) (f : Found) (o : Option Zone)
      → cid ≢ 0
      → name ≢ ""
      → Synced zs run.state
      → db.first cid name run.state ≡ f
      → (seen name run f).1 ≡ Result.ok o
      → Answers name zs ((seen name run f).0.state) o
  unfolding seen Answers IsRow
  seen-Answers name zs run (Found.found z) o n named y e h =
      let k = law.first-found cid name run.state z n named e in
      let is : some z ≡ o = ground (arith, h) in
      subst (Answers name zs run.state) is
        (ap (λ x. exists x zs) (sym k.2) ∙ y.listed z.id z k.0 k.1, k)
  seen-Answers name zs run Found.not_found o n named y e h =
      let is : none ≡ o = ground (arith, h) in
      subst (Answers name zs run.state) is (missing-unlisted name zs run.state n named y e)
  seen-Answers name zs run Found.failed o n named y e h = absurd (ground (arith, h))

  look_again-Answers :
      (name : String) (zs : List Zone) (p : Outcome db) (o : Option Zone)
      → cid ≢ 0
      → name ≢ ""
      → (p.1 ≡ none → Synced zs p.0.state)
      → (look_again db cid name p).1 ≡ Result.ok o
      → Answers name zs ((look_again db cid name p).0.state) o
  unfolding look_again
  look_again-Answers name zs (run, some e) o n named y h = absurd (ground (arith, h))
  look_again-Answers name zs (run, none) o n named y h =
      let f = db.first cid name run.state in
      subst (λ a. a.1 ≡ Result.ok o → Answers name zs a.0.state o)
        (sym (look_again-seen name run f refl))
        (λ k. seen-Answers name zs run f o n named (y refl) refl k) h

  missed-look_again :
      (opts : List (Options → Options)) (answer : Result (List Zone) Error) (az : Zone)
      (run : Run db)
      → db.first cid az.name run.state ≡ Found.not_found
      → get_availability_zone db cid opts answer az run
        ≡ look_again db cid az.name (sync_cluster_availability_zone_list db cid opts answer run)
  unfolding get_availability_zone
  missed-look_again opts answer az run e = rw (e, get_availability_zone) refl

-- Over a database that keeps its laws, for a cluster whose id is not zero and a list of zones with
-- names, without ids and each name once: where a zone with a name is not in the database and
-- getAvailabilityZone returns no error, the zone that it returns is listed and is the row of that
-- cluster and name behind the call, and it returns none only if no zone of that name is listed.
pub get_availability_zone-Answers :
    {S : Type 0} (db : Database S) (law : Lawful db) (cid : ℕ) (opts : List (Options → Options))
    (zs : List Zone) (az : Zone) (o : Option Zone) (run : Run db)
    → cid ≢ 0
    → az.name ≢ ""
    → Listed zs
    → db.first cid az.name run.state ≡ Found.not_found
    → (get_availability_zone db cid opts (Result.ok zs) az run).1 ≡ Result.ok o
    → Answers db law cid az.name zs
        ((get_availability_zone db cid opts (Result.ok zs) az run).0.state)
        o
get_availability_zone-Answers db law cid opts zs az o run n named l e h =
    let p = sync_cluster_availability_zone_list db cid opts (Result.ok zs) run in
    let synced : p.1 ≡ none → Synced db law cid zs p.0.state = λ done. record {
      stored = sync_list-Stored db law cid opts zs run n l done;
      listed = λ id r there mine. sync_list-exists db law cid opts zs run id r n l done there mine;
    } in
    subst (λ a. a.1 ≡ Result.ok o → Answers db law cid az.name zs a.0.state o)
      (sym (missed-look_again db law cid opts (Result.ok zs) az run e))
      (look_again-Answers db law cid az.name zs p o n named synced) h
