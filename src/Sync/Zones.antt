-- ===== src/Sync/Zones.antt =====
-- The availability zones of a cluster, brought from the cluster into the database:
-- cluster-manager/sync/availability_zone.go. The database is a parameter, with what the code relies
-- on as laws; so is the deletion of the instances and hypervisors of a zone, which is done elsewhere.
pub mod Removed
pub mod Changed
pub mod Unlisted
pub mod Mirror
pub mod Again
pub mod Get
mod Tests
use cdm_center.Prelude.{
  ℕ, String, Bool, true, false, not, ◌&&◌, ◌||◌, Option, none, some, List, [], ◌∷◌, ◌++◌, ◌==◌, ◌≡◌,
  ◌≢◌, if◌then◌else◌, String-Eq, ℕ-Eq,
}
use cdm_center.Prelude.Lists.{any, All}
use cdm_center.Errors.{Error}
unfoldable pub use cdm_center.Steps.{and_then}
use cdm_center.Cluster.Store.{Result}
use cdm_center.Sync.Resource.{Options, no_options, apply_options}

-- a row of the table, `model.ClusterAvailabilityZone`
pub record Zone : Type 0 where
  pub id : ℕ
  pub cluster_id : ℕ
  pub name : String
  pub available : Bool

pub data Found : Type 0 where
  found : Zone → Found
  -- `gorm.ErrRecordNotFound`
  not_found : Found
  failed : Found

-- What the code calls of the database. `none` is an error, behind which the database is as before.
pub record Database (S : Type 0) : Type 0 where
  -- `Where(&model.ClusterAvailabilityZone{ClusterID: c, Name: n}).First(&zone)`
  pub first : ℕ → String → S → Found
  -- `Where(&model.ClusterAvailabilityZone{ClusterID: c}).Find(&zoneList)`
  pub find : ℕ → S → Option (List Zone)
  -- `Save`: the row as it was saved, with its id
  pub save : Zone → S → Option (Zone × S)
  pub delete : Zone → S → Option S
  -- the ids of the instances and hypervisors of the zone with an id
  pub instances : ℕ → S → Option (List ℕ)
  pub hypervisors : ℕ → S → Option (List ℕ)
  -- `s.deleteInstance` and `s.deleteHypervisor`
  pub delete_instance : ℕ → S → S × Option Error
  pub delete_hypervisor : ℕ → S → S × Option Error

-- The laws, by the row that the primary key `id` names.
pub record Lawful {S : Type 0} (db : Database S) : Type 0 where
  pub row : ℕ → S → Option Zone
  pub row-id : (id : ℕ) (s : S) (z : Zone) → row id s ≡ some z → z.id ≡ id
  pub first-found :
      (c : ℕ) (n : String) (s : S) (z : Zone)
      → c ≢ 0
      → n ≢ ""
      → db.first c n s ≡ Found.found z
      → (row z.id s ≡ some z) × (z.cluster_id ≡ c) × (z.name ≡ n)
  pub first-not_found :
      (c : ℕ) (n : String) (s : S) (id : ℕ) (z : Zone)
      → c ≢ 0
      → n ≢ ""
      → db.first c n s ≡ Found.not_found
      → row id s ≡ some z
      → z.cluster_id ≡ c
      → z.name ≢ n
  pub find-sound :
      (c : ℕ) (s : S) (zs : List Zone)
      → c ≢ 0
      → db.find c s ≡ some zs
      → All (λ z. (row z.id s ≡ some z) × (z.cluster_id ≡ c)) zs
  pub find-complete :
      (c : ℕ) (s : S) (zs : List Zone) (id : ℕ) (z : Zone)
      → db.find c s ≡ some zs
      → row id s ≡ some z
      → z.cluster_id ≡ c
      → any (λ y. y.id == id) zs ≡ true
  -- An id of 0 is a new row.
  pub save-new :
      (z y : Zone) (s t : S)
      → z.id ≡ 0
      → db.save z s ≡ some (y, t)
      → (row y.id s ≡ none)
        × (y ≡ record z { id = y.id })
        × ((id : ℕ) → row id t ≡ (if id == y.id then some y else row id s))
  pub save-old :
      (z y : Zone) (s t : S)
      → z.id ≢ 0
      → db.save z s ≡ some (y, t)
      → (y ≡ z) × ((id : ℕ) → row id t ≡ (if id == z.id then some z else row id s))
  pub delete-row :
      (z : Zone) (s t : S)
      → db.delete z s ≡ some t
      → (id : ℕ) → row id t ≡ (if id == z.id then none else row id s)
  pub zero-free : (s : S) → row 0 s ≡ none
  pub delete_instance-row : (i id : ℕ) (s : S) → row id ((db.delete_instance i s).0) ≡ row id s
  pub delete_hypervisor-row : (h id : ℕ) (s : S) → row id ((db.delete_hypervisor h s).0) ≡ row id s

-- The messages handed to `publishMessage`, whose error is only logged.
pub data Notice : Type 0 where
  created updated deleted : Zone → Notice

unfoldable pub compare_availability_zone : Zone → Zone → Bool
compare_availability_zone stored listed =
    if not (stored.name == listed.name)
    then false
    else if stored.available
    then listed.available
    else not listed.available

-- the loop of `syncDeletedAvailabilityZoneList` that sets `exists`
unfoldable pub exists : String → List Zone → Bool
exists name listed = any (λ z. z.name == name) listed

-- `if e := ...; e != nil { err = e }`
unfoldable pub newer : Option Error → Option Error → Option Error
newer none err = err
newer (some e) err = some e

module _ {S : Type 0} (db : Database S) where
  -- the database and the messages so far, with the error that is returned
  pub record Run : Type 0 where
    pub state : S
    pub notices : List Notice

  abbrev pub Outcome : Type 0
  Outcome = Run × Option Error

  unfoldable pub delete_each : (ℕ → S → S × Option Error) → List ℕ → S → S × Option Error
  unfolding and_then
  delete_each delete_one [] s = (s, none)
  delete_each delete_one (i ∷ is) s = and_then (delete_one i s) (delete_each delete_one is)

  -- the row, after its instances and hypervisors
  unfoldable pub delete_row : Zone → List Notice → S × Option Error → Outcome
  delete_row z ns (s, some e) = (record { state = s; notices = ns }, some e)
  delete_row z ns (s, none) = elim (db.delete z s) [
    | none ↦ (record { state = s; notices = ns }, some Error.unusable_database)
    | some t ↦ (record { state = t; notices = ns ++ (Notice.deleted z ∷ []) }, none)
  ]

  unfoldable pub delete_with : Zone → Option (List ℕ) → Option (List ℕ) → Run → Outcome
  unfolding delete_each and_then delete_row
  delete_with z none hs run = (run, some Error.unusable_database)
  delete_with z (some is) none run = (run, some Error.unusable_database)
  delete_with z (some is) (some hs) run =
      delete_row z run.notices (
        and_then (delete_each db.delete_instance is run.state)
          (delete_each db.delete_hypervisor hs))

  unfoldable pub delete_availability_zone : Zone → Run → Outcome
  unfolding delete_with
  delete_availability_zone z run =
      delete_with z (db.instances z.id run.state) (db.hypervisors z.id run.state) run

  -- the loop over the zones of the database that the cluster does not list
  unfoldable pub delete_unlisted : List Zone → List Zone → Run → Outcome
  unfolding exists delete_availability_zone and_then
  delete_unlisted listed [] run = (run, none)
  delete_unlisted listed (z ∷ zs) run = elim (exists z.name listed) [
    | true ↦ delete_unlisted listed zs run
    | false ↦ and_then (delete_availability_zone z run) (delete_unlisted listed zs)
  ]

  unfoldable pub sync_deleted_availability_zone_list : ℕ → List Zone → Run → Outcome
  unfolding delete_unlisted
  sync_deleted_availability_zone_list cid listed run = elim (db.find cid run.state) [
    | none ↦ (run, some Error.unusable_database)
    | some zs ↦ delete_unlisted listed zs run
  ]

  unfoldable pub saved : (Zone → Notice) → Run → Option (Zone × S) → Outcome
  saved notice run none = (run, some Error.unusable_database)
  saved notice run (some (z, t)) =
      (record { state = t; notices = run.notices ++ (notice z ∷ []) }, none)

  -- `SyncClusterAvailabilityZone` by what the database has
  unfoldable pub sync_found : Bool → ℕ → Zone → Run → Found → Outcome
  unfolding saved compare_availability_zone
  sync_found force cid z run Found.failed = (run, some Error.unusable_database)
  sync_found force cid z run Found.not_found =
      saved Notice.created run (db.save (record z { cluster_id = cid }) run.state)
  sync_found force cid z run (Found.found orig) =
      if force || not (compare_availability_zone orig z)
      then saved Notice.updated run
          (db.save (record z { id = orig.id; cluster_id = cid }) run.state)
      else (run, none)

  unfoldable pub sync_cluster_availability_zone :
      ℕ → List (Options → Options) → Zone → Run → Outcome
  unfolding sync_found
  sync_cluster_availability_zone cid opts z run =
      let options = apply_options opts no_options in
      sync_found options.force cid z run (db.first cid z.name run.state)

  -- the loop over the zones of the cluster, with `err`
  unfoldable pub sync_each : ℕ → List (Options → Options) → List Zone → Outcome → Outcome
  unfolding sync_cluster_availability_zone newer
  sync_each cid opts [] o = o
  sync_each cid opts (z ∷ zs) (run, err) =
      let next = sync_cluster_availability_zone cid opts z run in
      sync_each cid opts zs (next.0, newer next.1 err)

  unfoldable pub sync_listed : ℕ → List (Options → Options) → List Zone → Outcome → Outcome
  unfolding sync_each
  sync_listed cid opts listed (run, some e) = (run, some e)
  sync_listed cid opts listed (run, none) = sync_each cid opts listed (run, none)

  -- the argument: the answer of `s.Cli.GetAvailabilityZoneList()`
  unfoldable pub sync_cluster_availability_zone_list :
      ℕ → List (Options → Options) → Result (List Zone) Error → Run → Outcome
  unfolding sync_deleted_availability_zone_list sync_listed
  sync_cluster_availability_zone_list cid opts (Result.error e) run = (run, some e)
  sync_cluster_availability_zone_list cid opts (Result.ok listed) run =
      sync_listed cid opts listed (sync_deleted_availability_zone_list cid listed run)

  -- `getAvailabilityZone`, behind the synchronization of the list: nil without an error where there is
  -- still no row
  unfoldable pub look_again : ℕ → String → Outcome → Run × Result (Option Zone) Error
  look_again cid name (run, some e) = (run, Result.error e)
  look_again cid name (run, none) = elim (db.first cid name run.state) [
    | Found.found z ↦ (run, Result.ok (some z))
    | Found.not_found ↦ (run, Result.ok none)
    | Found.failed ↦ (run, Result.error Error.unusable_database)
  ]

  unfoldable pub get_availability_zone :
      ℕ
      → List (Options → Options)
      → Result (List Zone) Error
      → Zone
      → Run
      → Run × Result (Option Zone) Error
  unfolding look_again sync_cluster_availability_zone_list
  get_availability_zone cid opts answer az run =
      let synced =
        look_again cid az.name (sync_cluster_availability_zone_list cid opts answer run) in
      elim (db.first cid az.name run.state) [
        | Found.found z ↦ (run, Result.ok (some z))
        | _ ↦ synced
      ]
