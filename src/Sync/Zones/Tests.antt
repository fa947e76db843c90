-- ===== src/Sync/Zones/Tests.antt =====
-- Runs that take one zone out of the table and add another.
mod OneRow
use cdm_center.Prelude.{
  ℕ, zero, suc, String, Bool, true, false, not, ◌&&◌, ◌||◌, Option, none, some, List, [], ◌∷◌, ◌++◌,
  ◌==◌, ◌≡◌, ◌≢◌, ◌↔◌, refl, sym, ap, ◌∙◌, subst, if◌then◌else◌, String-Eq, ℕ-Eq, nat_eq, str_eq,
  Bool-cases, inl, inr, arith, eq_iff, eq_refl, nat_eq_iff,
}
use cdm_center.Prelude.Lists.{any, All}
use cdm_center.Errors.{Error}
use cdm_center.Cluster.Store.{Result}
use cdm_center.Sync.Resource.{Options, no_options, apply_options}
use cdm_center.Sync.Zones.{
  Zone, Found, Database, Lawful, Notice, Run, Outcome, exists, and_then, newer, delete_each,
  delete_row, delete_with, delete_availability_zone, delete_unlisted,
  sync_deleted_availability_zone_list, saved, sync_found, sync_cluster_availability_zone, sync_each,
  sync_listed, sync_cluster_availability_zone_list, compare_availability_zone, look_again,
  get_availability_zone,
}
use cdm_center.Sync.Zones.Mirror.{Listed, Stored, sync_list-Stored, sync_list-exists}
use cdm_center.Sync.Zones.Get.{Answers, get_availability_zone-Answers}
use cdm_center.Sync.Zones.Again.{Unique, sync_list-again}
use cdm_center.Sync.Zones.Tests.OneRow.{
  row_at-one, Slot, Table, table, table_laws, row_at, zone_of, slot_of,
}

abbrev nova : Zone
nova = record { id = 0; cluster_id = 0; name = "nova"; available = true }

abbrev old_zone : Slot
old_zone = record { cluster = 7; zone_name = "old"; is_available = true }

abbrev before : Run table
before = record { state = some old_zone; notices = [] }

abbrev after_first : Run table
after_first = record {
  state = some (record { cluster = 7; zone_name = "nova"; is_available = true });
  notices =
      Notice.deleted (zone_of old_zone)
      ∷ Notice.created (record { id = 1; cluster_id = 7; name = "nova"; available = true })
      ∷ [];
}

abbrev elsewhere : Zone
elsewhere = record { id = 1; cluster_id = 8; name = "old"; available = true }

nova-Listed : Listed (nova ∷ [])
unfolding Listed exists
nova-Listed = ((λ e. ground (arith, (eq_iff "nova" "").1 e)), refl, refl, tt)

seven : ◌≢◌ {A = ℕ} 7 0
seven e = ground (arith, e)

first_run :
    sync_cluster_availability_zone_list table 7 [] (Result.ok (nova ∷ [])) before
    ≡ (after_first, none)
unfolding sync_cluster_availability_zone_list sync_deleted_availability_zone_list delete_unlisted
    exists delete_availability_zone delete_with delete_each and_then delete_row sync_listed
    sync_each sync_cluster_availability_zone sync_found saved newer
first_run = refl

sync_list-Stored_example :
    All
      (λ z.
        Stored table table_laws 7 z
          ((sync_cluster_availability_zone_list table 7 [] (Result.ok (nova ∷ [])) before).0.state))
      (nova ∷ [])
sync_list-Stored_example =
    sync_list-Stored table table_laws 7 [] (nova ∷ []) before seven nova-Listed
      (ap (λ o. o.1) first_run)

row_after :
    row_at 1
      ((sync_cluster_availability_zone_list table 7 [] (Result.ok (nova ∷ [])) before).0.state)
    ≡ some (record { id = 1; cluster_id = 7; name = "nova"; available = true })
row_after = ap (λ o. row_at 1 o.0.state) first_run

sync_list-exists_example : exists "nova" (nova ∷ []) ≡ true
sync_list-exists_example =
    sync_list-exists table table_laws 7 [] (nova ∷ []) before 1
      (record { id = 1; cluster_id = 7; name = "nova"; available = true }) seven nova-Listed
      (ap (λ o. o.1) first_run) row_after refl

one_row : Unique table table_laws 7 after_first.state
unfolding Unique
one_row i j q r h k c d n =
    row_at-one i after_first.state q h ∙ sym (row_at-one j after_first.state r k)

sync_list-again_example :
    sync_cluster_availability_zone_list table 7 [] (Result.ok (nova ∷ [])) after_first
    ≡ (after_first, none)
sync_list-again_example =
    sync_list-again table table_laws 7 [] (nova ∷ [])
      (record { id = 1; cluster_id = 7; name = "nova"; available = true } ∷ []) before after_first
      seven nova-Listed refl first_run one_row refl ((λ e. ground (arith, e)), tt)

-- the zone is not there, and is found behind the synchronization
found_later :
    (get_availability_zone table 7 [] (Result.ok (nova ∷ [])) nova before).1
    ≡ Result.ok (some (record { id = 1; cluster_id = 7; name = "nova"; available = true }))
unfolding get_availability_zone look_again sync_cluster_availability_zone_list
    sync_deleted_availability_zone_list delete_unlisted exists delete_availability_zone delete_with
    delete_each and_then delete_row sync_listed sync_each sync_cluster_availability_zone sync_found
    saved newer
found_later = refl

get_availability_zone-Answers_example :
    Answers table table_laws 7 "nova"
      (nova ∷ [])
      ((get_availability_zone table 7 [] (Result.ok (nova ∷ [])) nova before).0.state)
      (some (record { id = 1; cluster_id = 7; name = "nova"; available = true }))
unfolding Listed
get_availability_zone-Answers_example =
    get_availability_zone-Answers table table_laws 7 [] (nova ∷ []) nova
      (some (record { id = 1; cluster_id = 7; name = "nova"; available = true })) before seven
      nova-Listed.0 nova-Listed refl found_later
