-- ===== src/Stored/Tests.antt =====
-- A storage and its metadata in a store in memory.
use cdm_center.Prelude.{
  ℕ, zero, suc, String, Bool, true, false, ◌&&◌, Option, none, some, [], ◌∷◌, ◌==◌, ◌≡◌, ◌≢◌, refl,
  sym, ap, ◌∙◌, if◌then◌else◌, String-Eq, ℕ-Eq, nat_eq, str_eq, Bool-cases, inl, inr, arith, eq_iff,
  nat_eq_iff,
}
use cdm_center.Prelude.Dict.{Dict, lookup, insert}
use cdm_center.Errors.{Error, is_not_found_storage_metadata}
use cdm_center.Cluster.Memory.{memory, memory-Lawful, some-injective}
use cdm_center.Cluster.Store.{Coding, Json, Result}
use cdm_center.Cluster.Status.{set_value, get_value, decoded}
use cdm_center.Stored.{
  ClusterStorage, is_cluster_storage_type_code, merge, merge_base, set_merged, put_storage,
  get_storage_metadata, merge_storage_metadata,
}
use cdm_center.Stored.Merged.{
  or_else, lookup_read, read_as, MapCoding, merge_storage_metadata-reads,
}

-- An encoding of maps with the key "pool", or with both keys, in the order of the keys.
abbrev text_of_two : Bool → Bool → String
text_of_two client pool =
    if client then (if pool then "tt" else "tf") else (if pool then "ft" else "ff")

abbrev text_of_map : Dict String Bool → Option String
text_of_map [] = some "{}"
text_of_map ((a, v) ∷ []) = if a == "pool" then some (if v then "t" else "f") else none
text_of_map ((a, v) ∷ (b, w) ∷ []) =
    if a == "client" && b == "pool"
    then some (text_of_two v w)
    else if a == "pool" && b == "client"
    then some (text_of_two w v)
    else none
text_of_map (a ∷ b ∷ c ∷ m) = none

abbrev two : Bool → Bool → Dict String Bool
two client pool = ("client", client) ∷ ("pool", pool) ∷ []

abbrev map_of_text : String → Option (Dict String Bool)
map_of_text b =
    if b == "{}"
    then some []
    else if b == "t"
    then some (("pool", true) ∷ [])
    else if b == "f"
    then some (("pool", false) ∷ [])
    else if b == "tt"
    then some (two true true)
    else if b == "tf"
    then some (two true false)
    else if b == "ft"
    then some (two false true)
    else if b == "ff"
    then some (two false false)
    else none

abbrev maps : Coding (Dict String Bool)
maps = record { marshal = text_of_map; unmarshal = map_of_text }

two-read : (v w : Bool) → map_of_text (text_of_two v w) ≡ some (two v w)
two-read true true = refl
two-read true false = refl
two-read false true = refl
two-read false false = refl

pool-read : (v : Bool) → map_of_text (if v then "t" else "f") ≡ some (("pool", v) ∷ [])
pool-read true = refl
pool-read false = refl

as_itself : (o : Option Bool) → o ≡ read_as (λ v. v) o
as_itself none = refl
as_itself (some v) = refl

-- what is read back
ReadsBack : Dict String Bool → String → Type 0
ReadsBack m b =
    (r : Dict String Bool) × (map_of_text b ≡ some r)
    × ((k : String) → lookup k r ≡ read_as (λ v. v) (lookup k m))

two-ReadsBack :
    (a c : String) (v w : Bool) (b : String)
    → text_of_map ((a, v) ∷ (c, w) ∷ []) ≡ some b
    → ReadsBack ((a, v) ∷ (c, w) ∷ []) b
unfolding ReadsBack lookup
two-ReadsBack a c v w b h = elim (Bool-cases (a == "client" && c == "pool")) [
  | inl e ↦
      let is : (a ≡ "client") × (c ≡ "pool") × (text_of_two v w ≡ b) =
        ground (arith, h, e, eq_iff a "client", eq_iff c "pool") in
      (
        two v w,
        ap map_of_text (sym is.2) ∙ two-read v w,
        (λ k. rw (is.0, is.1) (as_itself (lookup k (two v w)))),
      )
  | inr e ↦
      let is : (a ≡ "pool") × (c ≡ "client") × (text_of_two w v ≡ b) =
        ground (arith, h, e, eq_iff a "pool", eq_iff c "client") in
      (
        two w v,
        ap map_of_text (sym is.2) ∙ two-read w v,
        (λ k. rw (is.0, is.1) (ground (arith, eq_iff "pool" k, eq_iff "client" k))),
      )
]

map-ReadsBack : (m : Dict String Bool) (b : String) → text_of_map m ≡ some b → ReadsBack m b
unfolding ReadsBack lookup
map-ReadsBack [] b h =
    let is : "{}" ≡ b = ground (arith, h) in ([], ap map_of_text (sym is), (λ k. refl))
map-ReadsBack ((a, v) ∷ []) b h =
    let is : (a ≡ "pool") × ((if v then "t" else "f") ≡ b) = ground (arith, h, eq_iff a "pool") in
    (
      ("pool", v) ∷ [],
      ap map_of_text (sym is.1) ∙ pool-read v,
      (λ k. rw is.0 (as_itself (lookup k (("pool", v) ∷ [])))),
    )
map-ReadsBack ((a, v) ∷ (c, w) ∷ []) b h = two-ReadsBack a c v w b h
map-ReadsBack (a ∷ c ∷ d ∷ m) b h = absurd (ground (arith, h))

maps-reads :
    (m : Dict String Bool) (b : String)
    → text_of_map m ≡ some b
    → (r : Dict String Bool) × (map_of_text b ≡ some r)
      × ((k : String) → lookup k r ≡ read_as (λ v. v) (lookup k m))
unfolding ReadsBack
maps-reads m b h = map-ReadsBack m b h

abbrev map_coding : MapCoding maps
map_coding = record { seen = λ v. v; reads = maps-reads }

-- an encoding of one Ceph storage by the name of its backend
abbrev ceph : String
ceph = "openstack.storage.type.ceph"

abbrev storage_at : ℕ → ℕ → String → String → ClusterStorage
storage_at i j t b = record { cluster_id = i; storage_id = j; type_code = t; backend_name = b }

abbrev is_first_ceph : ClusterStorage → Bool
is_first_ceph c = nat_eq c.cluster_id 1 && (nat_eq c.storage_id 1 && str_eq c.type_code ceph)

abbrev backend_of : ClusterStorage → Option String
backend_of c = if is_first_ceph c then some c.backend_name else none

backend-round_trip :
    (c : ClusterStorage) (b : String)
    → backend_of c ≡ some b
    → some (storage_at 1 1 ceph b) ≡ some c
backend-round_trip c b h = elim (Bool-cases (is_first_ceph c)) [
  | inl e ↦
      let whole : some c.backend_name ≡ some b = ground (arith, h, e) in
      let i : nat_eq c.cluster_id 1 ≡ true = ground (arith, e) in
      let j : nat_eq c.storage_id 1 ≡ true = ground (arith, e) in
      let t : str_eq c.type_code ceph ≡ true = ground (arith, e) in
      ap some (
        ap (storage_at 1 1 ceph) (sym (some-injective c.backend_name b whole))
        ∙ ap (λ x. storage_at 1 1 x c.backend_name) (sym ((eq_iff c.type_code ceph).0 t))
        ∙ ap (λ x. storage_at 1 x c.type_code c.backend_name)
            (sym ((nat_eq_iff c.storage_id 1).0 j))
        ∙ ap (λ x. storage_at x c.storage_id c.type_code c.backend_name)
            (sym ((nat_eq_iff c.cluster_id 1).0 i)))
  | inr e ↦ absurd (ground (arith, h, e))
]

abbrev backends : Json ClusterStorage
backends = record {
  coding = record { marshal = backend_of; unmarshal = λ b. some (storage_at 1 1 ceph b) };
  round_trip = backend-round_trip;
}

-- the keys of the first storages of a cluster
abbrev key : ℕ → ℕ → String
key cid zero = "clusters/1/storages/0"
key cid (suc zero) = "clusters/1/storages/1"
key cid (suc (suc n)) = "clusters/1/storages/2"

abbrev metadata_key : ℕ → ℕ → String
metadata_key cid sid = "clusters/1/storages/1/metadata"

abbrev first_storage : ClusterStorage
first_storage = storage_at 1 1 ceph "rbd"

keys-differ : key 1 1 ≢ key 1 2
keys-differ h = let e : str_eq (key 1 1) (key 1 2) ≡ true = (eq_iff (key 1 1) (key 1 2)).1 h in cc

abbrev stored : Dict String String
stored = ("clusters/1/storages/1", "rbd") ∷ []

puts_first : put_storage memory maps backends key metadata_key first_storage [] ≡ Result.ok stored
unfolding put_storage is_cluster_storage_type_code set_value insert
puts_first = refl

abbrev new_client : Dict String Bool
new_client = ("client", true) ∷ []

abbrev old_pool : Dict String String
old_pool = ("clusters/1/storages/1/metadata", "f") ∷ []

abbrev with_both : Dict String String
with_both = ("clusters/1/storages/1/metadata", "tf") ∷ []

merges :
    merge_storage_metadata memory maps backends key metadata_key first_storage new_client old_pool
    ≡ Result.ok with_both
unfolding merge_storage_metadata merge_base set_merged merge get_storage_metadata get_value decoded
    set_value insert lookup
merges = refl

merge_storage_metadata-reads_example :
    ((e : Error)
      → get_storage_metadata memory maps backends key metadata_key first_storage old_pool
        ≡ Result.error e
      → is_not_found_storage_metadata e ≡ true)
    × (m : Dict String Bool) × (get_storage_metadata memory maps backends key metadata_key
          first_storage with_both
        ≡ Result.ok m)
    × ((k : String)
        → lookup k m
          ≡ read_as
              (λ v. v)
              (or_else (lookup k new_client) (
                lookup_read k (
                  get_storage_metadata memory maps backends key metadata_key first_storage
                    old_pool))))
unfolding lookup
merge_storage_metadata-reads_example =
    merge_storage_metadata-reads memory memory-Lawful maps map_coding backends key metadata_key
      first_storage new_client old_pool with_both (refl, tt) merges
