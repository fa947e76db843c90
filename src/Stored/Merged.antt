-- ===== src/Stored/Merged.antt =====
-- What is read behind a write of a storage or of its metadata, and of those of a volume
-- (cluster-manager/storage/storage.go, cluster-manager/volume/volume.go).
use cdm_center.Prelude.{
  ℕ, String, Bool, true, Option, none, some, [], ◌∷◌, ◌==◌, ◌≡◌, ◌≢◌, refl, sym, ◌∙◌, subst, ap,
  String-Eq, Bool-cases, inl, inr, arith, eq_iff,
}
use cdm_center.Prelude.Dict.{Dict, lookup, insert, lookup-insert}
use cdm_center.Errors.{Error, is_not_found_storage_metadata, is_not_found_volume_metadata}
use cdm_center.Cluster.Store.{Store, Lawful, Coding, Json, Result}
use cdm_center.Cluster.Status.{set_value, get_value}
use cdm_center.Cluster.Status.Stored.{
  set_value-put, get_value-written, get_value-set_value, get_value-set_value_ne,
}
use cdm_center.Sync.ReservedSync.Loops.{Distinct}
use cdm_center.Stored.{
  ClusterStorage, ClusterVolume, is_cluster_storage_type_code, merge, merge_base, set_merged,
  get_storage, put_storage, get_storage_metadata, merge_storage_metadata, get_volume_metadata,
  merge_volume_metadata,
}

-- the first of two that is there
unfoldable pub or_else {ℓ} : {V : Type ℓ} → Option V → Option V → Option V
or_else none other = other
or_else (some v) other = some v

-- what a map that was read has at a key; nothing, if none was read
unfoldable pub lookup_read {ℓ} : {V : Type ℓ} → String → Result (Dict String V) Error → Option V
unfolding lookup
lookup_read k (Result.ok m) = lookup k m
lookup_read k (Result.error e) = none

lookup-merge :
    {V : Type 0} (k : String) (md m : Dict String V)
    → Distinct md
    → lookup k (merge md m) ≡ or_else (lookup k md) (lookup k m)
unfolding merge lookup or_else
lookup-merge k [] m d = refl
lookup-merge k ((a, v) ∷ md) m d =
    let ih = lookup-merge k md (insert a v m) d.1 in
    ih ∙ (elim (Bool-cases (a == k)) [
      | inl e ↦
          let same = (eq_iff a k).0 e in
          let absent = subst (λ x. lookup x md ≡ none) same d.0 in
          rw (lookup-insert a k v m, e, absent) refl
      | inr e ↦ rw (lookup-insert a k v m, e) refl
    ])

-- What a value of a map becomes when it is encoded and read back, as a number becomes a float64.
abbrev pub read_as {ℓ} : {V : Type ℓ} → (V → V) → Option V → Option V
read_as seen none = none
read_as seen (some v) = some (seen v)

-- The encoding of a map is read back as a map with the same keys, in whatever order.
pub record MapCoding {V : Type 0} (coding : Coding (Dict String V)) : Type 0 where
  pub seen : V → V
  pub reads :
      (m : Dict String V) (b : String)
      → coding.marshal m ≡ some b
      → (r : Dict String V) × (coding.unmarshal b ≡ some r)
        × ((k : String) → lookup k r ≡ read_as seen (lookup k m))

module _ {S : Type 0} {V : Type 0} (st : Store S) (law : Lawful st)
    (coding : Coding (Dict String V)) (map_coding : MapCoding coding) where
  -- What was read before a write of a merged map, and what is read behind it.
  ReadsMerged :
      (Error → Bool)
      → Dict String V
      → Result (Dict String V) Error
      → Result (Dict String V) Error
      → Type 0
  ReadsMerged is_missing md old new =
      ((e : Error) → old ≡ Result.error e → is_missing e ≡ true)
      × (m : Dict String V) × (new ≡ Result.ok m)
      × ((k : String)
          → lookup k m ≡ read_as map_coding.seen (or_else (lookup k md) (lookup_read k old)))

  written-reads :
      (missing : Error) (key : String) (m : Dict String V) (s t : S)
      → set_value st coding key m s ≡ Result.ok t
      → (r : Dict String V) × (get_value st coding key missing t ≡ Result.ok r)
        × ((k : String) → lookup k r ≡ read_as map_coding.seen (lookup k m))
  written-reads missing key m s t h =
      let (b, (e, p)) = set_value-put st coding key m s t h in
      let (r, is, same) = map_coding.reads m b e in
      (
        r,
        get_value-written st law coding key m r missing s t h (λ c f.
            let same_text : c ≡ b = ground (arith, e, f) in ap coding.unmarshal same_text ∙ is),
        same,
      )

  set_merged-reads :
      (is_missing : Error → Bool) (missing : Error) (key : String) (md : Dict String V) (s t : S)
      (old : Result (Dict String V) Error)
      → Distinct md
      → set_merged st coding key md (merge_base is_missing old) s ≡ Result.ok t
      → ReadsMerged is_missing md old (get_value st coding key missing t)
  unfolding set_merged merge_base ReadsMerged lookup_read
  set_merged-reads is_missing missing key md s t (Result.ok m) d h =
      let (r, is, same) = written-reads missing key (merge md m) s t h in
      (
        (λ e no. absurd (ground (arith, no))),
        r,
        is,
        (λ k. same k ∙ ap (read_as map_coding.seen) (lookup-merge k md m d)),
      )
  set_merged-reads is_missing missing key md s t (Result.error x) d h =
      elim (Bool-cases (is_missing x)) [
        | inl y ↦
            let put : set_value st coding key (merge md []) s ≡ Result.ok t =
              sym (rw (y, set_merged) refl) ∙ h in
            let (r, is, same) = written-reads missing key (merge md []) s t put in
            (
              (λ e no.
                  let is_x : x ≡ e = ground (arith, no) in subst (λ z. is_missing z ≡ true) is_x y),
              r,
              is,
              (λ k. same k ∙ ap (read_as map_coding.seen) (lookup-merge k md [] d)),
            )
        | inr y ↦
            let never : Result.error x ≡ Result.ok t = sym (rw (y, set_merged) refl) ∙ h in
            absurd (ground (arith, never))
      ]

-- Over a store and an encoding of maps that keep their laws, for metadata that has each key once:
-- where MergeMetadata of a storage returns no error, the metadata was read before without an error
-- but that it is not found, and what is read behind it has at every key what the new metadata has
-- there, and else what was read there before, if anything was, as the encoding brings it back.
pub merge_storage_metadata-reads :
    {S : Type 0} {V : Type 0} (st : Store S) (law : Lawful st) (coding : Coding (Dict String V))
    (map_coding : MapCoding coding) (json : Json ClusterStorage)
    (storage_key metadata_key : ℕ → ℕ → String) (c : ClusterStorage) (md : Dict String V) (s t : S)
    → Distinct md
    → merge_storage_metadata st coding json storage_key metadata_key c md s ≡ Result.ok t
    → ((e : Error)
        → get_storage_metadata st coding json storage_key metadata_key c s ≡ Result.error e
        → is_not_found_storage_metadata e ≡ true)
      × (m : Dict String V) × (get_storage_metadata st coding json storage_key metadata_key c t
          ≡ Result.ok m)
      × ((k : String)
          → lookup k m
            ≡ read_as map_coding.seen (
                or_else (lookup k md) (
                  lookup_read k
                    (get_storage_metadata st coding json storage_key metadata_key c s))))
unfolding merge_storage_metadata get_storage_metadata ReadsMerged
merge_storage_metadata-reads st law coding map_coding json storage_key metadata_key c md s t d h =
    set_merged-reads st law coding map_coding is_not_found_storage_metadata
      (Error.not_found_storage_metadata c.cluster_id c.storage_id)
      (metadata_key c.cluster_id c.storage_id) md s t
      (get_storage_metadata st coding json storage_key metadata_key c s) d h

-- The same of a volume.
pub merge_volume_metadata-reads :
    {S : Type 0} {V : Type 0} (st : Store S) (law : Lawful st) (coding : Coding (Dict String V))
    (map_coding : MapCoding coding) (json : Json ClusterVolume)
    (volume_key metadata_key : ℕ → ℕ → String) (v : ClusterVolume) (md : Dict String V) (s t : S)
    → Distinct md
    → merge_volume_metadata st coding json volume_key metadata_key v md s ≡ Result.ok t
    → ((e : Error)
        → get_volume_metadata st coding json volume_key metadata_key v s ≡ Result.error e
        → is_not_found_volume_metadata e ≡ true)
      × (m : Dict String V) × (get_volume_metadata st coding json volume_key metadata_key v t
          ≡ Result.ok m)
      × ((k : String)
          → lookup k m
            ≡ read_as map_coding.seen (
                or_else
                  (lookup k md)
                  (lookup_read k (get_volume_metadata st coding json volume_key metadata_key v s))))
unfolding merge_volume_metadata get_volume_metadata ReadsMerged
merge_volume_metadata-reads st law coding map_coding json volume_key metadata_key v md s t d h =
    set_merged-reads st law coding map_coding is_not_found_volume_metadata
      (Error.not_found_volume_metadata v.cluster_id v.volume_id)
      (metadata_key v.cluster_id v.volume_id) md s t
      (get_volume_metadata st coding json volume_key metadata_key v s) d h

-- Over a store and an encoding that keep their laws: a storage that was put without an error has a
-- supported type, is what is read under its ids, and leaves what is read under another key as it was.
pub get_storage-put_storage :
    {S : Type 0} {V : Type 0} (st : Store S) (law : Lawful st) (coding : Coding (Dict String V))
    (json : Json ClusterStorage) (storage_key metadata_key : ℕ → ℕ → String) (c : ClusterStorage)
    (cid sid : ℕ) (s t : S)
    → storage_key c.cluster_id c.storage_id ≢ storage_key cid sid
    → put_storage st coding json storage_key metadata_key c s ≡ Result.ok t
    → (is_cluster_storage_type_code c.type_code ≡ true)
      × (get_storage st coding json storage_key metadata_key c.cluster_id c.storage_id t
          ≡ Result.ok c)
      × (get_storage st coding json storage_key metadata_key cid sid t
          ≡ get_storage st coding json storage_key metadata_key cid sid s)
unfolding put_storage get_storage
get_storage-put_storage st law coding json storage_key metadata_key c cid sid s t n h =
    let key = storage_key c.cluster_id c.storage_id in
    elim (Bool-cases (is_cluster_storage_type_code c.type_code)) [
      | inl y ↦
          let put : set_value st json.coding key c s ≡ Result.ok t =
            sym (rw (y, put_storage) refl) ∙ h in
          (
            y,
            get_value-set_value st law json key c
                (Error.not_found_storage c.cluster_id c.storage_id) s t put,
            get_value-set_value_ne st law json key (storage_key cid sid) c
                (Error.not_found_storage cid sid) s t n put,
          )
      | inr y ↦
          let never : Result.error (Error.unsupported_storage_type c.type_code) ≡ Result.ok t =
            sym (rw (y, put_storage) refl) ∙ h in
          absurd (ground (arith, never))
    ]
