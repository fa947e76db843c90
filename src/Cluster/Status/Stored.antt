-- ===== src/Cluster/Status/Stored.antt =====
-- What is read behind a write or a deletion of a cluster's status
-- (cluster-manager/internal/cluster/cluster_util.go).
use cdm_center.Prelude.{
  ℕ, String, false, Option, none, some, ◌≡◌, ◌≢◌, refl, str_eq, arith, eq_iff, eq_refl, String-Eq,
}
use cdm_center.Errors.{Error}
use cdm_center.Sync.Resource.{SyncStatus}
use cdm_center.Cluster.Store.{Store, Lawful, Coding, Json, Result}
use cdm_center.Cluster.Status.{
  set_value, decoded, get_value, delete_value, set_status, get_status, delete_status,
}

ok-of-put :
    {S : Type 0} (o : Option S) (t : S)
    → (elim o [ none ↦ Result.error Error.unusable_store | some u ↦ Result.ok u ]) ≡ Result.ok t
    → o ≡ some t
ok-of-put none t h = cc
ok-of-put (some u) t h = cc

ok-of-marshal :
    {S : Type 0} (f : String → Result S Error) (o : Option String) (t : S)
    → (elim o [ none ↦ Result.error Error.unknown | some b ↦ f b ]) ≡ Result.ok t
    → (b : String) × ((o ≡ some b) × (f b ≡ Result.ok t))
ok-of-marshal f none t h = cc
ok-of-marshal f (some b) t h = (b, (refl, h))

-- a value that was stored was encoded and put
pub set_value-put :
    {S : Type 0} {A : Type 0} (st : Store S) (coding : Coding A) (key : String) (a : A) (s t : S)
    → set_value st coding key a s ≡ Result.ok t
    → (b : String) × ((coding.marshal a ≡ some b) × (st.put key b s ≡ some t))
unfolding set_value
set_value-put st coding key a s t h =
    let (b, (e, r)) = ok-of-marshal _ (coding.marshal a) t h in
    (b, (e, ok-of-put (st.put key b s) t r))

-- What is read behind a write is what the encoding of the value reads as.
pub get_value-written :
    {S : Type 0} {A : Type 0} (st : Store S) (law : Lawful st) (coding : Coding A) (key : String)
    (a r : A) (missing : Error) (s t : S)
    → set_value st coding key a s ≡ Result.ok t
    → ((b : String) → coding.marshal a ≡ some b → coding.unmarshal b ≡ some r)
    → get_value st coding key missing t ≡ Result.ok r
unfolding get_value decoded
get_value-written st law coding key a r missing s t h reads =
    let (b, (e, p)) = set_value-put st coding key a s t h in
    rw (law.get-put key key b s t p, eq_refl key, decoded, reads b e) refl

module _ {S : Type 0} {A : Type 0} (st : Store S) (law : Lawful st) (json : Json A) where
  pub get_value-set_value :
      (key : String) (a : A) (missing : Error) (s t : S)
      → set_value st json.coding key a s ≡ Result.ok t
      → get_value st json.coding key missing t ≡ Result.ok a
  get_value-set_value key a missing s t h =
      get_value-written st law json.coding key a a missing s t h (json.round_trip a)

  pub get_value-set_value_ne :
      (key other : String) (a : A) (missing : Error) (s t : S)
      → key ≢ other
      → set_value st json.coding key a s ≡ Result.ok t
      → get_value st json.coding other missing t ≡ get_value st json.coding other missing s
  unfolding get_value
  get_value-set_value_ne key other a missing s t n h =
      let (b, (e, p)) = set_value-put st json.coding key a s t h in
      let differ : str_eq key other ≡ false = ground (arith, eq_iff key other, n) in
      rw (law.get-put key other b s t p, differ) refl

  get_value-delete_value :
      (key : String) (missing : Error) (s t : S)
      → delete_value st key s ≡ Result.ok t
      → get_value st json.coding key missing t ≡ Result.error missing
  unfolding get_value delete_value decoded
  get_value-delete_value key missing s t h =
      rw (law.get-delete_prefix key s t (ok-of-put (st.delete_prefix key s) t h)) refl

pub read_back :
    {S : Type 0} (st : Store S) (law : Lawful st) (json : Json SyncStatus) (key : ℕ → String)
    (cid : ℕ) (state : SyncStatus) (s t : S)
    → set_status st json key cid state s ≡ Result.ok t
    → get_status st json key cid t ≡ Result.ok state
unfolding set_status get_status
read_back st law json key cid state s t h =
    get_value-set_value st law json (key cid) state (Error.not_found_cluster_sync_status cid) s t h

-- Over a store and an encoding that keep their laws, a status that `SetStatus` stored is what
-- `GetStatus` returns for its cluster, and a cluster with another key has the status, or the
-- error, that it had before.
pub get_status-set_status :
    {S : Type 0} (st : Store S) (law : Lawful st) (json : Json SyncStatus) (key : ℕ → String)
    (cid other : ℕ) (state : SyncStatus) (s t : S)
    → key cid ≢ key other
    → set_status st json key cid state s ≡ Result.ok t
    → (get_status st json key cid t ≡ Result.ok state)
      × (get_status st json key other t ≡ get_status st json key other s)
unfolding set_status get_status
get_status-set_status st law json key cid other state s t n h = (
  read_back st law json key cid state s t h,
  get_value-set_value_ne st law json (key cid) (key other) state
      (Error.not_found_cluster_sync_status other) s t n h,
)

-- Over a store that keeps its laws, `GetStatus` finds no status for a cluster behind a
-- `DeleteStatus` that brought no error back.
get_status-delete_status :
    {S : Type 0} (st : Store S) (law : Lawful st) (json : Json SyncStatus) (key : ℕ → String)
    (cid : ℕ) (s t : S)
    → delete_status st json key cid s ≡ Result.ok t
    → get_status st json key cid t ≡ Result.error (Error.not_found_cluster_sync_status cid)
unfolding delete_status get_status
get_status-delete_status st law json key cid s t h =
    get_value-delete_value st law json (key cid) (Error.not_found_cluster_sync_status cid) s t h
