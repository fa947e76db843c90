-- ===== src/Cluster/Tests.antt =====
-- A concrete store, encoding and table for the statuses and owners of clusters.
use cdm_center.Prelude.{
  ℕ, zero, suc, String, Bool, true, false, ◌&&◌, ◌||◌, Option, none, some, List, [], ◌∷◌, ◌≡◌, ◌≢◌,
  refl, sym, ap, ◌⊎◌, inl, inr, ◌==◌, String-Eq, ℕ-Eq, arith, Bool-cases, str_eq, eq_iff,
}
use cdm_center.Prelude.Dict.{Dict, lookup, insert}
use cdm_center.Constant.{cluster_sync_state_code_running}
use cdm_center.Sync.Resource.{Message, SyncStatus, status_of}
use cdm_center.Cluster.Memory.{memory, memory-Lawful, some-injective}
use cdm_center.Cluster.Store.{Json, Result}
use cdm_center.Cluster.Status.{set_status, get_status}
use cdm_center.Cluster.Status.Stored.{get_status-set_status}
use cdm_center.Cluster.Owner.{
  User, Row, Condition, Found, Database, Sound, is_admin_user, is_group_user, is_cluster_owner,
  is_cluster_owner-owns,
}

-- an encoding of the statuses without reasons and time; there is none for the others
abbrev code_of : String → List Message → Option ℕ → Option String
code_of c [] none = some c
code_of c [] (some t) = none
code_of c (m ∷ ms) o = none

code_of-round_trip :
    (c : String) (ms : List Message) (o : Option ℕ) (b : String)
    → code_of c ms o ≡ some b
    → status_of b ≡ record { status_code = c; reasons = ms; started_at = o }
code_of-round_trip c [] none b h = ap status_of (some-injective b c (sym h))
code_of-round_trip c [] (some t) b h = cc
code_of-round_trip c (m ∷ ms) o b h = cc

abbrev codes_only : Json SyncStatus
codes_only = record {
  coding = record {
    marshal = λ a. code_of a.status_code a.reasons a.started_at;
    unmarshal = λ b. some (status_of b);
  };
  round_trip = λ a b h. ap some (code_of-round_trip a.status_code a.reasons a.started_at b h);
}

abbrev key : ℕ → String
key zero = "clusters/0/sync/status"
key (suc zero) = "clusters/1/sync/status"
key (suc (suc n)) = "clusters/2/sync/status"

keys-differ : key 1 ≢ key 2
keys-differ h = let e : str_eq (key 1) (key 2) ≡ true = (eq_iff (key 1) (key 2)).1 h in cc

abbrev running : SyncStatus
running = status_of cluster_sync_state_code_running

abbrev one_running : Dict String String
one_running = ("clusters/1/sync/status", cluster_sync_state_code_running) ∷ []

stores-running : set_status memory codes_only key 1 running [] ≡ Result.ok one_running
unfolding set_status insert
stores-running = refl

get_status-set_status_example :
    (get_status memory codes_only key 1 one_running ≡ Result.ok running)
    × (get_status memory codes_only key 2 one_running ≡ get_status memory codes_only key 2 [])
get_status-set_status_example =
    get_status-set_status memory memory-Lawful codes_only key 1 2 running [] one_running keys-differ
      stores-running

reads-running : get_status memory codes_only key 1 one_running ≡ Result.ok running
unfolding get_status lookup
reads-running = refl

-- A table with one row, of cluster 5 in tenant 3, that group 9 owns.
abbrev row : Row
row = record { id = 5; tenant_id = 3; owner_group_id = 9 }

abbrev found_when : Bool → Found
found_when true = Found.owner_group 9
found_when false = Found.record_not_found

abbrev first_of : Condition → Found
first_of c = found_when ((c.id == 0 || c.id == 5) && (c.tenant_id == 0 || c.tenant_id == 3))

abbrev table : Database
table = record { HasRow = λ r. r ≡ row; first = first_of }

abbrev member : User
member = record { roles = "user" ∷ []; groups = 8 ∷ 9 ∷ [] }

zero_or : (n k : ℕ) → n == 0 || n == k ≡ true → (n ≡ 0) ⊎ (k ≡ n)
zero_or n k h = elim (Bool-cases (n == 0)) [
  | inl e ↦ inl (ground arith)
  | inr e ↦ inr (ground arith)
]

group-nine : (b : Bool) (g : ℕ) → found_when b ≡ Found.owner_group g → (b ≡ true) × (9 ≡ g)
group-nine true g h = (refl, cc)
group-nine false g h = cc

and-both : (a b : Bool) → a && b ≡ true → (a ≡ true) × (b ≡ true)
and-both a b h = (ground arith, ground arith)

table-Sound : Sound table
table-Sound c g h =
    let (ok, nine) = group-nine _ g h in
    let (i, t) = and-both (c.id == 0 || c.id == 5) (c.tenant_id == 0 || c.tenant_id == 3) ok in
    (row, (refl, (zero_or c.id 5 i, zero_or c.tenant_id 3 t), nine))

five-ne-zero : ◌≢◌ {A = ℕ} 5 0
five-ne-zero h = ground arith

three-ne-zero : ◌≢◌ {A = ℕ} 3 0
three-ne-zero h = ground arith

is_cluster_owner-owns_example :
    (r : Row) × ((r ≡ row)
      × (r.id ≡ 5)
      × (r.tenant_id ≡ 3)
      × (is_group_user member r.owner_group_id ≡ true))
unfolding is_cluster_owner is_admin_user is_group_user
is_cluster_owner-owns_example =
    is_cluster_owner-owns table table-Sound member 3 5 five-ne-zero three-ne-zero refl refl
