-- ===== src/Cluster/Owner.antt =====
-- `IsClusterOwner` of cluster-manager/internal/cluster/cluster_util.go, with `IsAdminUser` and
-- `IsGroupUser` of cluster-manager/internal/utils.go. The database is a parameter: what the query
-- brings back, and that a row which it finds is a row of the table that meets the condition, where a
-- field of the condition that is zero is left out.
use cdm_center.Prelude.{
  ℕ, String, Bool, true, false, ◌&&◌, not, Option, none, some, List, ◌≡◌, ◌≢◌, ◌⊎◌, inl, inr, refl,
  ap, ◌∙◌, sym, arith, ◌==◌, if◌then◌else◌, ℕ-Eq, String-Eq,
}
use cdm_center.Prelude.Lists.{any}
use cdm_center.Errors.{Error}

-- The roles and the ids of the groups of a user.
pub record User : Type 0 where
  pub roles : List String
  pub groups : List ℕ

unfoldable pub is_admin_user : User → Bool
is_admin_user user = any (λ r. r == "admin") user.roles

unfoldable pub is_group_user : User → ℕ → Bool
is_group_user user group_id = any (λ g. group_id == g) user.groups

-- a row of the table, as far as the code reads it
pub record Row : Type 0 where
  pub id : ℕ
  pub tenant_id : ℕ
  pub owner_group_id : ℕ

-- the condition of the query
pub record Condition : Type 0 where
  pub id : ℕ
  pub tenant_id : ℕ

pub data Found : Type 0 where
  owner_group : ℕ → Found
  record_not_found : Found
  failed : Found

-- a field of a condition that is zero is not one
abbrev pub Meets : Condition → Row → Type 0
Meets c r = ((c.id ≡ 0) ⊎ (r.id ≡ c.id)) × ((c.tenant_id ≡ 0) ⊎ (r.tenant_id ≡ c.tenant_id))

pub record Database : Type 1 where
  pub HasRow : Row → Type 0
  pub first : Condition → Found

-- a group that the query finds is that of a row which meets the condition
abbrev pub Sound : Database → Type 0
Sound db =
    (c : Condition) (g : ℕ)
    → db.first c ≡ Found.owner_group g
    → (r : Row) × (db.HasRow r × Meets c r × (r.owner_group_id ≡ g))

abbrev pub condition : Bool → ℕ → ℕ → Condition
condition true id tid = record { id = id; tenant_id = 0 }
condition false id tid = record { id = id; tenant_id = tid }

unfoldable pub owner_of : Found → User → ℕ → Option Error
unfolding is_admin_user is_group_user
owner_of Found.record_not_found user id = some (Error.not_found_cluster id)
owner_of Found.failed user id = some Error.unusable_database
owner_of (Found.owner_group g) user id =
    if not (is_admin_user user) && not (is_group_user user g)
    then some Error.unauthorized_request
    else none

-- `tid` and `user` are those of the request's context.
unfoldable pub is_cluster_owner : Database → User → ℕ → ℕ → Option Error
unfolding owner_of is_admin_user
is_cluster_owner db user tid id =
    owner_of (db.first (condition (is_admin_user user) id tid)) user id

owner_of-group :
    (f : Found) (user : User) (id : ℕ)
    → is_admin_user user ≡ false
    → owner_of f user id ≡ none
    → (g : ℕ) × ((f ≡ Found.owner_group g) × (is_group_user user g ≡ true))
unfolding owner_of
owner_of-group Found.record_not_found user id a h = cc
owner_of-group Found.failed user id a h = cc
owner_of-group (Found.owner_group g) user id a h = (g, (refl, ground (arith, a, h)))

-- If the query finds only rows that meet its condition, and the ids of the cluster and of the
-- tenant are not zero, then a user who is no admin and is let in has a cluster of that id in the
-- tenant of the request, which a group of the user owns.
pub is_cluster_owner-owns :
    (db : Database) (sound : Sound db) (user : User) (tid id : ℕ)
    → id ≢ 0
    → tid ≢ 0
    → is_admin_user user ≡ false
    → is_cluster_owner db user tid id ≡ none
    → (r : Row) × (db.HasRow r
        × (r.id ≡ id)
        × (r.tenant_id ≡ tid)
        × (is_group_user user r.owner_group_id ≡ true))
unfolding is_cluster_owner
is_cluster_owner-owns db sound user tid id ni nt a h =
    let (g, (e, mine)) =
      owner_of-group (db.first (condition (is_admin_user user) id tid)) user id a h in
    let (r, (there, meets, owned)) =
      sound (record { id = id; tenant_id = tid }) g
        (ap db.first (ap (λ b. condition b id tid) (sym a)) ∙ e) in
    (r, (there, unless ni meets.0, unless nt meets.1, ap (is_group_user user) owned ∙ mine))
  where
    unless : {n m : ℕ} → n ≢ 0 → (n ≡ 0) ⊎ (m ≡ n) → m ≡ n
    unless ne (inl z) = absurd (ne z)
    unless ne (inr e) = e
