-- ===== src/Groups/Tests/GroupLaws.antt =====
-- The laws of the service with one group.
use cdm_center.Prelude.{
  String, true, false, none, List, [], ◌∷◌, ◌≡◌, refl, sym, ap, arith, if◌then◌else◌, ◌==◌,
  String-Eq, eq_iff, Bool-cases, inl, inr,
}
use Prim.Native.String.{◌++◌, count}
use text.Mathlib.TextLemmas as Text
use cdm_center.Prelude.Lists.{any, All}
use cdm_center.Cluster.Store.{Result}
use cdm_center.Groups.{Group, UpdateWrapper, GroupSnapshot, join, is_contain_uuid}
use cdm_center.Groups.Service.{Lawful}
use cdm_center.Groups.Tests.OneGroup.{
  Level, nothing, typed, grouped, World, read_names, is_grouped, is_typed, drop_type, drop_group,
  service, has_member, has_the_group, has_the_type, has_the_snapshot,
}

append-nonempty : (t : String) → (("v" ++ t) == "") ≡ false
append-nonempty t = elim (Bool-cases (("v" ++ t) == "")) [
  | inl e ↦
      let same : "v" ++ t ≡ "" = (eq_iff ("v" ++ t) "").0 e in
      let n : count ("v" ++ t) ≡ count "" = ap count same in
      let one : count "v" ≡ 1 = refl in
      let none_left : count "" ≡ 0 = refl in
      absurd (omega (arith, n, one, none_left, Text.length-append "v" t))
  | inr e ↦ e
]

join-nonempty : (x : String) (xs : List String) → (x == "v") ≡ true → (join (x ∷ xs) == "") ≡ false
unfolding join
join-nonempty x [] h = rw ((eq_iff x "v").0 h)
join-nonempty x (y ∷ ys) h = rw ((eq_iff x "v").0 h) (append-nonempty ("," ++ join (y ∷ ys)))

pub read_names-join :
    (xs : List String) (v : String)
    → All (λ x. (x == "v") ≡ true) xs
    → is_contain_uuid v (read_names (join xs)) ≡ is_contain_uuid v xs
unfolding is_contain_uuid
read_names-join [] v h = unfold join in refl
read_names-join (x ∷ xs) v h =
    let e : x ≡ "v" = (eq_iff x "v").0 h.0 in
    ground (arith, join-nonempty x xs h.0, e, only_v xs v h.1)
  where
    only_v :
        (ys : List String) (v : String)
        → All (λ y. (y == "v") ≡ true) ys
        → is_contain_uuid v ys ≡ true
        → (v == "v") ≡ true
    only_v [] v h c = absurd (ground (arith, c))
    only_v (y ∷ ys) v h c = ground (arith, c, h.0, eq_iff y "v", only_v ys v h.1)

volumes_of :
    (g : String) (s : World) (group : Group)
    → service.show_group g s ≡ Result.ok group
    → group.volumes ≡ (if s.volume then "v" ∷ [] else [])
volumes_of g s group h = ground (arith, h)

grouped_g :
    (g : String) (s : World) (group : Group)
    → service.show_group g s ≡ Result.ok group
    → (g == "g") ≡ true
grouped_g g s group h = ground (arith, h)

pub shown :
    (g : String) (s : World) (group : Group)
    → service.show_group g s ≡ Result.ok group
    → ((v : String) → is_contain_uuid v group.volumes ≡ has_member g v s)
      × All (λ v. (v == "v") ≡ true) group.volumes
unfolding is_contain_uuid
shown g s group h = elim (Bool-cases s.volume) [
  | inl y ↦
      rw (volumes_of g s group h, y)
        ((λ v. ground (arith, y, grouped_g g s group h, eq_iff v "v")), (refl, tt))
  | inr n ↦ rw (volumes_of g s group h, n) ((λ v. ground (arith, n)), tt)
]

pub updated :
    (g : String) (w : UpdateWrapper) (s t : World)
    → service.update_group g w s ≡ (t, none)
    → (h v : String)
    → has_member h v t ≡ (
        if h == g
        then (if is_contain_uuid v (read_names w.add_volumes)
            then true
            else if is_contain_uuid v (read_names w.remove_volumes)
            then false
            else has_member g v s)
        else has_member h v s)
unfolding is_contain_uuid
updated g w s t e h v = ground (arith, e, eq_iff g "g", eq_iff h g, eq_iff h "g", eq_iff v "v")

pub drop_group-level :
    (l : Level) (s t : World)
    → s.level ≡ l
    → drop_group l s ≡ (t, none)
    → (is_grouped s.level ≡ true)
      × (is_grouped t.level ≡ false)
      × (is_typed s.level ≡ true)
      × (is_typed t.level ≡ true)
      × (t.volume ≡ s.volume)
      × (t.snapshot ≡ s.snapshot)
drop_group-level nothing s t l h = absurd (ground (arith, h))
drop_group-level typed s t l h = absurd (ground (arith, h))
drop_group-level grouped s t l h = ground (arith, h, l)

drop_type-level :
    (l : Level) (s t : World)
    → s.level ≡ l
    → drop_type l s ≡ (t, none)
    → (l ≡ typed) × (t ≡ record s { level = nothing })
drop_type-level nothing s t l h = absurd (ground (arith, h))
drop_type-level typed s t l h = ground (arith, h, l)
drop_type-level grouped s t l h = absurd (ground (arith, h))

pub group_deleted :
    (g : String) (s t : World)
    → service.delete_group g false s ≡ (t, none)
    → (g ≡ "g") × (drop_group s.level s ≡ (t, none))
group_deleted g s t e = ground (arith, e, eq_iff g "g")

pub type_deleted :
    (y : String) (s t : World)
    → service.delete_type y s ≡ (t, none)
    → (y ≡ "t") × (s.level ≡ typed) × (t ≡ record s { level = nothing })
type_deleted y s t e =
    let run : (y ≡ "t") × (drop_type s.level s ≡ (t, none)) = ground (arith, e, eq_iff y "t") in
    let l = drop_type-level s.level s t refl run.1 in (run.0, l.0, l.1)

pub snapshots_listed :
    (s : World) (xs : List GroupSnapshot) (x g : String)
    → service.list_snapshots s ≡ Result.ok xs
    → any (λ y. if y.id == x then y.group_id == g else false) xs ≡ has_the_snapshot x g s
snapshots_listed s xs x g e =
    let list : (if s.snapshot then record { id = "x"; group_id = "g" } ∷ [] else []) ≡ xs =
      ground (arith, e) in
    rw (sym list) (elim (Bool-cases s.snapshot) [
      | inl y ↦ rw y (ground (arith, y, eq_iff "x" x, eq_iff x "x", eq_iff "g" g, eq_iff g "g"))
      | inr n ↦ rw n (ground (arith, n))
    ])

pub update_keeps :
    (g : String) (w : UpdateWrapper) (s t : World)
    → service.update_group g w s ≡ (t, none)
    → ((h : String) → has_the_group h t ≡ has_the_group h s)
      × ((x h : String) → has_the_snapshot x h t ≡ has_the_snapshot x h s)
      × ((y : String) → has_the_type y t ≡ has_the_type y s)
update_keeps g w s t e =
    ((λ h. ground (arith, e)), (λ x h. ground (arith, e)), (λ y. ground (arith, e)))

pub snapshot_deleted :
    (x : String) (s t : World)
    → service.delete_snapshot x s ≡ (t, none)
    → ((y h : String) → has_the_snapshot y h t ≡ (if x == y then false else has_the_snapshot y h s))
      × ((h : String) → has_the_group h t ≡ has_the_group h s)
      × ((y : String) → has_the_type y t ≡ has_the_type y s)
snapshot_deleted x s t e = (
  (λ y h. ground (arith, e, eq_iff x "x", eq_iff x y, eq_iff y "x")),
  (λ h. ground (arith, e)),
  (λ y. ground (arith, e)),
)

pub group_deleted_keeps :
    (g : String) (s t : World)
    → service.delete_group g false s ≡ (t, none)
    → ((h : String) → has_the_group h t ≡ (if h == g then false else has_the_group h s))
      × ((x h : String) → has_the_snapshot x h t ≡ has_the_snapshot x h s)
      × ((y : String) → has_the_type y t ≡ has_the_type y s)
group_deleted_keeps g s t e =
    let (is_g, run) = group_deleted g s t e in
    let l = drop_group-level s.level s t refl run in
    (
      (λ h. ground (arith, is_g, l, eq_iff h g, eq_iff h "g")),
      (λ x h. ground (arith, l)),
      (λ y. ground (arith, l)),
    )

pub type_deleted_keeps :
    (y : String) (s t : World)
    → service.delete_type y s ≡ (t, none)
    → ((z : String) → has_the_type z t ≡ (if z == y then false else has_the_type z s))
      × ((h : String) → has_the_group h t ≡ has_the_group h s)
      × ((x h : String) → has_the_snapshot x h t ≡ has_the_snapshot x h s)
type_deleted_keeps y s t e =
    let (is_t, l, k) = type_deleted y s t e in
    (
      (λ z. ground (arith, is_t, l, k, eq_iff z y, eq_iff z "t")),
      (λ h. ground (arith, l, k)),
      (λ x h. ground (arith, l, k)),
    )

abbrev pub service_laws : Lawful service
service_laws = record {
  has_group = has_the_group;
  member = has_member;
  snapshot_of = has_the_snapshot;
  has_type = has_the_type;
  is_uuid = λ v. v == "v";
  names = read_names;
  names-join = read_names-join;
  show-member = shown;
  update-member = updated;
  update-kept = update_keeps;
  list-snapshot = snapshots_listed;
  delete_snapshot-kept = snapshot_deleted;
  delete_group-kept = group_deleted_keeps;
  delete_type-kept = type_deleted_keeps;
}
