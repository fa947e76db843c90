-- ===== src/Groups/Tests/OneType.antt =====
-- The laws for creations, of the service with one group.
use cdm_center.Prelude.{
  String, true, false, none, some, ◌≡◌, ◌≢◌, refl, sym, arith, if◌then◌else◌, ◌==◌, String-Eq,
  eq_iff,
}
use cdm_center.Errors.{Error}
use cdm_center.Steps.{Made, made_of}
use cdm_center.Cluster.Store.{Result}
use cdm_center.Groups.{Group, GroupType}
use cdm_center.Groups.Create.{Creating}
use cdm_center.Groups.Tests.GroupLaws.{service_laws}
use cdm_center.Groups.Tests.OneGroup.{
  Level, nothing, typed, grouped, World, service, make_type, make_group, drop_group, drop_type,
  is_grouped, is_typed, has_the_group, has_the_type,
}

type_made :
    (l : Level) (s t : World) (y : String)
    → make_type l s ≡ (t, Result.ok y)
    → (l ≡ nothing) × (y ≡ "t") × (t ≡ record s { level = typed })
type_made nothing s t y e = ground (arith, e)
type_made typed s t y e = absurd (ground (arith, e))
type_made grouped s t y e = absurd (ground (arith, e))

pub type_refused :
    (l : Level) (s t : World) (x : Error) → make_type l s ≡ (t, Result.error x) → t ≡ s
type_refused nothing s t x e = absurd (ground (arith, e))
type_refused typed s t x e = ground (arith, e)
type_refused grouped s t x e = ground (arith, e)

group_made :
    (l : Level) (r : Group) (s t : World) (m : Made Group) (g : Group)
    → make_group l r s ≡ (t, m)
    → made_of m ≡ some g
    → (l ≡ typed) × (r.group_type ≡ "t") × (g.id ≡ "g") × (t ≡ record s { level = grouped })
unfolding made_of
group_made nothing r s t m g e made = absurd (ground (arith, e, made))
group_made typed r s t m g e made = ground (arith, e, made, eq_iff r.group_type "t")
group_made grouped r s t m g e made = absurd (ground (arith, e, made))

pub group_refused :
    (l : Level) (r : Group) (s t : World) (x : Error)
    → make_group l r s ≡ (t, Made.refused x)
    → t ≡ s
group_refused nothing r s t x e = ground (arith, e)
group_refused typed r s t x e = ground (arith, e)
group_refused grouped r s t x e = ground (arith, e)

type_dropped :
    (s : World) (l : Level)
    → is_typed l ≡ true
    → is_grouped l ≡ false
    → (t : World) × (drop_type l s ≡ (t, none))
type_dropped s nothing h n = absurd (ground (arith, h))
type_dropped s typed h n = (record s { level = nothing }, refl)
type_dropped s grouped h n = absurd (ground (arith, n))

group_dropped :
    (s : World) (l : Level) → is_grouped l ≡ true → (t : World) × (drop_group l s ≡ (t, none))
group_dropped s nothing h = absurd (ground (arith, h))
group_dropped s typed h = absurd (ground (arith, h))
group_dropped s grouped h = (record s { level = typed }, refl)

typed_alone : (l : Level) → is_typed l ≡ true → is_grouped l ≢ true → is_grouped l ≡ false
typed_alone nothing h n = refl
typed_alone typed h n = refl
typed_alone grouped h n = absurd (n refl)

grouped_typed : (l : Level) → is_grouped l ≡ true → is_typed l ≡ true
grouped_typed nothing h = absurd (ground (arith, h))
grouped_typed typed h = refl
grouped_typed grouped h = refl

pub has_group_type : (h : String) (s : World) → has_the_group h s ≡ true → has_the_type "t" s ≡ true
has_group_type h s e =
    let g : is_grouped s.level ≡ true = ground (arith, e) in grouped_typed s.level g

pub type_made_kept :
    (r : GroupType) (s t : World) (y : String)
    → service.create_type r s ≡ (t, Result.ok y)
    → (has_the_type y s ≡ false)
      × ((z : String) → has_the_type z t ≡ (if z == y then true else has_the_type z s))
      × ((h : String) → has_the_group h t ≡ has_the_group h s)
type_made_kept r s t y e =
    let (l, is_t, k) = type_made s.level s t y e in
    (
      ground (arith, l),
      (λ z. ground (arith, l, is_t, k, eq_iff z y, eq_iff z "t")),
      (λ h. ground (arith, l, k)),
    )

pub group_made_kept :
    (r : Group) (s t : World) (m : Made Group) (g : Group)
    → service.create_group r s ≡ (t, m)
    → made_of m ≡ some g
    → (has_the_group g.id s ≡ false)
      × ((h : String) → has_the_group h t ≡ (if h == g.id then true else has_the_group h s))
      × ((h : String) → "t" ≡ (if h == g.id then r.group_type else "t"))
      × ((z : String) → has_the_type z t ≡ has_the_type z s)
group_made_kept r s t m g e made =
    let (l, ty, is_g, k) = group_made s.level r s t m g e made in
    (
      ground (arith, l),
      (λ h. ground (arith, l, is_g, k, eq_iff h g.id, eq_iff h "g")),
      (λ h. ground (arith, ty)),
      (λ z. ground (arith, l, k)),
    )

pub group_deletable :
    (g : String) (s : World)
    → has_the_group g s ≡ true
    → (t : World) × (service.delete_group g false s ≡ (t, none))
group_deletable g s h =
    let is_g : (g == "g") ≡ true = ground (arith, h) in
    let (t, e) = group_dropped s s.level (ground (arith, h)) in (t, rw is_g e)

pub type_deletable :
    (y : String) (s : World)
    → has_the_type y s ≡ true
    → ((h : String) → has_the_group h s ≡ true → "t" ≢ y)
    → (t : World) × (service.delete_type y s ≡ (t, none))
type_deletable y s h unused =
    let is_t : (y == "t") ≡ true = ground (arith, h) in
    let typed_s : is_typed s.level ≡ true = ground (arith, h) in
    let alone = typed_alone s.level typed_s (λ g. unused "g" g (sym ((eq_iff y "t").0 is_t))) in
    let (t, e) = type_dropped s s.level typed_s alone in (t, rw is_t e)

abbrev pub creating : Creating service service_laws
creating = record {
  type_of = λ h s. "t";
  type_of-has_type = has_group_type;
  create_type-made = λ r s t y e. let k = type_made_kept r s t y e in (k.0, k.1, k.2, λ h. refl);
  create_type-refused =
      λ r s t x e n. let k = type_refused s.level s t x e in (rw k ((λ z. refl), (λ h. refl)));
  create_group-made = group_made_kept;
  create_group-refused = λ r s t x e n.
      let k = group_refused s.level r s t x e in rw k ((λ h. refl), (λ h. refl), (λ z. refl));
  delete_group-type_of = λ g s t e h. refl;
  delete_group_works = group_deletable;
  delete_type_works = type_deletable;
}
