-- ===== src/Groups/Create.antt =====
-- The groups and types behind a `CreateVolumeGroup` of cluster-manager/client/openstack/openstack.go
-- that fails, with what the service does at creations and deletions. It does not delete a type that a
-- group has. Nothing is said of a creation whose answer could not be read.
use cdm_center.Prelude.{
  String, true, false, none, some, ◌≡◌, ◌≢◌, refl, sym, ◌∙◌, arith, if◌then◌else◌, ◌==◌, String-Eq,
  eq_iff, eq_refl,
}
use cdm_center.Errors.{Error, is_refusal}
use cdm_center.Steps.{Made, made_of}
use cdm_center.Cluster.Store.{Result}
use cdm_center.Groups.{Group, GroupType, VolumeGroup, Train}
use cdm_center.Groups.Creation.{undo_group, created, create_typed, create_volume_group}
use cdm_center.Groups.Service.{Lawful}

pub record Creating {S : Type 0} (train : Train S) (law : Lawful train) : Type 0 where
  -- the type of a group
  pub type_of : String → S → String
  pub type_of-has_type :
      (h : String) (s : S) → law.has_group h s ≡ true → law.has_type (type_of h s) s ≡ true
  pub create_type-made :
      (r : GroupType) (s t : S) (y : String)
      → train.create_type r s ≡ (t, Result.ok y)
      → (law.has_type y s ≡ false)
        × ((z : String) → law.has_type z t ≡ (if z == y then true else law.has_type z s))
        × ((h : String) → law.has_group h t ≡ law.has_group h s)
        × ((h : String) → type_of h t ≡ type_of h s)
  pub create_type-refused :
      (r : GroupType) (s t : S) (e : Error)
      → train.create_type r s ≡ (t, Result.error e)
      → is_refusal e ≡ true
      → ((z : String) → law.has_type z t ≡ law.has_type z s)
        × ((h : String) → law.has_group h t ≡ law.has_group h s)
  -- The group is new, ready or not.
  pub create_group-made :
      (r : Group) (s t : S) (m : Made Group) (g : Group)
      → train.create_group r s ≡ (t, m)
      → made_of m ≡ some g
      → (law.has_group g.id s ≡ false)
        × ((h : String) → law.has_group h t ≡ (if h == g.id then true else law.has_group h s))
        × ((h : String) → type_of h t ≡ (if h == g.id then r.group_type else type_of h s))
        × ((z : String) → law.has_type z t ≡ law.has_type z s)
  pub create_group-refused :
      (r : Group) (s t : S) (e : Error)
      → train.create_group r s ≡ (t, Made.refused e)
      → is_refusal e ≡ true
      → ((h : String) → law.has_group h t ≡ law.has_group h s)
        × ((h : String) → type_of h t ≡ type_of h s)
        × ((z : String) → law.has_type z t ≡ law.has_type z s)
  pub delete_group-type_of :
      (g : String) (s t : S)
      → train.delete_group g false s ≡ (t, none)
      → (h : String) → type_of h t ≡ type_of h s
  -- Deletions that the service does, while it can be reached.
  pub delete_group_works :
      (g : String) (s : S)
      → law.has_group g s ≡ true
      → (t : S) × (train.delete_group g false s ≡ (t, none))
  pub delete_type_works :
      (y : String) (s : S)
      → law.has_type y s ≡ true
      → ((h : String) → law.has_group h s ≡ true → type_of h s ≢ y)
      → (t : S) × (train.delete_type y s ≡ (t, none))

module _ {S : Type 0} (train : Train S) (law : Lawful train) (c : Creating train law) where
  -- the same groups and types
  abbrev Back : S → S → Type 0
  Back s t =
      ((h : String) → law.has_group h t ≡ law.has_group h s)
      × ((y : String) → law.has_type y t ≡ law.has_type y s)

  -- A state in which a type is new and no group has it.
  record Fresh (y : String) (s t : S) : Type 0 where
    groups : (h : String) → law.has_group h t ≡ law.has_group h s
    types : (z : String) → law.has_type z t ≡ (if z == y then true else law.has_type z s)
    new : law.has_type y s ≡ false
    unused : (h : String) → law.has_group h t ≡ true → c.type_of h t ≢ y

  delete_type-Back : (y : String) (s t : S) → Fresh y s t → Back s (train.delete_type y t).0
  delete_type-Back y s t f =
      let has : law.has_type y t ≡ true = rw (f.types y, eq_refl y) in
      let (u, e) = c.delete_type_works y t has f.unused in
      let k = law.delete_type-kept y t u e in
      rw e ((λ h. k.1 h ∙ f.groups h), (λ z. ground (arith, k.0 z, f.types z, f.new, eq_iff z y)))

  create_type-Fresh :
      (r : GroupType) (y : String) (s t : S)
      → train.create_type r s ≡ (t, Result.ok y)
      → Fresh y s t
  create_type-Fresh r y s t e =
      let m = c.create_type-made r s t y e in
      record {
        groups = m.2;
        types = m.1;
        new = m.0;
        unused = λ h has same.
            let before : law.has_group h s ≡ true = sym (m.2 h) ∙ has in
            let old = c.type_of-has_type h s before in
            let is : c.type_of h s ≡ y = sym (m.3 h) ∙ same in ground (arith, old, is, m.0);
      }

  refused-Fresh :
      (r : Group) (y : String) (s t u : S) (x : Error)
      → Fresh y s t
      → train.create_group r t ≡ (u, Made.refused x)
      → is_refusal x ≡ true
      → Fresh y s u
  refused-Fresh r y s t u x f e refusal =
      let k = c.create_group-refused r t u x e refusal in
      record {
        groups = λ h. k.0 h ∙ f.groups h;
        types = λ z. k.2 z ∙ f.types z;
        new = f.new;
        unused = λ h has same. f.unused h (sym (k.0 h) ∙ has) (sym (k.1 h) ∙ same);
      }

  deleted-Fresh :
      (r g : Group) (y : String) (s t u : S) (m : Made Group)
      → Fresh y s t
      → train.create_group r t ≡ (u, m)
      → made_of m ≡ some g
      → Fresh y s (train.delete_group g.id false u).0
  deleted-Fresh r g y s t u m f e made =
      let k = c.create_group-made r t u m g e made in
      let has : law.has_group g.id u ≡ true = rw (k.1 g.id, eq_refl g.id) in
      let (w, d) = c.delete_group_works g.id u has in
      let x = law.delete_group-kept g.id u w d in
      let o = c.delete_group-type_of g.id u w d in
      rw d (record {
        groups = λ h. ground (arith, x.0 h, k.1 h, k.0, f.groups h, eq_iff h g.id);
        types = λ z. x.2 z ∙ k.3 z ∙ f.types z;
        new = f.new;
        unused = λ h has_w same.
            let here : law.has_group h t ≡ true =
              ground (arith, has_w, x.0 h, k.1 h, eq_iff h g.id) in
            f.unused h here (ground (arith, has_w, same, o h, x.0 h, k.2 h));
      })

  created-Back :
      (r : Group) (y : String) (s t u : S) (m : Made Group) (e : Error)
      → Fresh y s t
      → train.create_group r t ≡ (u, m)
      → (created train y (u, m)).1 ≡ Result.error e
      → is_refusal e ≡ true
      → Back s (created train y (u, m)).0
  unfolding created undo_group made_of
  created-Back r y s t u (Made.refused x) e f made h n =
      delete_type-Back y s u (refused-Fresh r y s t u x f made (ground (arith, h, n)))
  created-Back r y s t u (Made.broken g x) e f made h n =
      delete_type-Back y s _ (deleted-Fresh r g y s t u _ f made refl)
  created-Back r y s t u (Made.made g) e f made h n = absurd (ground (arith, h))

  create_typed-Back :
      (q : GroupType) (vg : VolumeGroup) (s t : S) (o : Result String Error) (e : Error)
      → train.create_type q s ≡ (t, o)
      → (create_typed train vg (t, o)).1 ≡ Result.error e
      → is_refusal e ≡ true
      → Back s (create_typed train vg (t, o)).0
  unfolding create_typed
  create_typed-Back q vg s t (Result.error x) e made h n =
      let k = c.create_type-refused q s t x made (ground (arith, h, n)) in (k.1, k.0)
  create_typed-Back q vg s t (Result.ok y) e made h n =
      created-Back _ y s t _ _ e (create_type-Fresh q y s t made) refl h n

  -- If the service does the deletions that it can do, a CreateVolumeGroup that returns an error
  -- leaves the groups and the types that there were before, unless the error is `errors.Unknown`
  -- or `client.ErrRemoteServerError`, behind which the answer to a creation may not have been
  -- read.
  pub create_volume_group-undone :
      (vg : VolumeGroup) (s : S) (e : Error)
      → (create_volume_group train vg s).1 ≡ Result.error e
      → is_refusal e ≡ true
      → Back s (create_volume_group train vg s).0
  unfolding create_volume_group
  create_volume_group-undone vg s e h n = create_typed-Back _ vg s _ _ e refl h n
