-- ===== src/Sync/Zones/Removed.antt =====
-- What the deletion of one zone in cluster-manager/sync/availability_zone.go does to the rows of the
-- database.
use cdm_center.Prelude.{
  ℕ, Option, none, some, List, [], ◌∷◌, ◌++◌, ◌≡◌, ◌≢◌, refl, sym, ◌∙◌, String-Eq, ℕ-Eq,
  Option-cases, inl, inr, arith, nat_eq_iff,
}
use cdm_center.Errors.{Error}
pub use cdm_center.Steps.{and_then-none, and_then-some}
use cdm_center.Sync.Zones.{
  Zone, Database, Lawful, Notice, Run, Outcome, and_then, delete_each, delete_row, delete_with,
  delete_availability_zone,
}

module _ {S : Type 0} (db : Database S) (law : Lawful db) where
  and_then-row :
      (id : ℕ) (s : S) (o : S × Option Error) (f : S → S × Option Error)
      → law.row id o.0 ≡ law.row id s
      → ((t : S) → law.row id ((f t).0) ≡ law.row id t)
      → law.row id ((and_then o f).0) ≡ law.row id s
  unfolding and_then
  and_then-row id s (t, none) f h g = g t ∙ h
  and_then-row id s (t, some e) f h g = h

  delete_each-row :
      (f : ℕ → S → S × Option Error)
      → ((i id : ℕ) (s : S) → law.row id ((f i s).0) ≡ law.row id s)
      → (is : List ℕ) (id : ℕ) (s : S) → law.row id ((delete_each db f is s).0) ≡ law.row id s
  unfolding delete_each
  delete_each-row f h [] id s = refl
  delete_each-row f h (i ∷ is) id s =
      and_then-row id s (f i s) (delete_each db f is) (h i id s) (delete_each-row f h is id)

  -- What the deletion of a zone does: it takes the row of the zone, if it returns no error, and
  -- neither changes nor adds another.
  pub record Removed (z : Zone) (s : S) (o : Outcome db) : Type 0 where
    pub others : (id : ℕ) → id ≢ z.id → law.row id o.0.state ≡ law.row id s
    pub gone : o.1 ≡ none → law.row z.id o.0.state ≡ none
    pub only : (id : ℕ) (r : Zone) → law.row id o.0.state ≡ some r → law.row id s ≡ some r

  failed-Removed :
      (z : Zone) (s : S) (run : Run db) (e : Error)
      → ((id : ℕ) → law.row id run.state ≡ law.row id s)
      → Removed z s (run, some e)
  failed-Removed z s run e h = record {
    others = λ id n. h id;
    gone = λ x. absurd (ground (arith, x));
    only = λ id r x. sym (h id) ∙ x;
  }

  done-Removed :
      (z : Zone) (s u t : S) (ns : List Notice)
      → ((id : ℕ) → law.row id u ≡ law.row id s)
      → db.delete z u ≡ some t
      → Removed z s (record { state = t; notices = ns }, none)
  done-Removed z s u t ns h d = record {
    others = λ id n.
        let at = law.delete-row z u t d id in
        let here : law.row id t ≡ law.row id u = ground (arith, at, nat_eq_iff id z.id, n) in
        here ∙ h id;
    gone = λ x. let at = law.delete-row z u t d z.id in ground (arith, at, nat_eq_iff z.id z.id);
    only = λ id r x.
        let at = law.delete-row z u t d id in
        let here : law.row id u ≡ some r = ground (arith, at, x, nat_eq_iff id z.id) in
        sym (h id) ∙ here;
  }

  delete_row-Removed :
      (z : Zone) (ns : List Notice) (s : S) (o : S × Option Error)
      → ((id : ℕ) → law.row id o.0 ≡ law.row id s)
      → Removed z s (delete_row db z ns o)
  unfolding delete_row
  delete_row-Removed z ns s (u, some e) h =
      failed-Removed z s (record { state = u; notices = ns }) e h
  delete_row-Removed z ns s (u, none) h = elim (Option-cases (db.delete z u)) [
    | inl e ↦
        rw (e, delete_row)
          (failed-Removed z s (record { state = u; notices = ns }) Error.unusable_database h)
    | inr (t, e) ↦ rw (e, delete_row) (done-Removed z s u t (ns ++ (Notice.deleted z ∷ [])) h e)
  ]

  delete_with-Removed :
      (z : Zone) (is hs : Option (List ℕ)) (run : Run db)
      → Removed z run.state (delete_with db z is hs run)
  unfolding delete_with
  delete_with-Removed z none hs run =
      failed-Removed z run.state run Error.unusable_database (λ id. refl)
  delete_with-Removed z (some is) none run =
      failed-Removed z run.state run Error.unusable_database (λ id. refl)
  delete_with-Removed z (some is) (some hs) run =
      let os = delete_each db db.delete_instance is run.state in
      delete_row-Removed z run.notices run.state
        (and_then os (delete_each db db.delete_hypervisor hs))
        (λ id.
          and_then-row id run.state os (delete_each db db.delete_hypervisor hs)
            (delete_each-row db.delete_instance law.delete_instance-row is id run.state)
            (delete_each-row db.delete_hypervisor law.delete_hypervisor-row hs id))

  pub delete_availability_zone-Removed :
      (z : Zone) (run : Run db) → Removed z run.state (delete_availability_zone db z run)
  unfolding delete_availability_zone
  delete_availability_zone-Removed z run =
      delete_with-Removed z (db.instances z.id run.state) (db.hypervisors z.id run.state) run
