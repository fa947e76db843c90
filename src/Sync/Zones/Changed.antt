-- ===== src/Sync/Zones/Changed.antt =====
-- What the synchronization of one zone in cluster-manager/sync/availability_zone.go does to the rows
-- of the database.
use cdm_center.Prelude.{
  ℕ, Bool, true, not, ◌||◌, Option, none, some, List, [], ◌∷◌, ◌++◌, ◌==◌, ◌≡◌, ◌≢◌, refl, sym, ap,
  ◌∙◌, subst, if◌then◌else◌, String-Eq, ℕ-Eq, Bool-cases, inl, inr, ◌⊎◌, arith, nat_eq_iff,
}
use cdm_center.Errors.{Error}
use cdm_center.Sync.Resource.{Options, no_options, apply_options}
use cdm_center.Sync.Zones.{
  Zone, Found, Database, Lawful, Notice, Run, Outcome, saved, sync_found,
  sync_cluster_availability_zone, compare_availability_zone,
}

module _ {S : Type 0} (db : Database S) (law : Lawful db) where
  -- What the synchronization of one zone does: it leaves a row of the cluster with the name and the
  -- availability of the zone, if it returns no error, and changes no row but one of that name.
  pub record Synced (cid : ℕ) (z : Zone) (s : S) (o : Outcome db) : Type 0 where
    pub stored :
        o.1 ≡ none
        → (id : ℕ) × (r : Zone) × (law.row id o.0.state ≡ some r)
          × (r.cluster_id ≡ cid)
          × (r.name ≡ z.name)
          × (r.available ≡ z.available)
    pub keeps :
        (id : ℕ) (r : Zone)
        → law.row id s ≡ some r
        → (r.cluster_id ≡ cid → r.name ≢ z.name)
        → law.row id o.0.state ≡ some r
    pub only :
        (id : ℕ) (r : Zone)
        → law.row id o.0.state ≡ some r
        → (law.row id s ≡ some r) ⊎ ((r.cluster_id ≡ cid) × (r.name ≡ z.name))

  failed-Synced :
      (cid : ℕ) (z : Zone) (run : Run db) (e : Error) → Synced cid z run.state (run, some e)
  failed-Synced cid z run e = record {
    stored = λ x. absurd (ground (arith, x));
    keeps = λ id r h n. h;
    only = λ id r h. inl h;
  }

  compare-true : (a b : Zone) → compare_availability_zone a b ≡ true → a.available ≡ b.available
  unfolding compare_availability_zone
  compare-true a b h = ground (arith, h)

  some_zone : {a b : Zone} → some a ≡ some b → a ≡ b
  some_zone {a} h = ap (λ o. elim o [ none ↦ a | some x ↦ x ]) h

  -- a row is written under the id of `y`, which no row had, or one of the same cluster and name
  written-Synced :
      (cid : ℕ) (z y : Zone) (s t : S) (ns : List Notice)
      → (y.cluster_id ≡ cid) × (y.name ≡ z.name) × (y.available ≡ z.available)
      → ((r : Zone) → law.row y.id s ≡ some r → (r.cluster_id ≡ cid) × (r.name ≡ z.name))
      → ((id : ℕ) → law.row id t ≡ (if id == y.id then some y else law.row id s))
      → Synced cid z s (record { state = t; notices = ns }, none)
  written-Synced cid z y s t ns (c, n, a) before at = record {
    stored = λ x.
        let here : law.row y.id t ≡ some y = ground (arith, at y.id, nat_eq_iff y.id y.id) in
        (y.id, y, here, c, n, a);
    keeps = λ id r h other. elim (Bool-cases (id == y.id)) [
      | inl e ↦
          let same : id ≡ y.id = (nat_eq_iff id y.id).0 e in
          let b = before r (subst (λ i. law.row i s ≡ some r) same h) in absurd (other b.0 b.1)
      | inr e ↦ ground (arith, at id, e, h)
    ];
    only = λ id r h. elim (Bool-cases (id == y.id)) [
      | inl e ↦
          let whole : some y ≡ some r = ground (arith, at id, e, h) in
          let same : y ≡ r = some_zone whole in
          inr (subst (λ x. (x.cluster_id ≡ cid) × (x.name ≡ z.name)) same (c, n))
      | inr e ↦ let here : law.row id s ≡ some r = ground (arith, at id, e, h) in inl here
    ];
  }

  new-Synced :
      (cid : ℕ) (z y : Zone) (s t : S) (ns : List Notice)
      → z.id ≡ 0
      → db.save (record z { cluster_id = cid }) s ≡ some (y, t)
      → Synced cid z s (record { state = t; notices = ns }, none)
  new-Synced cid z y s t ns zero sv =
      let (fresh, same, at) = law.save-new (record z { cluster_id = cid }) y s t zero sv in
      written-Synced cid z y s t ns
        (ap (λ x. x.cluster_id) same, ap (λ x. x.name) same, ap (λ x. x.available) same)
        (λ r h. absurd (ground (arith, fresh, h))) at

  old-Synced :
      (cid : ℕ) (z orig y : Zone) (s t : S) (ns : List Notice)
      → law.row orig.id s ≡ some orig
      → orig.cluster_id ≡ cid
      → orig.name ≡ z.name
      → db.save (record z { id = orig.id; cluster_id = cid }) s ≡ some (y, t)
      → Synced cid z s (record { state = t; notices = ns }, none)
  old-Synced cid z orig y s t ns here c n sv =
      let w : Zone = record z { id = orig.id; cluster_id = cid } in
      let not_zero : orig.id ≢ 0 = λ e.
        let none_there = law.zero-free s in
        let moved : law.row 0 s ≡ some orig = subst (λ i. law.row i s ≡ some orig) e here in
        ground (arith, none_there, moved) in
      let (same, at) = law.save-old w y s t not_zero sv in
      written-Synced cid z w s t ns (refl, refl, refl)
        (λ r h.
          subst (λ x. (x.cluster_id ≡ cid) × (x.name ≡ z.name)) (some_zone (sym here ∙ h)) (c, n))
        at

  saved-new :
      (cid : ℕ) (z : Zone) (run : Run db) (o : Option (Zone × S))
      → z.id ≡ 0
      → db.save (record z { cluster_id = cid }) run.state ≡ o
      → Synced cid z run.state (saved db Notice.created run o)
  unfolding saved
  saved-new cid z run none zero e = failed-Synced cid z run Error.unusable_database
  saved-new cid z run (some (y, t)) zero e =
      new-Synced cid z y run.state t (run.notices ++ (Notice.created y ∷ [])) zero e

  saved-old :
      (cid : ℕ) (z orig : Zone) (run : Run db) (o : Option (Zone × S))
      → law.row orig.id run.state ≡ some orig
      → orig.cluster_id ≡ cid
      → orig.name ≡ z.name
      → db.save (record z { id = orig.id; cluster_id = cid }) run.state ≡ o
      → Synced cid z run.state (saved db Notice.updated run o)
  unfolding saved
  saved-old cid z orig run none here c n e = failed-Synced cid z run Error.unusable_database
  saved-old cid z orig run (some (y, t)) here c n e =
      old-Synced cid z orig y run.state t (run.notices ++ (Notice.updated y ∷ [])) here c n e

  same-Synced :
      (cid : ℕ) (z orig : Zone) (run : Run db)
      → law.row orig.id run.state ≡ some orig
      → orig.cluster_id ≡ cid
      → orig.name ≡ z.name
      → compare_availability_zone orig z ≡ true
      → Synced cid z run.state (run, none)
  same-Synced cid z orig run here c n e = record {
    stored = λ x. (orig.id, orig, here, c, n, compare-true orig z e);
    keeps = λ id r h other. h;
    only = λ id r h. inl h;
  }

  found-Synced :
      (cid : ℕ) (force : Bool) (z orig : Zone) (run : Run db)
      → law.row orig.id run.state ≡ some orig
      → orig.cluster_id ≡ cid
      → orig.name ≡ z.name
      → Synced cid z run.state (sync_found db force cid z run (Found.found orig))
  unfolding sync_found
  found-Synced cid force z orig run here c n =
      elim (Bool-cases (force || not (compare_availability_zone orig z))) [
        | inl e ↦
            rw (e, sync_found)
              (saved-old cid z orig run
                (db.save (record z { id = orig.id; cluster_id = cid }) run.state) here c n refl)
        | inr e ↦
            let same : compare_availability_zone orig z ≡ true = ground (arith, e) in
            rw (e, sync_found) (same-Synced cid z orig run here c n same)
      ]

  sync_found-Synced :
      (cid : ℕ) (force : Bool) (z : Zone) (run : Run db) (f : Found)
      → cid ≢ 0
      → z.name ≢ ""
      → z.id ≡ 0
      → db.first cid z.name run.state ≡ f
      → Synced cid z run.state (sync_found db force cid z run f)
  unfolding sync_found
  sync_found-Synced cid force z run Found.failed c n zero e =
      failed-Synced cid z run Error.unusable_database
  sync_found-Synced cid force z run Found.not_found c n zero e =
      saved-new cid z run (db.save (record z { cluster_id = cid }) run.state) zero refl
  sync_found-Synced cid force z run (Found.found orig) c n zero e =
      let (here, oc, on) = law.first-found cid z.name run.state orig c n e in
      found-Synced cid force z orig run here oc on

  pub sync_cluster_availability_zone-Synced :
      (cid : ℕ) (opts : List (Options → Options)) (z : Zone) (run : Run db)
      → cid ≢ 0
      → z.name ≢ ""
      → z.id ≡ 0
      → Synced cid z run.state (sync_cluster_availability_zone db cid opts z run)
  unfolding sync_cluster_availability_zone
  sync_cluster_availability_zone-Synced cid opts z run c n zero =
      sync_found-Synced cid (apply_options opts no_options).force z run
        (db.first cid z.name run.state) c n zero refl
