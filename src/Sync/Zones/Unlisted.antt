-- ===== src/Sync/Zones/Unlisted.antt =====
-- What `syncDeletedAvailabilityZoneList` of cluster-manager/sync/availability_zone.go leaves of the
-- rows: those of the zones that the cluster lists, and those of other clusters.
use cdm_center.Prelude.{
  ℕ, true, false, none, some, List, [], ◌∷◌, ◌==◌, ◌≡◌, ◌≢◌, refl, sym, ap, ◌∙◌, subst, String-Eq,
  ℕ-Eq, Bool-cases, Option-cases, inl, inr, arith, nat_eq_iff,
}
use cdm_center.Prelude.Lists.{any, All}
use cdm_center.Errors.{Error}
use cdm_center.Sync.Zones.{
  Zone, Database, Lawful, Run, Outcome, exists, and_then, delete_availability_zone, delete_unlisted,
  sync_deleted_availability_zone_list,
}
use cdm_center.Sync.Zones.Removed.{
  and_then-none, and_then-some, Removed, delete_availability_zone-Removed,
}

module _ {S : Type 0} (db : Database S) (law : Lawful db) (listed : List Zone) where
  -- the zones of a list with an id, all of which the cluster lists
  Spared : ℕ → List Zone → Type 0
  Spared id zs = All (λ z. z.id ≡ id → exists z.name listed ≡ true) zs

  unlisted-next :
      (z : Zone) (zs : List Zone) (run : Run db)
      → exists z.name listed ≡ true
      → delete_unlisted db listed (z ∷ zs) run ≡ delete_unlisted db listed zs run
  unfolding delete_unlisted
  unlisted-next z zs run e = rw (e, delete_unlisted) refl

  unlisted-delete :
      (z : Zone) (zs : List Zone) (run : Run db)
      → exists z.name listed ≡ false
      → delete_unlisted db listed (z ∷ zs) run
        ≡ and_then (delete_availability_zone db z run) (delete_unlisted db listed zs)
  unfolding delete_unlisted
  unlisted-delete z zs run e = rw (e, delete_unlisted) refl

  -- What the deletions do to the rows: one that is spared stays, none is changed or added, and without
  -- an error those that are left were spared.
  record Cleared (zs : List Zone) (s : S) (o : Outcome db) : Type 0 where
    stays :
        (id : ℕ) (r : Zone) → law.row id s ≡ some r → Spared id zs → law.row id o.0.state ≡ some r
    only : (id : ℕ) (r : Zone) → law.row id o.0.state ≡ some r → law.row id s ≡ some r
    spared : (id : ℕ) (r : Zone) → o.1 ≡ none → law.row id o.0.state ≡ some r → Spared id zs

  Cleared-next :
      (z : Zone) (zs : List Zone) (s : S) (o : Outcome db)
      → exists z.name listed ≡ true
      → Cleared zs s o
      → Cleared (z ∷ zs) s o
  unfolding Spared
  Cleared-next z zs s o e c = record {
    stays = λ id r h sp. c.stays id r h sp.1;
    only = c.only;
    spared = λ id r x h. ((λ i. e), c.spared id r x h);
  }

  Cleared-stop :
      (z : Zone) (zs : List Zone) (s : S) (o : Outcome db) (x : Error)
      → exists z.name listed ≡ false
      → o.1 ≡ some x
      → Removed db law z s o
      → Cleared (z ∷ zs) s o
  unfolding Spared
  Cleared-stop z zs s o x e failed d = record {
    stays = λ id r h sp. d.others id (λ i. ground (arith, e, sp.0 (sym i))) ∙ h;
    only = d.only;
    spared = λ id r y h. absurd (ground (arith, failed, y));
  }

  Cleared-after :
      (z : Zone) (zs : List Zone) (s : S) (o p : Outcome db)
      → exists z.name listed ≡ false
      → o.1 ≡ none
      → Removed db law z s o
      → Cleared zs o.0.state p
      → Cleared (z ∷ zs) s p
  unfolding Spared
  Cleared-after z zs s o p e done d c = record {
    stays = λ id r h sp. c.stays id r (d.others id (λ i. ground (arith, e, sp.0 (sym i))) ∙ h) sp.1;
    only = λ id r h. d.only id r (c.only id r h);
    spared = λ id r y h. (
      (λ i.
          let there = subst (λ j. law.row j o.0.state ≡ some r) (sym i) (c.only id r h) in
          absurd (ground (arith, d.gone done, there))),
      c.spared id r y h,
    );
  }

  delete_unlisted-Cleared :
      (zs : List Zone) (run : Run db) → Cleared zs run.state (delete_unlisted db listed zs run)
  unfolding delete_unlisted Spared
  delete_unlisted-Cleared [] run = record {
    stays = λ id r h sp. h;
    only = λ id r h. h;
    spared = λ id r x h. tt;
  }
  delete_unlisted-Cleared (z ∷ zs) run = elim (Bool-cases (exists z.name listed)) [
    | inl e ↦
        subst (λ o. Cleared (z ∷ zs) run.state o) (sym (unlisted-next z zs run e))
          (Cleared-next z zs run.state (delete_unlisted db listed zs run) e
            (delete_unlisted-Cleared zs run))
    | inr e ↦
        let o = delete_availability_zone db z run in
        let d = delete_availability_zone-Removed db law z run in
        subst (λ p. Cleared (z ∷ zs) run.state p) (sym (unlisted-delete z zs run e))
          (elim (Option-cases o.1) [
            | inl n ↦
                subst (λ p. Cleared (z ∷ zs) run.state p)
                  (sym (and_then-none o (delete_unlisted db listed zs) n))
                  (Cleared-after z zs run.state o (delete_unlisted db listed zs o.0) e n d
                    (delete_unlisted-Cleared zs o.0))
            | inr (x, n) ↦
                subst (λ p. Cleared (z ∷ zs) run.state p)
                  (sym (and_then-some o x (delete_unlisted db listed zs) n))
                  (Cleared-stop z zs run.state o x e n d)
          ])
  ]

  some_zone : {a b : Zone} → some a ≡ some b → a ≡ b
  some_zone {a} h = ap (λ o. elim o [ none ↦ a | some x ↦ x ]) h

  Sound : ℕ → S → List Zone → Type 0
  Sound cid s zs = All (λ z. (law.row z.id s ≡ some z) × (z.cluster_id ≡ cid)) zs

  -- the row with an id, where it is of another cluster or listed, is spared
  Sound-Spared :
      (cid id : ℕ) (r : Zone) (s : S) (zs : List Zone)
      → Sound cid s zs
      → law.row id s ≡ some r
      → (r.cluster_id ≡ cid → exists r.name listed ≡ true)
      → Spared id zs
  unfolding Sound Spared
  Sound-Spared cid id r s [] sound h l = tt
  Sound-Spared cid id r s (z ∷ zs) sound h l = (
    (λ i.
        let there = subst (λ j. law.row j s ≡ some z) i sound.0.0 in
        let same : r ≡ z = some_zone (sym h ∙ there) in
        subst (λ x. exists x.name listed ≡ true) same
          (l (ap (λ x. x.cluster_id) same ∙ sound.0.1))),
    Sound-Spared cid id r s zs sound.1 h l,
  )

  -- a row that was found and spared is listed
  Spared-exists :
      (cid id : ℕ) (r : Zone) (s : S) (zs : List Zone)
      → Sound cid s zs
      → law.row id s ≡ some r
      → any (λ z. z.id == id) zs ≡ true
      → Spared id zs
      → exists r.name listed ≡ true
  unfolding Sound Spared
  Spared-exists cid id r s [] sound h a sp = absurd (ground (arith, a))
  Spared-exists cid id r s (z ∷ zs) sound h a sp = elim (Bool-cases (z.id == id)) [
    | inl e ↦
        let i = (nat_eq_iff z.id id).0 e in
        let there = subst (λ j. law.row j s ≡ some z) i sound.0.0 in
        let same : z ≡ r = some_zone (sym there ∙ h) in
        subst (λ x. exists x.name listed ≡ true) same (sp.0 i)
    | inr e ↦
        let behind : any (λ y. y.id == id) zs ≡ true = ground (arith, a, e) in
        Spared-exists cid id r s zs sound.1 h behind sp.1
  ]

  -- What is left of the rows: those of other clusters and of listed zones, none changed; without an
  -- error no other row of the cluster.
  pub record Trimmed (cid : ℕ) (s : S) (o : Outcome db) : Type 0 where
    pub stays :
        (id : ℕ) (r : Zone)
        → law.row id s ≡ some r
        → (r.cluster_id ≡ cid → exists r.name listed ≡ true)
        → law.row id o.0.state ≡ some r
    pub only : (id : ℕ) (r : Zone) → law.row id o.0.state ≡ some r → law.row id s ≡ some r
    pub left :
        (id : ℕ) (r : Zone)
        → o.1 ≡ none
        → law.row id o.0.state ≡ some r
        → r.cluster_id ≡ cid
        → exists r.name listed ≡ true

  failed-Trimmed : (cid : ℕ) (run : Run db) (e : Error) → Trimmed cid run.state (run, some e)
  failed-Trimmed cid run e = record {
    stays = λ id r h l. h;
    only = λ id r h. h;
    left = λ id r x h c. absurd (ground (arith, x));
  }

  found-Trimmed :
      (cid : ℕ) (zs : List Zone) (run : Run db)
      → cid ≢ 0
      → db.find cid run.state ≡ some zs
      → Trimmed cid run.state (delete_unlisted db listed zs run)
  unfolding Sound
  found-Trimmed cid zs run n e =
      let c = delete_unlisted-Cleared zs run in
      let sound = law.find-sound cid run.state zs n e in
      record {
        stays = λ id r h l. c.stays id r h (Sound-Spared cid id r run.state zs sound h l);
        only = c.only;
        left = λ id r x h k.
            let before = c.only id r h in
            Spared-exists cid id r run.state zs sound before
              (law.find-complete cid run.state zs id r e before k) (c.spared id r x h);
      }

  pub sync_deleted-Trimmed :
      (cid : ℕ) (run : Run db)
      → cid ≢ 0
      → Trimmed cid run.state (sync_deleted_availability_zone_list db cid listed run)
  unfolding sync_deleted_availability_zone_list
  sync_deleted-Trimmed cid run n = elim (Option-cases (db.find cid run.state)) [
    | inl e ↦
        rw (e, sync_deleted_availability_zone_list) (failed-Trimmed cid run Error.unusable_database)
    | inr (zs, e) ↦ rw (e, sync_deleted_availability_zone_list) (found-Trimmed cid zs run n e)
  ]
