-- ===== src/Sync/Cluster/Progress.antt =====
-- The messages that `publishToStatus` sends during `Cluster` (cluster-manager/sync/cluster.go).
use cdm_center.Prelude.{
  ℕ, zero, suc, ◌+◌, ◌≤◌, String, true, false, List, [], ◌∷◌, ◌++◌, ◌≡◌, refl, ◌∙◌, ap, ◌==◌, arith,
  ◌⊎◌, inl, inr, String-Eq, Bool-cases, Option-cases,
}
use cdm_center.Prelude.Dict.{Dict, insert}
use cdm_center.Prelude.Lists.{All, length}
use cdm_center.Sync.Resource.{Resource, Resource-Eq}
use cdm_center.Sync.Cluster.{
  Env, Run, list_resources, all_with, status_at, is_synced, count_finished, progress_of,
  publish_to_status, announce, mark_running, call_sync, sync_step, sync_each, spec_step, sync_round,
  sync_rounds, first_run, sync_cluster, run_cluster, deferred, completed, running,
}
use cdm_center.Sync.Cluster.Rounds.{keys, contains, keys-insert}
use cdm_center.Sync.ReservedSync.Tallies.{All-snoc_iff}

count_finished-le : (m : Dict Resource String) → count_finished m ≤ length (keys m)
unfolding count_finished
count_finished-le [] = ground arith
count_finished-le ((r, v) ∷ m) = ground (arith, count_finished-le m)

progress_of-le : (n : ℕ) → n ≤ 12 → progress_of n ≤ 110
unfolding progress_of
progress_of-le n h = ground arith

-- the listed resources, and the instance specs from the end of the first round on
abbrev spec_keys : List Resource
spec_keys = list_resources ++ Resource.instance_spec_list ∷ []

record Bounded (st : Run) : Type 0 where
  bounded : All (λ m. m.progress ≤ 110) st.published
  keyed : (keys st.sync_status_func ≡ list_resources) ⊎ (keys st.sync_status_func ≡ spec_keys)

length-keys : (ks : List Resource) → (ks ≡ list_resources) ⊎ (ks ≡ spec_keys) → length ks ≤ 12
length-keys ks (inl e) = rw e (ground arith)
length-keys ks (inr e) = rw e (ground arith)

contains-keys :
    (r : Resource) (ks : List Resource)
    → contains list_resources r ≡ true
    → (ks ≡ list_resources) ⊎ (ks ≡ spec_keys)
    → contains ks r ≡ true
contains-keys r ks c (inl e) = rw e c
contains-keys r ks c (inr e) = rw e (ground arith)

set-Bounded :
    (r : Resource) (v : String) (st : Run)
    → contains list_resources r ≡ true
    → Bounded st
    → Bounded (record st { sync_status_func = insert r v st.sync_status_func })
set-Bounded r v st c h =
    let e =
      keys-insert r v st.sync_status_func (contains-keys r (keys st.sync_status_func) c h.keyed) in
    record { bounded = h.bounded; keyed = rw e h.keyed }

keys-insert-new :
    (r : Resource) (v : String) (m : Dict Resource String)
    → contains (keys m) r ≡ false
    → keys (insert r v m) ≡ keys m ++ r ∷ []
unfolding insert
keys-insert-new r v [] h = refl
keys-insert-new r v ((k, w) ∷ m) h = ground (arith, keys-insert-new r v m)

-- the entry for the instance specs goes behind the listed ones, or is there
keyed-spec :
    (v : String) (m : Dict Resource String)
    → (keys m ≡ list_resources) ⊎ (keys m ≡ spec_keys)
    → keys (insert Resource.instance_spec_list v m) ≡ spec_keys
keyed-spec v m (inl e) =
    keys-insert-new Resource.instance_spec_list v m (rw e refl)
    ∙ ap (λ l. l ++ Resource.instance_spec_list ∷ []) e
keyed-spec v m (inr e) = keys-insert Resource.instance_spec_list v m (rw e refl) ∙ e

module _ (env : Env) (cid : ℕ) where
  publish_to_status-Bounded : (st : Run) → Bounded st → Bounded (publish_to_status env cid st)
  unfolding publish_to_status
  publish_to_status-Bounded st h =
      let n = count_finished st.sync_status_func in
      let few : n ≤ 12 = ground (
        arith,
        count_finished-le st.sync_status_func,
        length-keys (keys st.sync_status_func) h.keyed,
      ) in
      record {
        bounded =
            (All-snoc_iff (λ m. m.progress ≤ 110) st.published _).1
              (h.bounded, progress_of-le n few);
        keyed = h.keyed;
      }

  announce-Bounded :
      (r : Resource) (v : String) (st : Run)
      → contains list_resources r ≡ true
      → Bounded st
      → Bounded (announce env cid r v st)
  unfolding announce
  announce-Bounded r v st c h = publish_to_status-Bounded _ (set-Bounded r v st c h)

  mark_running-Bounded :
      (r : Resource) (st : Run)
      → contains list_resources r ≡ true
      → Bounded st
      → Bounded (mark_running env cid r st)
  unfolding mark_running
  mark_running-Bounded r st c h = elim (Bool-cases (status_at st.sync_status_func r == completed)) [
    | inl e ↦ rw (mark_running, e) h
    | inr e ↦ rw (mark_running, e) (announce-Bounded r running st c h)
  ]

  call_sync-Bounded :
      (i : ℕ) (r : Resource) (st : Run)
      → contains list_resources r ≡ true
      → Bounded st
      → Bounded (call_sync env cid i r st)
  unfolding call_sync
  call_sync-Bounded i r st c h = elim (Option-cases (env.outcome i r)) [
    | inl e ↦
        rw (call_sync, e)
          (announce-Bounded r _ _ c (record { bounded = h.bounded; keyed = h.keyed }))
    | inr (x, e) ↦
        rw (call_sync, e)
          (announce-Bounded r _ _ c (record { bounded = h.bounded; keyed = h.keyed }))
  ]

  sync_step-Bounded :
      (i : ℕ) (r : Resource) (st : Run)
      → contains list_resources r ≡ true
      → Bounded st
      → Bounded (sync_step env cid i r st)
  unfolding sync_step
  sync_step-Bounded i r st c h =
      let k = mark_running-Bounded r st c h in
      ground (arith, k, call_sync-Bounded i r (mark_running env cid r st) c k)

  sync_each-Bounded :
      (i : ℕ) (rs : List Resource) (st : Run)
      → All (λ r. contains list_resources r ≡ true) rs
      → Bounded st
      → Bounded (sync_each env cid i rs st)
  unfolding sync_each
  sync_each-Bounded i [] st c h = h
  sync_each-Bounded i (r ∷ rs) st c h =
      sync_each-Bounded i rs (sync_step env cid i r st) c.1 (sync_step-Bounded i r st c.0 h)

  spec_step-Bounded : (i : ℕ) (st : Run) → Bounded st → Bounded (spec_step env cid i st)
  unfolding spec_step
  spec_step-Bounded i st h =
      elim (Bool-cases (is_synced st.sync_func Resource.instance_spec_list)) [
        | inl e ↦ rw (spec_step, e) h
        | inr e ↦
            rw (spec_step, e)
              (record {
                bounded = h.bounded;
                keyed = inr (keyed-spec _ st.sync_status_func h.keyed);
              })
      ]

  sync_rounds-Bounded : (n i : ℕ) (st : Run) → Bounded st → Bounded (sync_rounds env cid n i st)
  unfolding sync_rounds sync_round
  sync_rounds-Bounded zero i st h = h
  sync_rounds-Bounded (suc n) i st h =
      let k : Bounded (sync_round env cid i st) =
        spec_step-Bounded i _ (sync_each-Bounded i list_resources st (ground arith) h) in
      ground (arith, h, sync_rounds-Bounded n (i + 1) (sync_round env cid i st) k)

first_run-Bounded : Bounded first_run
unfolding first_run all_with
first_run-Bounded = record { bounded = tt; keyed = inl refl }

-- Every message that a run publishes has a progress of at most 110: the eleven listed resources and
-- the instance specs count at most twelve.
pub sync_cluster-progress_le :
    (env : Env) (now cid : ℕ) → All (λ m. m.progress ≤ 110) (sync_cluster env now cid).run.published
unfolding sync_cluster run_cluster deferred
sync_cluster-progress_le env now cid =
    ground (arith, first_run-Bounded, sync_rounds-Bounded env cid 3 0 first_run first_run-Bounded)
