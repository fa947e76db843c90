-- ===== src/Sync/Cluster/Rounds.antt =====
-- The rounds of `Cluster` (cluster-manager/sync/cluster.go): which resources are synchronized at
-- their end.
use cdm_center.Prelude.{
  ℕ, zero, suc, ◌+◌, Bool, true, false, ◌||◌, ◌&&◌, none, some, List, [], ◌∷◌, ◌≡◌, refl, sym, ap,
  ◌∙◌, if◌then◌else◌, arith, Bool-cases, inl, inr,
}
use cdm_center.Prelude.Dict.{Dict, lookup, insert, lookup-insert}
use cdm_center.Prelude.Lists.{All}
use cdm_center.Sync.Resource.{Resource, Resource-Eq, resource_eq, resource_eq_iff}
use cdm_center.Sync.Cluster.{
  Env, Run, check_failed_sync_func, list_resources, is_synced, mark_running, call_sync, sync_step,
  sync_each, spec_step, sync_round, sync_rounds,
}

-- the call succeeded in that round
unfoldable pub is_ok : Env → ℕ → Resource → Bool
is_ok env i r = elim (env.outcome i r) [ none ↦ true | some e ↦ false ]

-- the call would succeed in one of `n` rounds from round `i` on
unfoldable pub ok_within : Env → ℕ → ℕ → Resource → Bool
ok_within env zero i r = false
ok_within env (suc n) i r = is_ok env i r || ok_within env n (i + 1) r

abbrev pub keys {ℓ} : {V : Type ℓ} → Dict Resource V → List Resource
keys [] = []
keys ((k, v) ∷ m) = k ∷ keys m

abbrev pub contains : List Resource → Resource → Bool
contains [] s = false
contains (r ∷ rs) s = resource_eq r s || contains rs s

pub keys-insert {ℓ} :
    {V : Type ℓ} (r : Resource) (v : V) (m : Dict Resource V)
    → contains (keys m) r ≡ true
    → keys (insert r v m) ≡ keys m
unfolding insert
keys-insert r v [] h = cc
keys-insert r v ((k, w) ∷ m) h = elim (Bool-cases (resource_eq k r)) [
  | inl e ↦ rw e (ap (λ x. x ∷ keys m) (sym ((resource_eq_iff k r).0 e)))
  | inr e ↦ rw e (ap (λ l. k ∷ l) (keys-insert r v m (ground arith)))
]

is_synced-insert :
    (r s : Resource) (m : Dict Resource Bool)
    → is_synced (insert r true m) s ≡ (if resource_eq r s then true else is_synced m s)
unfolding is_synced
is_synced-insert r s m = ground (arith, lookup-insert r s true m)

module _ (env : Env) (cid : ℕ) where
  sync_func-mark_running :
      (r : Resource) (st : Run) → (mark_running env cid r st).sync_func ≡ st.sync_func
  unfolding mark_running
  sync_func-mark_running r st = ground arith

  sync_func-call_sync :
      (i : ℕ) (r : Resource) (st : Run)
      → (call_sync env cid i r st).sync_func
        ≡ (if is_ok env i r then insert r true st.sync_func else st.sync_func)
  unfolding call_sync is_ok
  sync_func-call_sync i r st = ground arith

  sync_func-sync_step :
      (i : ℕ) (r : Resource) (st : Run)
      → (sync_step env cid i r st).sync_func ≡ (
          if is_synced st.sync_func r
          then st.sync_func
          else (if is_ok env i r then insert r true st.sync_func else st.sync_func))
  unfolding sync_step
  sync_func-sync_step i r st =
      ground
        (arith, sync_func-mark_running r st, sync_func-call_sync i r (mark_running env cid r st))

  -- a block: the resource is synchronized if it was or if its call succeeds; no other changes
  is_synced-sync_step :
      (i : ℕ) (r s : Resource) (st : Run)
      → is_synced (sync_step env cid i r st).sync_func s ≡ (
          if resource_eq r s
          then is_synced st.sync_func r || is_ok env i r
          else is_synced st.sync_func s)
  is_synced-sync_step i r s st =
      rw (sync_func-sync_step i r st)
        (ground (arith, is_synced-insert r s st.sync_func, resource_eq_iff r s))

  keys-sync_step :
      (i : ℕ) (r : Resource) (st : Run)
      → contains (keys st.sync_func) r ≡ true
      → keys (sync_step env cid i r st).sync_func ≡ keys st.sync_func
  keys-sync_step i r st h =
      rw (sync_func-sync_step i r st) (ground (arith, keys-insert r true st.sync_func h))

  is_synced-sync_each :
      (i : ℕ) (rs : List Resource) (s : Resource) (st : Run)
      → is_synced (sync_each env cid i rs st).sync_func s
        ≡ (is_synced st.sync_func s || (contains rs s && is_ok env i s))
  unfolding sync_each
  is_synced-sync_each i [] s st = ground arith
  is_synced-sync_each i (r ∷ rs) s st = ground (
    arith,
    is_synced-sync_each i rs s (sync_step env cid i r st),
    is_synced-sync_step i r s st,
    resource_eq_iff r s,
  )

  keys-sync_each :
      (i : ℕ) (rs : List Resource) (st : Run)
      → All (λ r. contains (keys st.sync_func) r ≡ true) rs
      → keys (sync_each env cid i rs st).sync_func ≡ keys st.sync_func
  unfolding sync_each
  keys-sync_each i [] st h = refl
  keys-sync_each i (r ∷ rs) st h =
      let e = keys-sync_step i r st h.0 in
      keys-sync_each i rs (sync_step env cid i r st) (rw e h.1) ∙ e

  sync_func-spec_step : (i : ℕ) (st : Run) → (spec_step env cid i st).sync_func ≡ st.sync_func
  unfolding spec_step
  sync_func-spec_step i st = ground arith

  pub keys-sync_round :
      (i : ℕ) (st : Run)
      → keys st.sync_func ≡ list_resources
      → keys (sync_round env cid i st).sync_func ≡ list_resources
  unfolding sync_round
  keys-sync_round i st h =
      rw sync_func-spec_step (keys-sync_each i list_resources st (rw h (ground arith)) ∙ h)

  is_synced-sync_round :
      (i : ℕ) (s : Resource) (st : Run)
      → is_synced (sync_round env cid i st).sync_func s
        ≡ (is_synced st.sync_func s || (contains list_resources s && is_ok env i s))
  unfolding sync_round
  is_synced-sync_round i s st = rw sync_func-spec_step (is_synced-sync_each i list_resources s st)

pub is_synced_of_check :
    (m : Dict Resource Bool) (s : Resource)
    → check_failed_sync_func m ≡ false
    → contains (keys m) s ≡ true
    → is_synced m s ≡ true
unfolding check_failed_sync_func is_synced lookup
is_synced_of_check [] s c h = cc
is_synced_of_check ((r, v) ∷ m) s c h = ground (arith, is_synced_of_check m s)

module _ (env : Env) (cid : ℕ) where
  pub keys-sync_rounds :
      (n i : ℕ) (st : Run)
      → keys st.sync_func ≡ list_resources
      → keys (sync_rounds env cid n i st).sync_func ≡ list_resources
  unfolding sync_rounds
  keys-sync_rounds zero i st h = h
  keys-sync_rounds (suc n) i st h =
      ground (
        arith,
        keys-sync_rounds n (i + 1) (sync_round env cid i st),
        keys-sync_round env cid i st h,
      )

  -- After `n` rounds a listed resource is synchronized if it was before or if its call succeeded in
  -- one of the rounds, also where the loop ended before them.
  pub is_synced-sync_rounds :
      (n i : ℕ) (s : Resource) (st : Run)
      → keys st.sync_func ≡ list_resources
      → contains list_resources s ≡ true
      → is_synced (sync_rounds env cid n i st).sync_func s
        ≡ (is_synced st.sync_func s || ok_within env n i s)
  unfolding sync_rounds ok_within
  is_synced-sync_rounds zero i s st h c = ground arith
  is_synced-sync_rounds (suc n) i s st h c =
      elim (Bool-cases (check_failed_sync_func st.sync_func)) [
        | inl e ↦
            rw (sync_rounds, e)
              (ground (
                arith,
                is_synced-sync_rounds n (i + 1) s (sync_round env cid i st)
                    (keys-sync_round env cid i st h) c,
                is_synced-sync_round env cid i s st,
              ))
        | inr e ↦ rw (sync_rounds, e) (ground (arith, is_synced_of_check st.sync_func s e (rw h c)))
      ]
