-- ===== src/Leader/Monitor/Configured.antt =====
-- Every cluster that the leader has in memory has a configuration
-- (cluster-manager/leader/monitor.go).
use cdm_center.Prelude.{
  ℕ, Bool, true, false, not, ◌||◌, subst, Option, none, some, List, [], ◌∷◌, ◌≡◌, ◌≢◌, refl, ◌==◌,
  arith, ℕ-Eq, Bool-cases, Option-cases, inl, inr,
}
use cdm_center.Prelude.Dict.{lookup, insert, lookup-insert, lookup-delete}
use cdm_center.Leader.Service.{ExcludedCluster}
use cdm_center.Leader.Monitor.{
  Config, Cluster, Memory, Handled, default_config, add_cluster, create_cluster_event_monitor,
  remove_cluster, delete_cluster_event_monitor, assign, with_reserved, with_timestamp,
  update_timestamp, update_reserved, update_config_event_monitor, cluster_exception_monitor,
  set_running, put_default_config, Step, Steps, Got, config_of, leader_init,
}

abbrev pub has_config : Option (Option Config) → Bool
has_config none = false
has_config (some none) = false
has_config (some (some k)) = true

abbrev pub is_known : Option Cluster → Bool
is_known none = false
is_known (some c) = true

-- a cluster that is in memory has a configuration that is not nil
abbrev pub IsConfigured : Memory → Type 0
IsConfigured m =
    (id : ℕ) → not (is_known (lookup id m.clusters)) || has_config (lookup id m.cfg) ≡ true

add_cluster-IsConfigured :
    (c : Cluster) (m : Memory) → IsConfigured m → IsConfigured (add_cluster c m)
unfolding add_cluster
add_cluster-IsConfigured c m h id =
    rw
      (lookup-insert c.id id c m.clusters, lookup-insert c.id id (some (default_config c.id)) m.cfg)
      (ground (arith, h id))

remove_cluster-IsConfigured :
    (c : ℕ) (m : Memory) → IsConfigured m → IsConfigured (remove_cluster c m)
unfolding remove_cluster
remove_cluster-IsConfigured c m h id =
    rw (lookup-delete c id m.clusters, lookup-delete c id m.cfg) (ground (arith, h id))

put_config-IsConfigured :
    (c : ℕ) (k : Config) (m : Memory)
    → IsConfigured m
    → IsConfigured (record m { cfg = insert c (some k) m.cfg })
put_config-IsConfigured c k m h id = rw (lookup-insert c id (some k) m.cfg) (ground (arith, h id))

-- a handler's memory is configured, if it leaves one
abbrev Keeps : Handled → Type 0
Keeps (Handled.handled m) = IsConfigured m
Keeps (Handled.refused e) = Unit
Keeps Handled.crashed = Unit

assign-Keeps :
    (c : ℕ) (f : Config → Config) (o : Option (Option Config)) (m : Memory)
    → IsConfigured m
    → Keeps (assign c f o m)
unfolding assign
assign-Keeps c f none m h = tt
assign-Keeps c f (some none) m h = tt
assign-Keeps c f (some (some k)) m h = put_config-IsConfigured c (f k) m h

update_reserved-Keeps :
    (c : ℕ) (msg : Config) (m : Memory) → IsConfigured m → Keeps (update_reserved c msg m)
unfolding update_reserved
update_reserved-Keeps c msg m h = elim (Bool-cases (msg.reserved_sync_interval == 0)) [
  | inl e ↦ rw (update_reserved, e) h
  | inr e ↦
      rw (update_reserved, e)
        (assign-Keeps c (with_reserved msg.reserved_sync_interval) (lookup c m.cfg) m h)
]

update_timestamp-Keeps :
    (c : ℕ) (msg : Config) (r : Handled) → Keeps r → Keeps (update_timestamp c msg r)
unfolding update_timestamp
update_timestamp-Keeps c msg (Handled.refused e) h = tt
update_timestamp-Keeps c msg Handled.crashed h = tt
update_timestamp-Keeps c msg (Handled.handled m) h =
    elim (Bool-cases (msg.timestamp_interval == 0)) [
      | inl e ↦ rw (update_timestamp, e) h
      | inr e ↦
          rw (update_timestamp, e)
            (assign-Keeps c (with_timestamp msg.timestamp_interval) (lookup c m.cfg) m h)
    ]

create-Keeps :
    (find : ℕ → Option Cluster) (body : Option ℕ) (m : Memory)
    → IsConfigured m
    → Keeps (create_cluster_event_monitor find body m)
unfolding create_cluster_event_monitor
create-Keeps find none m h = tt
create-Keeps find (some id) m h = elim (Option-cases (find id)) [
  | inl e ↦ rw (create_cluster_event_monitor, e) tt
  | inr (c, e) ↦ rw (create_cluster_event_monitor, e) (add_cluster-IsConfigured c m h)
]

delete-Keeps :
    (body : Option ℕ) (m : Memory) → IsConfigured m → Keeps (delete_cluster_event_monitor body m)
unfolding delete_cluster_event_monitor
delete-Keeps none m h = tt
delete-Keeps (some id) m h = remove_cluster-IsConfigured id m h

update_config-Keeps :
    (body : Option (ℕ × Option Config)) (m : Memory)
    → IsConfigured m
    → Keeps (update_config_event_monitor body m)
unfolding update_config_event_monitor
update_config-Keeps none m h = tt
update_config-Keeps (some (id, none)) m h = tt
update_config-Keeps (some (id, some msg)) m h =
    update_timestamp-Keeps id msg (update_reserved id msg m) (update_reserved-Keeps id msg m h)

exception-Keeps :
    (body : Option (ℕ × ExcludedCluster)) (m : Memory)
    → IsConfigured m
    → Keeps (cluster_exception_monitor body m)
unfolding cluster_exception_monitor
exception-Keeps none m h = tt
exception-Keeps (some (id, ex)) m h = elim (Bool-cases (id == 0)) [
  | inl e ↦ rw (cluster_exception_monitor, e) tt
  | inr e ↦ rw (cluster_exception_monitor, e) h
]

kept : (r : Handled) (n : Memory) → Keeps r → r ≡ Handled.handled n → IsConfigured n
kept r n k e = subst Keeps e k

step-IsConfigured : (m n : Memory) → Step m n → IsConfigured m → IsConfigured n
step-IsConfigured m n (Step.created find body _ _ e) h = kept _ n (create-Keeps find body m h) e
step-IsConfigured m n (Step.deleted body _ _ e) h = kept _ n (delete-Keeps body m h) e
step-IsConfigured m n (Step.configured body _ _ e) h = kept _ n (update_config-Keeps body m h) e
step-IsConfigured m n (Step.excepted body _ _ e) h = kept _ n (exception-Keeps body m h) e
step-IsConfigured m n (Step.running id b _) h = unfold set_running in h
step-IsConfigured m n (Step.defaulted id _ e) h =
    unfold put_default_config in put_config-IsConfigured id (default_config id) m h

-- Whatever messages, checks and rounds of the loop follow, every cluster that the leader has in
-- memory keeps a configuration that is not nil, if each had one at first.
pub steps-IsConfigured : (m n : Memory) → Steps m n → IsConfigured m → IsConfigured n
steps-IsConfigured m n Steps.done h = h
steps-IsConfigured l n (Steps.more s r) h = steps-IsConfigured _ n r (step-IsConfigured l _ s h)

config_of-has_config :
    (id : ℕ) (g : Got) → g ≢ Got.failed → has_config (some (config_of id g)) ≡ true
config_of-has_config id (Got.got k) n = refl
config_of-has_config id Got.not_found_config n = refl
config_of-has_config id Got.failed n = absurd (n refl)

-- At the start every cluster gets a configuration that is not nil, the stored or the default one,
-- if no configuration fails to be read for another reason than that there is none.
pub leader_init-IsConfigured :
    (get : ℕ → Got) (cs : List Cluster) (m : Memory)
    → ((id : ℕ) → get id ≢ Got.failed)
    → IsConfigured m
    → IsConfigured (leader_init get cs m)
unfolding leader_init
leader_init-IsConfigured get [] m n h = h
leader_init-IsConfigured get (c ∷ cs) m n h = leader_init-IsConfigured get cs _ n (λ id.
    rw (lookup-insert c.id id c m.clusters, lookup-insert c.id id (config_of c.id (get c.id)) m.cfg)
      (ground (arith, h id, config_of-has_config c.id (get c.id) (n c.id))))
