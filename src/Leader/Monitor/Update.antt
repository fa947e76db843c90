-- ===== src/Leader/Monitor/Update.antt =====
-- What `updateConfigEventMonitor` (cluster-manager/leader/monitor.go) does to a configuration.
use cdm_center.Prelude.{
  ℕ, false, ◌&&◌, none, some, ◌≡◌, refl, subst, ◌==◌, if◌then◌else◌, arith, ℕ-Eq, nat_eq_iff,
  Bool-cases, inl, inr,
}
use cdm_center.Prelude.Dict.{lookup, lookup-insert}
use cdm_center.Leader.Monitor.{
  Config, Memory, Handled, assign, with_reserved, with_timestamp, update_timestamp, update_reserved,
  update_config_event_monitor,
}

-- an interval of zero is one that the message leaves as it is
abbrev pub merged : Config → Config → Config
merged msg k = record k {
  timestamp_interval =
      if msg.timestamp_interval == 0 then k.timestamp_interval else msg.timestamp_interval;
  reserved_sync_interval =
      if msg.reserved_sync_interval == 0
      then k.reserved_sync_interval
      else msg.reserved_sync_interval;
}

-- A handler leaves a memory in which a cluster has that configuration.
abbrev pub LeavesConfig : ℕ → Config → Handled → Type 0
LeavesConfig id k r = (n : Memory) × ((r ≡ Handled.handled n) × (lookup id n.cfg ≡ some (some k)))

assign-LeavesConfig :
    (id : ℕ) (f : Config → Config) (k : Config) (m : Memory)
    → lookup id m.cfg ≡ some (some k)
    → LeavesConfig id (f k) (assign id f (lookup id m.cfg) m)
unfolding assign
assign-LeavesConfig id f k m h =
    rw (assign, h)
      (_, (refl, rw (lookup-insert id id (some (f k)) m.cfg) (ground (arith, nat_eq_iff id id))))

reserved-LeavesConfig :
    (id : ℕ) (msg k : Config) (m : Memory)
    → lookup id m.cfg ≡ some (some k)
    → LeavesConfig id
        (if msg.reserved_sync_interval == 0 then k else with_reserved msg.reserved_sync_interval k)
        (update_reserved id msg m)
unfolding update_reserved
reserved-LeavesConfig id msg k m h = elim (Bool-cases (msg.reserved_sync_interval == 0)) [
  | inl e ↦ rw (update_reserved, e) (m, (refl, h))
  | inr e ↦ rw (update_reserved, e) (assign-LeavesConfig id _ k m h)
]

timestamp-LeavesConfig :
    (id : ℕ) (msg k : Config) (r : Handled)
    → LeavesConfig id k r
    → LeavesConfig id
        (if msg.timestamp_interval == 0 then k else with_timestamp msg.timestamp_interval k)
        (update_timestamp id msg r)
unfolding update_timestamp
timestamp-LeavesConfig id msg k r (m, (h, c)) = elim (Bool-cases (msg.timestamp_interval == 0)) [
  | inl e ↦ rw (h, update_timestamp, e) (m, (refl, c))
  | inr e ↦ rw (h, update_timestamp, e) (assign-LeavesConfig id _ k m c)
]

merged-steps :
    (msg k : Config)
    → (let k' =
          if msg.reserved_sync_interval == 0
          then k
          else with_reserved msg.reserved_sync_interval k in
        if msg.timestamp_interval == 0 then k' else with_timestamp msg.timestamp_interval k')
      ≡ merged msg k
merged-steps msg k = elim (Bool-cases (msg.timestamp_interval == 0)) [
  | inl e ↦ elim (Bool-cases (msg.reserved_sync_interval == 0)) [
    | inl f ↦ rw (e, f) refl
    | inr f ↦ rw (e, f) refl
  ]
  | inr e ↦ elim (Bool-cases (msg.reserved_sync_interval == 0)) [
    | inl f ↦ rw (e, f) refl
    | inr f ↦ rw (e, f) refl
  ]
]

-- A message for a cluster with a configuration is handled, and behind it the configuration has the
-- intervals of the message, where they are not zero, and otherwise its own.
pub update_config-merges :
    (id : ℕ) (msg k : Config) (m : Memory)
    → lookup id m.cfg ≡ some (some k)
    → LeavesConfig id (merged msg k) (update_config_event_monitor (some (id, some msg)) m)
unfolding update_config_event_monitor
update_config-merges id msg k m h =
    subst (λ c. LeavesConfig id c (update_timestamp id msg (update_reserved id msg m)))
      (merged-steps msg k)
      (timestamp-LeavesConfig id msg _ (update_reserved id msg m)
        (reserved-LeavesConfig id msg k m h))

-- A message with an interval that is not zero, for a cluster without a configuration, ends in a
-- dereference of nil.
pub update_config-crashes :
    (id : ℕ) (msg : Config) (m : Memory)
    → lookup id m.cfg ≡ none
    → msg.reserved_sync_interval == 0 && msg.timestamp_interval == 0 ≡ false
    → update_config_event_monitor (some (id, some msg)) m ≡ Handled.crashed
unfolding update_config_event_monitor update_reserved update_timestamp assign
update_config-crashes id msg m h z = elim (Bool-cases (msg.reserved_sync_interval == 0)) [
  | inl e ↦ elim (Bool-cases (msg.timestamp_interval == 0)) [
    | inl f ↦ ground (arith, z, e, f)
    | inr f ↦ rw (update_reserved, update_timestamp, e, f, h) refl
  ]
  | inr e ↦ rw (update_reserved, e, h) refl
]
