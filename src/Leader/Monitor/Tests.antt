-- ===== src/Leader/Monitor/Tests.antt =====
-- The leader's memory with one cluster.
use cdm_center.Prelude.{ℕ, true, false, Option, none, some, [], ◌∷◌, ◌≡◌, ◌≢◌, refl, ℕ-Eq}
use cdm_center.Prelude.Dict.{lookup, insert}
use cdm_center.Leader.Monitor.{
  Config, Cluster, Memory, Handled, Step, Steps, Got, default_config, create_cluster_event_monitor,
  set_running,
}
use cdm_center.Leader.Monitor.Configured.{IsConfigured, steps-IsConfigured}

abbrev start : Memory
start = record { clusters = []; is_running_c = []; cfg = []; excluded = [] }

abbrev first : Cluster
first = record { id = 1; name = "first" }

abbrev find_first : ℕ → Option Cluster
find_first id = some first

abbrev one_cluster : Memory
one_cluster = record {
  clusters = (1, first) ∷ [];
  is_running_c = (1, false) ∷ [];
  cfg = (1, some (default_config 1)) ∷ [];
  excluded = [];
}

creates : create_cluster_event_monitor find_first (some 1) start ≡ Handled.handled one_cluster
unfolding create_cluster_event_monitor insert
creates = refl

start-IsConfigured : IsConfigured start
unfolding lookup
start-IsConfigured id = refl

two_steps : Steps start (set_running 1 true one_cluster)
two_steps =
    Steps.more (Step.created find_first (some 1) start one_cluster creates)
      (Steps.more (Step.running 1 true one_cluster) Steps.done)

steps-IsConfigured_example : IsConfigured (set_running 1 true one_cluster)
steps-IsConfigured_example =
    steps-IsConfigured start (set_running 1 true one_cluster) two_steps start-IsConfigured

abbrev nothing_stored : ℕ → Got
nothing_stored id = Got.not_found_config

never-failed : (id : ℕ) → nothing_stored id ≢ Got.failed
never-failed id h = cc

abbrev ten_minutes : Config
ten_minutes = record { cluster_id = 1; timestamp_interval = 10; reserved_sync_interval = 0 }

has-default : lookup 1 one_cluster.cfg ≡ some (some (default_config 1))
unfolding lookup
has-default = refl

has-none : lookup 1 start.cfg ≡ none
unfolding lookup
has-none = refl
