-- ===== src/Sync/Wait.antt =====
-- The two loops that wait until a volume or an instance has left a transient status:
-- `waitVolumeStatus` and `waitInstanceStatus` of cluster-manager/sync/sync_util.go. The answers of the
-- API and the time each call takes, in milliseconds, are arguments. Where the timeout and the pause
-- end at the same moment, Go chooses, and `tie` is its choice.
pub mod Ends
mod Tests
use cdm_center.Prelude.{
  ℕ, zero, suc, ◌+◌, ◌*◌, String, Bool, true, false, ◌||◌, not, Option, none, some, ◌==◌,
  if◌then◌else◌, ltb, String-Eq,
}
use cdm_center.Errors.{Error}
use cdm_center.Cluster.Store.{Result}

abbrev pub second : ℕ
second = 1000

-- what the loop does not choose: of the poll with a number, the answer (the status, or the error),
-- the time it takes, and whether its pause wins a tie with the timeout
pub record Polls : Type 0 where
  pub answer : ℕ → Result String Error
  pub takes : ℕ → ℕ
  pub tie : ℕ → Bool

-- `time.After(3 * time.Second)` is received before `timeout`
unfoldable pub continues : Bool → ℕ → ℕ → Bool
continues tie pause_ends timeout =
    if ltb pause_ends timeout then true else if ltb timeout pause_ends then false else tie

-- One poll: to return an error, nil, or to look at a status that keeps the loop going.
pub data Poll : Type 0 where
  returns : Option Error → Poll
  busy : String → Poll

unfoldable pub is_busy_volume : String → Bool
is_busy_volume s =
    s == "attaching"
    || s == "deleting"
    || s == "extending"
    || s == "unmanaging"
    || s == "detaching"
    || s == "retyping"

unfoldable pub poll_volume : Result String Error → Poll
poll_volume (Result.error Error.client_not_found) = Poll.returns none
poll_volume (Result.error Error.not_found_volume_type) = Poll.returns none
poll_volume (Result.error e) = Poll.returns (some e)
poll_volume (Result.ok s) = if is_busy_volume s then Poll.busy s else Poll.returns none

unfoldable pub poll_instance : Result String Error → Poll
poll_instance (Result.error Error.client_not_found) = Poll.returns none
poll_instance (Result.error Error.not_found_instance_hypervisor) = Poll.returns none
poll_instance (Result.error e) = Poll.returns (some e)
poll_instance (Result.ok s) = if not (s == "MIGRATING") then Poll.returns none else Poll.busy s

-- The `for` of both, on fuel: `i` is the number of the poll and `now` the time since `timeout` was
-- made. `none` is running out of fuel.
unfoldable pub wait_loop :
    (Result String Error → Poll) → (String → Error) → ℕ → Polls → ℕ → ℕ → ℕ → Option (Option Error)
wait_loop poll late timeout p zero i now = none
wait_loop poll late timeout p (suc fuel) i now =
    let answered = now + p.takes i in
    let rest = wait_loop poll late timeout p fuel (suc i) (answered + 3 * second) in
    elim (poll (p.answer i)) [
      | Poll.returns e ↦ some e
      | Poll.busy s ↦
          if continues (p.tie i) (answered + 3 * second) timeout then rest else some (some (late s))
    ]

unfoldable pub wait_volume_status : ℕ → Polls → String → Option (Option Error)
wait_volume_status fuel p uuid =
    wait_loop poll_volume (λ s. Error.volume_status_timeout s uuid) (120 * second) p fuel 0 0

unfoldable pub wait_instance_status : ℕ → Polls → String → Option (Option Error)
wait_instance_status fuel p uuid =
    wait_loop poll_instance (λ s. Error.instance_status_timeout s uuid) (60 * second) p fuel 0 0
