-- ===== src/Sync/Wait/Tests.antt =====
-- A volume that is attached after one pause.
use cdm_center.Prelude.{ℕ, zero, suc, ◌<◌, String, true, none, some, Option, ◌≡◌, refl, arith}
use cdm_center.Errors.{Error}
use cdm_center.Cluster.Store.{Result}
use cdm_center.Sync.Wait.{
  Polls, Poll, poll_volume, wait_volume_status, wait_instance_status, is_busy_volume,
}
use cdm_center.Sync.Wait.Ends.{IsBusy, wait_status-returns, wait_volume_status-settles}

abbrev attached_later : ℕ → Result String Error
attached_later zero = Result.ok "attaching"
attached_later (suc i) = Result.ok "in-use"

abbrev polls : Polls
polls = record { answer = attached_later; takes = λ i. 250; tie = λ i. true }

first_answer : (j : ℕ) → j < 1 → IsBusy (poll_volume (attached_later j))
unfolding poll_volume is_busy_volume
first_answer zero h = ("attaching", refl)
first_answer (suc j) h = absurd (omega arith)

settled : poll_volume (attached_later 1) ≡ Poll.returns none
unfolding poll_volume is_busy_volume
settled = refl

wait_volume_status-settles_example : wait_volume_status 41 polls "v" ≡ some none
wait_volume_status-settles_example =
    wait_volume_status-settles polls "v" 1 none first_answer settled (omega arith)

wait_status-returns_example :
    ((e : Option Error) × (wait_volume_status 41 polls "v" ≡ some e))
    × ((e : Option Error) × (wait_instance_status 21 polls "v" ≡ some e))
wait_status-returns_example = wait_status-returns polls "v"
