-- ===== src/Sync/Wait/Ends.antt =====
-- The loops of cluster-manager/sync/sync_util.go come to an end, and with the right result.
use cdm_center.Prelude.{
  ℕ, zero, suc, ◌+◌, ◌*◌, ◌≤◌, ◌<◌, String, Bool, true, false, Option, some, ◌≡◌, refl, arith,
  Bool-cases, inl, inr, ap, ◌∙◌, subst, ◌⊎◌,
}
use cdm_center.Errors.{Error}
use cdm_center.Cluster.Store.{Result}
use cdm_center.Sync.Wait.{
  Polls, Poll, continues, second, wait_loop, poll_volume, poll_instance, wait_volume_status,
  wait_instance_status,
}

-- A loop that goes on is still within its timeout.
continues-in_time :
    (tie : Bool) (ends timeout : ℕ) → continues tie ends timeout ≡ true → ends ≤ timeout
unfolding continues
continues-in_time tie ends timeout h = ground arith

continues-early :
    (tie : Bool) (ends timeout : ℕ) → ends < timeout → continues tie ends timeout ≡ true
unfolding continues
continues-early tie ends timeout h = ground arith

Poll-cases :
    (q : Poll) → ((e : Option Error) × (q ≡ Poll.returns e)) ⊎ ((s : String) × (q ≡ Poll.busy s))
Poll-cases (Poll.returns e) = inl (e, refl)
Poll-cases (Poll.busy s) = inr (s, refl)

-- the time at which the poll with a number starts, if the loop gets there
abbrev pub started : Polls → ℕ → ℕ
started p zero = 0
started p (suc k) = started p k + p.takes k + 3 * second

started-monotone : (p : Polls) (i d : ℕ) → started p i ≤ started p (i + d)
started-monotone p i zero =
    let e : i + 0 ≡ i = omega arith in let h = ap (started p) e in omega arith
started-monotone p i (suc d) =
    let e : i + suc d ≡ suc (i + d) = omega arith in
    let h = ap (started p) e in let ih = started-monotone p i d in omega arith

started-pauses : (p : Polls) (k : ℕ) → 3000 * k ≤ started p k
started-pauses p zero = omega arith
started-pauses p (suc k) = let ih = started-pauses p k in omega arith

-- an answer that keeps a loop going
abbrev pub IsBusy : Poll → Type 0
IsBusy q = (s : String) × (q ≡ Poll.busy s)

module _ (poll : Result String Error → Poll) (late : String → Error) (timeout : ℕ) (p : Polls) where
  -- the three ways one poll goes
  poll_returns :
      (fuel i now : ℕ) (e : Option Error)
      → poll (p.answer i) ≡ Poll.returns e
      → wait_loop poll late timeout p (suc fuel) i now ≡ some e
  unfolding wait_loop
  poll_returns fuel i now e q = rw (q, wait_loop) refl

  poll_continues :
      (fuel i now : ℕ) (s : String)
      → poll (p.answer i) ≡ Poll.busy s
      → continues (p.tie i) (now + p.takes i + 3000) timeout ≡ true
      → wait_loop poll late timeout p (suc fuel) i now
        ≡ wait_loop poll late timeout p fuel (suc i) (now + p.takes i + 3000)
  unfolding wait_loop
  poll_continues fuel i now s q c = rw (q, c, wait_loop) refl

  poll_times_out :
      (fuel i now : ℕ) (s : String)
      → poll (p.answer i) ≡ Poll.busy s
      → continues (p.tie i) (now + p.takes i + 3000) timeout ≡ false
      → wait_loop poll late timeout p (suc fuel) i now ≡ some (some (late s))
  unfolding wait_loop
  poll_times_out fuel i now s q c = rw (q, c, wait_loop) refl

  -- With fuel for every pause that fits into the timeout, and one more, the loop returns.
  wait_loop-returns :
      (fuel i now : ℕ)
      → now ≤ timeout
      → timeout < 3000 * fuel + now
      → (e : Option Error) × (wait_loop poll late timeout p fuel i now ≡ some e)
  wait_loop-returns zero i now in_time h = absurd (omega arith)
  wait_loop-returns (suc fuel) i now in_time h =
      let ends = now + p.takes i + 3000 in
      elim (Poll-cases (poll (p.answer i))) [
        | inl (e, q) ↦ (e, poll_returns fuel i now e q)
        | inr (s, q) ↦ elim (Bool-cases (continues (p.tie i) ends timeout)) [
          | inl c ↦
              let still = continues-in_time (p.tie i) ends timeout c in
              let ih = wait_loop-returns fuel (suc i) ends still (omega arith) in
              (ih.0, poll_continues fuel i now s q c ∙ ih.1)
          | inr c ↦ (some (late s), poll_times_out fuel i now s q c)
        ]
      ]

  -- Where the polls before `k` are busy and `k` starts in time, the loop returns what `k` returns.
  wait_loop-settles :
      (d fuel i k : ℕ) (e : Option Error)
      → i + d ≡ k
      → d < fuel
      → ((j : ℕ) → j < k → IsBusy (poll (p.answer j)))
      → poll (p.answer k) ≡ Poll.returns e
      → started p k < timeout
      → wait_loop poll late timeout p fuel i (started p i) ≡ some e
  wait_loop-settles d zero i k e at enough busy q early = absurd (omega arith)
  wait_loop-settles zero (suc fuel) i k e at enough busy q early =
      let here : k ≡ i = omega arith in
      poll_returns fuel i (started p i) e (subst (λ j. poll (p.answer j) ≡ Poll.returns e) here q)
  wait_loop-settles (suc d) (suc fuel) i k e at enough busy q early =
      let s = busy i (omega arith) in
      let there : suc i + d ≡ k = omega arith in
      let next : started p (suc i) ≤ started p k =
        subst (λ m. started p (suc i) ≤ started p m) there (started-monotone p (suc i) d) in
      let c = continues-early (p.tie i) (started p (suc i)) timeout (omega arith) in
      poll_continues fuel i (started p i) s.0 s.1 c
      ∙ wait_loop-settles d fuel (suc i) k e there (omega arith) busy q early

abbrev volume_loop : String → String → Error
volume_loop uuid s = Error.volume_status_timeout s uuid

abbrev instance_loop : String → String → Error
instance_loop uuid s = Error.instance_status_timeout s uuid

-- Whatever the polls answer and however long each takes, 41 polls are enough for a volume and 21 for
-- an instance: both functions return.
pub wait_status-returns :
    (p : Polls) (uuid : String)
    → ((e : Option Error) × (wait_volume_status 41 p uuid ≡ some e))
      × ((e : Option Error) × (wait_instance_status 21 p uuid ≡ some e))
unfolding wait_volume_status wait_instance_status
wait_status-returns p uuid = (
  wait_loop-returns poll_volume (volume_loop uuid) 120000 p 41 0 0 (omega arith) (omega arith),
  wait_loop-returns poll_instance (instance_loop uuid) 60000 p 21 0 0 (omega arith) (omega arith),
)

-- Where the answers before poll `k` are all busy statuses of a volume, poll `k` makes
-- `waitVolumeStatus` return, and `k` starts less than 120 seconds after the first poll, the function
-- returns with the result of poll `k`.
pub wait_volume_status-settles :
    (p : Polls) (uuid : String) (k : ℕ) (e : Option Error)
    → ((j : ℕ) → j < k → IsBusy (poll_volume (p.answer j)))
    → poll_volume (p.answer k) ≡ Poll.returns e
    → started p k < 120 * second
    → wait_volume_status 41 p uuid ≡ some e
unfolding wait_volume_status
wait_volume_status-settles p uuid k e busy q early =
    let pauses = started-pauses p k in
    wait_loop-settles poll_volume (volume_loop uuid) 120000 p k 41 0 k e (omega arith) (omega arith)
      busy q early
