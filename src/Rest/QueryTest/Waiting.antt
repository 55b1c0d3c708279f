-- ===== src/Rest/QueryTest/Waiting.antt =====
-- How long a test waits, and for what.
use app_datasource_validator.Prelude.{
  ℕ, zero, suc, String, true, false, ltb, ◌+◌, ◌<◌, ◌≤◌, ◌≡◌, refl, ◌≢◌, inl, inr, eqb, eqb_iff,
  Bool-cases, Option, none, some, arith,
}
use app_datasource_validator.Exec.{Result, ok, err}
use app_datasource_validator.Stores.{Stores}
use app_datasource_validator.Executor.{SearchExecutor, JobStatus, ValidationOutcome, classify}
use app_datasource_validator.Rest.QueryTest.{Progress, wait_for_outcome, max_wait_sec}

abbrev pub Polls : Type 0
Polls = ℕ → Result (Option ValidationOutcome)

-- Each poll from `a` on and before `b` finds the search running.
abbrev pub RunningFrom : Polls → ℕ → ℕ → Type 0
RunningFrom polls a b = (k : ℕ) → a ≤ k → k < b → polls k ≡ ok none

module _ (polls : Polls) where
  running_first :
      (a b : ℕ) → polls a ≡ ok none → RunningFrom polls (suc a) b → RunningFrom polls a b
  running_first a b e h k low high = elim (Bool-cases (eqb k a)) [
    | inl same ↦ rw ((eqb_iff k a).0 same) e
    | inr later ↦ h k (ground (arith, low, later)) high
  ]

  -- How the wait ends, `left` polls before it gives up.
  pub data Ends (waited left : ℕ) : Result (Option ValidationOutcome) → Type 0 where
    gave_up : RunningFrom polls waited (waited + left) → Ends waited left (ok none)
    answered :
        (n : ℕ) (r : Result (Option ValidationOutcome))
        → waited ≤ n
        → n < waited + left
        → RunningFrom polls waited n
        → polls n ≡ r
        → r ≢ ok none
        → Ends waited left r

  one_later :
      (waited left : ℕ) {r : Result (Option ValidationOutcome)}
      → polls waited ≡ ok none
      → Ends (suc waited) left r
      → Ends waited (suc left) r
  one_later waited left e (gave_up h) =
      gave_up
        (λ k low high. running_first waited (suc waited + left) e h k low (omega (arith, high)))
  one_later waited left e (answered n r low high h a other) =
      answered n r (omega (arith, low)) (omega (arith, high)) (running_first waited n e h) a other

  Ends-at_once :
      (waited left : ℕ) (r : Result (Option ValidationOutcome))
      → polls waited ≡ r
      → r ≢ ok none
      → Ends waited (suc left) r
  Ends-at_once waited left r e other =
      answered waited r (omega arith) (omega arith)
        (λ k low high. absurd (omega (arith, low, high))) e other

abbrev pub outcome_of : Result JobStatus → Result (Option ValidationOutcome)
outcome_of (ok j) = ok (classify j)
outcome_of (err e) = err e

module _ (x : SearchExecutor) (progress : Progress) (sid : Option String) (s : Stores) where
  -- What a poll makes of the job's status.
  abbrev pub outcomes : Polls
  outcomes waited = outcome_of (progress waited sid)

  -- The stores as they were, and how the wait ended.
  abbrev pub Waited : ℕ → ℕ → Result (Option ValidationOutcome) × Stores → Type 0
  Waited waited left o = (o.1 ≡ s) × Ends outcomes waited left o.0

  polled-Waited :
      (waited left fuel : ℕ)
      → (waited < max_wait_sec)
      → Waited (suc waited) left (wait_for_outcome x progress sid fuel (waited + 1) s)
      → Waited waited (suc left) (wait_for_outcome x progress sid (suc fuel) waited s)
  unfolding wait_for_outcome
  polled-Waited waited left fuel early later = by_status (progress waited sid) refl
    where
      in_time : ltb waited max_wait_sec ≡ true
      in_time = ground (arith, early)

      by_outcome :
          (j : JobStatus) (o : Option ValidationOutcome)
          → progress waited sid ≡ ok j
          → classify j ≡ o
          → Waited waited (suc left) (wait_for_outcome x progress sid (suc fuel) waited s)
      by_outcome j none e c =
          rw (in_time, e, c) (later.0, one_later outcomes waited left (rw (e, c) refl) later.1)
      by_outcome j (some o) e c =
          rw (in_time, e, c)
            (refl, Ends-at_once outcomes waited left (ok (some o)) (rw (e, c) refl) (λ q. cc))

      by_status :
          (r : Result JobStatus)
          → progress waited sid ≡ r
          → Waited waited (suc left) (wait_for_outcome x progress sid (suc fuel) waited s)
      by_status (err k) e =
          rw (in_time, e) (refl, Ends-at_once outcomes waited left (err k) (rw e refl) (λ q. cc))
      by_status (ok j) e = by_outcome j (classify j) e refl

  plus_one : (n : ℕ) → n + 1 ≡ suc n
  plus_one n = omega arith

  wait-Waited :
      (fuel left waited : ℕ)
      → waited + left ≡ max_wait_sec
      → left ≤ fuel
      → Waited waited left (wait_for_outcome x progress sid fuel waited s)
  unfolding wait_for_outcome
  wait-Waited zero left waited e enough =
      (refl, gave_up (λ k low high. absurd (omega (arith, low, high, enough))))
  wait-Waited (suc fuel) zero waited e enough =
      let late : ltb waited max_wait_sec ≡ false = ground (arith, e) in
      rw late (refl, gave_up (λ k low high. absurd (omega (arith, low, high))))
  wait-Waited (suc fuel) (suc left) waited e enough =
      polled-Waited waited left fuel (omega (arith, e)) (
        rw (plus_one waited)
          (wait-Waited fuel left (suc waited) (omega (arith, e)) (omega (arith, enough))))

  -- A test polls its search at most 25 times, a second apart, and changes no store by that. Its
  -- answer is that of the first poll that finds the search ended or raises, and it gives up only
  -- after 25 polls that found it running. From 25 rounds on, the bound of the rounds does not matter.
  pub wait_for_outcome-Ends :
      (fuel : ℕ) → 25 ≤ fuel → Waited 0 25 (wait_for_outcome x progress sid fuel 0 s)
  wait_for_outcome-Ends fuel enough = wait-Waited fuel 25 0 (omega arith) enough
