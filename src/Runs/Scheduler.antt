-- ===== src/Runs/Scheduler.antt =====
-- services/control-tower/src/runs/deployment-scheduler.service.ts. An operation is the sequence of its
-- reads and writes with no other operation between them. `has_definition` is what the run storage
-- answers, `rebuilds` whether `rebuildDeploymentContext` succeeds for an instance (the definition is
-- read, parsed and converted there), `max_concurrent` and `max_booting` are the configured limits.
pub mod Limits
pub mod Changes
pub mod Progress
pub mod Completion
use dokkimi.Prelude.{
  ℕ, zero, suc, ◌+◌, ◌-◌, Bool, true, false, ◌||◌, ◌&&◌, not, Option, none, some, List, [], ◌∷◌,
  eqb, leb, ltb, min, if◌then◌else◌, count_of, keep, map,
}
use dokkimi.Prelude.Int.{ℤ, pos, sub_ℕ, ltb_ℤ, pos_part}
use dokkimi.Prelude.Text.{is_present}
use dokkimi.Runs.Rows.{
  member_id, InstanceStatus, pending, starting, running, stopping, terminating, stopped, failed,
  TestStatus, passed, test_failed, RunStatus, run_pending, run_running, completed, run_failed,
  cancelled, Instance, Run, is_pending, is_starting, is_active, is_terminal, is_open, with_status,
  with_instances, with_run_status, find_run, update_run,
}

-- `run.instances.filter(…).length`, for the two counts.
abbrev pub active_count : List Instance → ℕ
active_count is = count_of (λ (i : Instance). is_active i.status) is

abbrev pub starting_count : List Instance → ℕ
starting_count is = count_of (λ (i : Instance). is_starting i.status) is

-- `updateMany({ where: { id, status: PENDING }, data: { status: STARTING } })` and whether its count
-- is not 0.
unfoldable pub claim : ℕ → List Instance → List Instance × Bool
claim id [] = ([], false)
claim id (i ∷ is) =
    if eqb i.id id
    then if is_pending i.status then (with_status starting i ∷ is, true) else (i ∷ is, false)
    else (i ∷ (claim id is).0, (claim id is).1)

-- `Math.min(maxConcurrentTests - activeCount, maxBootingTests - startingCount)`.
unfoldable pub slots_available : ℕ → ℕ → List Instance → ℤ
slots_available max_concurrent max_booting is =
    let concurrent = sub_ℕ max_concurrent (active_count is) in
    let booting = sub_ℕ max_booting (starting_count is) in
    if ltb_ℤ booting concurrent then booting else concurrent

pub is_failed : InstanceStatus → Bool
is_failed failed = true
is_failed _ = false

pub is_stopped : InstanceStatus → Bool
is_stopped stopped = true
is_stopped _ = false

pub is_test_status : TestStatus → Option TestStatus → Bool
is_test_status passed (some passed) = true
is_test_status test_failed (some test_failed) = true
is_test_status _ _ = false

-- `[...new Set(ids)]`: the first of each.
pub unique_after : List ℕ → List ℕ → List ℕ
unique_after seen [] = []
unique_after seen (x ∷ xs) =
    let rest = unique_after (x ∷ seen) xs in if member_id x seen then rest else x ∷ rest

pub unique : List ℕ → List ℕ
unique xs = unique_after [] xs

-- The row of an instance, among those of all runs, is given a status.
abbrev set_status : ℕ → InstanceStatus → Instance → Instance
set_status id s i = if eqb i.id id then with_status s i else i

abbrev update_instances : (Instance → Instance) → List Run → List Run
update_instances f runs = map (λ (r : Run). with_instances (map f r.instances) r) runs

-- `isTerminal` of an instance, and whether it counts as a failure.
pub is_done : Instance → Bool
is_done i =
    is_terminal i.status
    || is_test_status passed i.test_status
    || is_test_status test_failed i.test_status

pub counts_as_failed : Instance → Bool
counts_as_failed i =
    is_failed i.status
    || is_test_status test_failed i.test_status
    || (is_stopped i.status && not (is_present i.test_status))

module _ (has_definition : ℕ → Bool) where
  -- One pass of the loop: an instance without a definition is not claimed.
  unfoldable pub attempt : ℕ → List Instance → List Instance × Bool
  attempt id rows = if has_definition id then claim id rows else (rows, false)

  module _ (rebuilds : ℕ → Bool) where
    -- The loop over the pending instances that were read: the rows, and the instances it claims, in
    -- order. After a claim whose context cannot be rebuilt the call throws, which its callers only log.
    unfoldable pub deploy_loop : ℕ → ℕ → List Instance → List Instance → List Instance × List ℕ
    deploy_loop slots deployed [] rows = (rows, [])
    deploy_loop slots deployed (instance ∷ rest) rows =
        let tried = attempt instance.id rows in
        let next = deploy_loop slots (if tried.1 then suc deployed else deployed) rest tried.0 in
        if leb slots deployed
        then (rows, [])
        else if tried.1 && not (rebuilds instance.id)
        then (tried.0, instance.id ∷ [])
        else (next.0, if tried.1 then instance.id ∷ next.1 else next.1)

    -- `if (slotsAvailable <= 0) return`, and the loop.
    unfoldable pub deploy_into : ℤ → List Instance → List Instance × List ℕ
    deploy_into (pos (suc n)) is =
        deploy_loop (suc n) 0 (keep (λ (i : Instance). is_pending i.status) is) is
    deploy_into _ is = (is, [])

    module _ (max_concurrent max_booting : ℕ) where
      -- What `deployPendingInstances` does with the instances of an open run.
      unfoldable pub deploy_instances : List Instance → List Instance × List ℕ
      deploy_instances is = deploy_into (slots_available max_concurrent max_booting is) is

      pub deploy_run : Run → Run
      deploy_run r =
          if is_open r.status then with_instances (deploy_instances r.instances).0 r else r

      pub deploy_pending_instances : ℕ → List Run → List Run
      deploy_pending_instances run_id = update_run run_id deploy_run

  -- The loop over the instances: `allDone` and `anyFailed`.
  pub completion_loop : Bool → List Instance → Bool × Bool
  completion_loop any_failed [] = (true, any_failed)
  completion_loop any_failed (inst ∷ rest) =
      let failing = if is_done inst then any_failed || counts_as_failed inst else true in
      let next = completion_loop failing rest in
      if is_done inst || (is_pending inst.status && not (has_definition inst.id))
      then next
      else (false, any_failed)

  pub check_run : Run → Run
  check_run r =
      let (all_done, any_failed) = completion_loop false r.instances in
      if is_open r.status && all_done
      then with_run_status (if any_failed then run_failed else completed) r
      else r

  pub check_run_completion : ℕ → List Run → List Run
  check_run_completion run_id = update_run run_id check_run

  module _ (rebuilds : ℕ → Bool) (max_concurrent max_booting : ℕ) where
    -- `checkRunCompletion` and then `deployPendingInstances`: after a stop, a crash or a failed deployment.
    pub settle : ℕ → List Run → List Run
    settle run_id runs =
        deploy_pending_instances rebuilds max_concurrent max_booting run_id
          (check_run_completion run_id runs)

    pub settle_each : List ℕ → List Run → List Run
    settle_each [] runs = runs
    settle_each (run_id ∷ rest) runs = settle_each rest (settle run_id runs)

    pub handle_instances_stopped : List ℕ → List Run → List Run
    unfolding settle_each
    handle_instances_stopped run_ids runs = settle_each (unique run_ids) runs

    -- The `catch` of `deployInBackground`: the instance is FAILED, and the run is settled.
    pub handle_deployment_failure : ℕ → ℕ → List Run → List Run
    handle_deployment_failure instance_id run_id runs =
        settle run_id (update_instances (set_status instance_id failed) runs)
