-- ===== src/Runs/Service.antt =====
-- services/control-tower/src/runs/runs.service.ts: the operations of a run's life. Storage on disk,
-- registry credentials, logs and telemetry are left out.
pub mod Single
pub mod Submission
use dokkimi.Prelude.{
  ℕ, suc, String, Bool, true, false, ◌||◌, ◌&&◌, not, Option, none, some, List, [], ◌∷◌, ◌++◌, map,
  eqb, if◌then◌else◌, keep, some_of,
}
use dokkimi.Runs.Rows.{
  InstanceStatus, pending, stopped, failed, TestStatus, passed, test_failed, RunStatus, run_pending,
  run_running, cancelled, Instance, Run, is_pending, is_open, with_status, with_instances,
  with_run_status, find_run, update_run,
}
use dokkimi.Runs.Scheduler.{handle_instances_stopped}
use dokkimi.Runs.Cleanup.{
  stop_instance, stop_instances, stop_run, recover_stale_runs, prepare_for_new_run,
}

-- What `createRun` returns or throws.
pub data Created : Type 0 where
  conflict : Created
  created : Run → Created

-- What `stopCurrentRun` returns.
pub data Stopped : Type 0 where
  no_active_run : Stopped
  stopped_run : ℕ → Stopped

-- `definitionNames.map(…)`: the stubs, with the ids that the database gives.
pub instance_stubs : (ℕ → ℕ) → ℕ → List String → List Instance
instance_stubs new_id i [] = []
instance_stubs new_id i (name ∷ names) =
    record { id = new_id i; name = name; status = pending; test_status = none }
    ∷ instance_stubs new_id (suc i) names

-- `prisma.run.create`; `run_id`, `new_id` and `now` are what the database gives the new rows.
abbrev pub new_run : ℕ → (ℕ → ℕ) → ℕ → List String → Option String → Run
new_run run_id new_id now definition_names project_path = record {
  id = run_id;
  status = run_pending;
  project_path = project_path;
  created_at = now;
  instances = instance_stubs new_id 0 definition_names;
}

module _ (stop_ok network_exists : ℕ → Bool) (newest_first : List Run → List Run)
    (max_run_history : ℕ) where
  pub create_run : ℕ → (ℕ → ℕ) → ℕ → List String → Option String → List Run → List Run × Created
  create_run run_id new_id now definition_names project_path runs =
      let recovered = recover_stale_runs stop_ok network_exists runs in
      let prepared =
        prepare_for_new_run stop_ok newest_first max_run_history project_path recovered in
      let run = new_run run_id new_id now definition_names project_path in
      if some_of (λ (r : Run). is_open r.status) recovered
      then (recovered, conflict)
      else (prepared ++ run ∷ [], created run)

-- `findFirst` of the open runs, the newest first.
pub first_run : List Run → Option Run
first_run [] = none
first_run (r ∷ rs) = some r

-- What `stopCurrentRun` does with the run that it finds.
pub stop_found : (ℕ → Bool) → Option Run → List Run → List Run × Stopped
stop_found stop_ok none runs = (runs, no_active_run)
stop_found stop_ok (some active_run) runs =
    (update_run active_run.id (stop_run stop_ok cancelled) runs, stopped_run active_run.id)

pub stop_current_run : (ℕ → Bool) → (List Run → List Run) → List Run → List Run × Stopped
stop_current_run stop_ok newest_first runs =
    stop_found stop_ok (first_run (newest_first (keep (λ (r : Run). is_open r.status) runs))) runs

-- `prisma.run.delete`.
unfoldable pub remove_run : ℕ → List Run → List Run
remove_run id [] = []
remove_run id (r ∷ rs) = if eqb r.id id then rs else r ∷ remove_run id rs

-- `deleteRun`: the run's instances are stopped first, and go with the run. Not found is `none`.
pub delete_run : (ℕ → Bool) → ℕ → List Run → Option (List Run)
delete_run stop_ok run_id runs = elim (find_run run_id runs) [
  | none ↦ none
  | some r ↦ some (
      remove_run run_id (
        update_run run_id (λ (x : Run). with_instances (stop_instances stop_ok x.instances) x)
          runs))
]

abbrev pub with_test_status : TestStatus → Instance → Instance
with_test_status t i = record { id = i.id; name = i.name; status = i.status; test_status = some t }

pub update_instance : ℕ → (Instance → Instance) → List Instance → List Instance
update_instance id f [] = []
update_instance id f (i ∷ is) = if eqb i.id id then f i ∷ is else i ∷ update_instance id f is

module _ (stop_ok has_definition rebuilds : ℕ → Bool) (max_concurrent max_booting : ℕ) where
  -- `handleValidationComplete` of an instance of a run, to the end of what it starts: the test status,
  -- the stop, and, if that succeeds, the handling of the stopped instance.
  pub handle_validation_complete : ℕ → ℕ → Bool → List Run → List Run
  handle_validation_complete run_id instance_id tests_passed runs =
      let finish = λ (i : Instance).
        stop_instance stop_ok (with_test_status (if tests_passed then passed else test_failed) i) in
      let marked =
        update_run run_id
          (λ (r : Run). with_instances (update_instance instance_id finish r.instances) r) runs in
      if stop_ok instance_id
      then handle_instances_stopped has_definition rebuilds max_concurrent max_booting (run_id ∷ [])
          marked
      else marked
