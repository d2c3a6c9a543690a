-- ===== src/Runs/Cleanup.antt =====
-- services/control-tower/src/runs/run-cleanup.service.ts, with `stopInstance` of
-- namespace-lifecycle.service.ts and `getMaxRunHistory` of shared/config/user-prefs.ts. `stop_ok` tells
-- whether the items are marked and the containers removed, `network_exists` is what Docker answers,
-- and `newest_first` is the database's `orderBy: { createdAt: 'desc' }`. A loop over rows in which each
-- pass writes its own row only is a map over the table.
pub mod Stops
pub mod Pruning
use dokkimi.Prelude.{
  ℕ, ◌-◌, max, String, Bool, true, false, ◌||◌, ◌&&◌, not, Option, none, some, List, [], ◌∷◌, map,
  eqb, if◌then◌else◌, keep, drop, ◌==◌,
}
use dokkimi.Prelude.Text.{is_empty}
use dokkimi.Runs.Rows.{
  member_id, InstanceStatus, pending, stopping, stopped, failed, RunStatus, run_failed, cancelled,
  Instance, Run, is_pending, is_live, is_terminal, is_open, with_status, with_instances,
  with_run_status,
}

-- The two maximums of the preferences, of which the project's own counts first.
pub get_max_run_history : Option ℕ → Option ℕ → ℕ
get_max_run_history prefs_value none = elim prefs_value [ none ↦ 2 | some value ↦ max 1 value ]
get_max_run_history prefs_value (some project_value) = max 1 project_value

-- `projectPath ? { projectPath } : {}`, as a filter.
unfoldable pub in_project : Option String → Run → Bool
in_project none r = true
in_project (some path) r =
    is_empty path || elim r.project_path [ none ↦ false | some p ↦ p == path ]

unfoldable pub run_ids : List Run → List ℕ
run_ids [] = []
run_ids (r ∷ rs) = r.id ∷ run_ids rs

pub has_live_containers : (ℕ → Bool) → List Instance → Bool
has_live_containers network_exists [] = false
has_live_containers network_exists (instance ∷ rest) =
    let next = has_live_containers network_exists rest in
    if is_pending instance.status
    then true
    else if is_live instance.status && network_exists instance.id
    then true
    else next

pub delete_runs : List ℕ → List Run → List Run
delete_runs ids runs = keep (λ (r : Run). not (member_id r.id ids)) runs

module _ (newest_first : List Run → List Run) (max_run_history : ℕ) where
  pub runs_to_delete : Option String → List Run → List Run
  runs_to_delete project_path runs =
      drop (max 1 (max_run_history - 1)) (
        newest_first (keep (λ (r : Run). not (is_open r.status) && in_project project_path r) runs))

module _ (stop_ok : ℕ → Bool) where
  -- `NamespaceLifecycleService.stopInstance`: STOPPING, and then STOPPED or FAILED.
  pub stop_instance : Instance → Instance
  stop_instance i =
      let marked = with_status stopping i in
      if stop_ok i.id then with_status stopped marked else with_status failed marked

  -- A pass of `stopInstances`; its tests read the instance as it was given.
  pub stop_row : Instance → Instance
  stop_row instance =
      let row = if is_live instance.status then stop_instance instance else instance in
      if is_pending instance.status || is_live instance.status then with_status failed row else row

  pub stop_instances : List Instance → List Instance
  stop_instances instances = map stop_row instances

  pub stop_run : RunStatus → Run → Run
  stop_run status r = with_run_status status (with_instances (stop_instances r.instances) r)

  pub recover_orphaned_runs : List Run → List Run
  recover_orphaned_runs runs =
      map (λ (r : Run). if is_open r.status then stop_run cancelled r else r) runs

  module _ (network_exists : ℕ → Bool) where
    pub recover_run : Run → Run
    recover_run r =
        if is_open r.status && not (has_live_containers network_exists r.instances)
        then stop_run run_failed r
        else r

    pub recover_stale_runs : List Run → List Run
    recover_stale_runs runs = map recover_run runs

  -- The open runs of the project are stopped.
  pub stop_active_runs : Option String → List Run → List Run
  stop_active_runs project_path runs =
      map
        (λ (r : Run).
          if is_open r.status && in_project project_path r then stop_run cancelled r else r)
        runs

  module _ (newest_first : List Run → List Run) (max_run_history : ℕ) where
    pub prepare_for_new_run : Option String → List Run → List Run
    prepare_for_new_run project_path runs =
        let stopped_runs = stop_active_runs project_path runs in
        delete_runs
          (run_ids (runs_to_delete newest_first max_run_history project_path stopped_runs))
          stopped_runs
