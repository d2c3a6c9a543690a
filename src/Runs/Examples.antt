-- ===== src/Runs/Examples.antt =====
-- The operations on runs at concrete rows.
use dokkimi.Prelude.{
  ℕ, ◌+◌, ◌-◌, ◌≤◌, max, ◌≡◌, ◌↔◌, ◌⊎◌, refl, arith, Bool, true, Option, none, some, List, [], ◌∷◌,
  All, length, count_of,
}
use dokkimi.Runs.Rows.{
  InstanceStatus, pending, running, TestStatus, run_running, run_failed, completed, Instance, Run,
  is_open,
}
use dokkimi.Runs.Scheduler.{
  active_count, starting_count, deploy_instances, check_run, handle_instances_stopped,
}
use dokkimi.Runs.Scheduler.Limits.{deploy_instances-within}
use dokkimi.Runs.Scheduler.Progress.{Keyed, Settled, Broken, deploy_instances_progress}
use dokkimi.Runs.Scheduler.Completion.{Passing, Finished, check_run_lem}
use dokkimi.Runs.Scheduler.Changes.{
  AllStarted, AllKept, deploy_instances-AllStarted, handle_instances_stopped-AllKept,
}
use dokkimi.Runs.Cleanup.{in_project, stop_instances, recover_stale_runs, prepare_for_new_run}
use dokkimi.Runs.Cleanup.Stops.{
  AllStopped, Running, stop_instances-AllStopped, recover_stale_runs-Running,
}
use dokkimi.Runs.Cleanup.Pruning.{open_count, prepare_for_new_run-bounded}
use dokkimi.Runs.Service.{Created, conflict, created, create_run, stop_current_run}
use dokkimi.Runs.Service.Single.{create_run_lem, create_run-bounded, stop_current_run-open_count}

abbrev always : ℕ → Bool
always id = true

abbrev row : ℕ → InstanceStatus → Option TestStatus → Instance
row id status test_status = record {
  id = id;
  name = "api-tests";
  status = status;
  test_status = test_status;
}

abbrev three_rows : List Instance
three_rows = row 1 running none ∷ row 2 pending none ∷ row 3 pending none ∷ []

abbrev one_run : Run
one_run = record {
  id = 7;
  status = run_running;
  project_path = some "/work/shop";
  created_at = 100;
  instances = three_rows;
}

abbrev as_given : List Run → List Run
as_given runs = runs

three_rows-Keyed : Keyed three_rows
three_rows-Keyed = ((refl, (refl, tt)), ((refl, tt), (tt, tt)))

deploy_instances-within_example :
    ((deploy_instances always always 2 1 three_rows).0 ≡ three_rows)
      × ((deploy_instances always always 2 1 three_rows).1 ≡ [])
    ⊎ ((active_count (deploy_instances always always 2 1 three_rows).0 ≤ 2)
        × (starting_count (deploy_instances always always 2 1 three_rows).0 ≤ 1)
        × (active_count (deploy_instances always always 2 1 three_rows).0
            ≡ active_count three_rows + length (deploy_instances always always 2 1 three_rows).1))
deploy_instances-within_example = deploy_instances-within always always 2 1 three_rows

deploy_instances_progress_example :
    (2 ≤ active_count (deploy_instances always always 2 1 three_rows).0)
    ⊎ ((1 ≤ starting_count (deploy_instances always always 2 1 three_rows).0)
        ⊎ (All (Settled always) (deploy_instances always always 2 1 three_rows).0
            ⊎ Broken always always (deploy_instances always always 2 1 three_rows).1))
deploy_instances_progress_example =
    deploy_instances_progress always always 2 1 three_rows three_rows-Keyed

deploy_instances-AllStarted_example :
    AllStarted always three_rows (deploy_instances always always 2 1 three_rows).0
deploy_instances-AllStarted_example = deploy_instances-AllStarted always always 2 1 three_rows

handle_instances_stopped-AllKept_example :
    AllKept (one_run ∷ []) (handle_instances_stopped always always 2 1 (7 ∷ 7 ∷ []) (one_run ∷ []))
handle_instances_stopped-AllKept_example =
    handle_instances_stopped-AllKept always always 2 1 (7 ∷ 7 ∷ []) (one_run ∷ [])

check_run_lem_example :
    (((check_run always one_run).status ≡ completed)
      ↔ All (λ (i : Instance). Passing i.status i.test_status) three_rows)
    × (((check_run always one_run).status ≡ run_failed) ↔ (
        All (Finished always) three_rows
        × ¬ All (λ (i : Instance). Passing i.status i.test_status) three_rows))
    × (All (Finished always) three_rows ⊎ (check_run always one_run ≡ one_run))
check_run_lem_example = check_run_lem always one_run refl

stop_instances-AllStopped_example : AllStopped always three_rows (stop_instances always three_rows)
stop_instances-AllStopped_example = stop_instances-AllStopped always three_rows

recover_stale_runs-Running_example :
    All (Running always always) (recover_stale_runs always always (one_run ∷ []))
recover_stale_runs-Running_example = recover_stale_runs-Running always always (one_run ∷ [])

prepare_for_new_run-bounded_example :
    count_of
      (in_project (some "/work/shop"))
      (prepare_for_new_run always as_given 2 (some "/work/shop") (one_run ∷ one_run ∷ []))
    ≤ max 1 (2 - 1)
prepare_for_new_run-bounded_example =
    prepare_for_new_run-bounded always as_given 2 (some "/work/shop") (one_run ∷ one_run ∷ [])
      (λ p rs. refl)

abbrev made : List Run × Created
made = create_run always always as_given 2 8 (λ i. i) 200 ("web-tests" ∷ []) (some "/work/shop") []

create_run_lem_example :
    ((made.1 ≡ conflict)
      × (made.0 ≡ recover_stale_runs always always [])
      × (1 ≤ open_count (recover_stale_runs always always [])))
    ⊎ ((run : Run) × (made.1 ≡ created run)
        × (is_open run.status ≡ true)
        × (open_count (recover_stale_runs always always []) ≡ 0)
        × (open_count made.0 ≡ 1))
create_run_lem_example =
    create_run_lem always always as_given 2 8 (λ i. i) 200 ("web-tests" ∷ []) (some "/work/shop") []

create_run-bounded_example :
    (made.1 ≡ conflict) ⊎ (count_of (in_project (some "/work/shop")) made.0 ≤ max 2 2)
create_run-bounded_example =
    create_run-bounded always always as_given 2 8 (λ i. i) 200 ("web-tests" ∷ [])
      (some "/work/shop") [] (λ p rs. refl)

stop_current_run-open_count_example :
    open_count (stop_current_run always as_given (one_run ∷ [])).0 ≡ 0
stop_current_run-open_count_example =
    stop_current_run-open_count always as_given (one_run ∷ []) (λ p rs. refl) (omega arith)
