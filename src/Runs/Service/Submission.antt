-- ===== src/Runs/Service/Submission.antt =====
-- services/control-tower/src/runs/runs.service.ts: `submitInstance` and `deleteAllRuns`, as far as the
-- rows of runs and instances go; the items' rows, the files of a definition and telemetry are left out.
use dokkimi.Prelude.{
  ℕ, ◌≡◌, refl, inl, inr, String, Bool, true, Option, none, some, List, [], ◌∷◌, arith, eqb,
  if◌then◌else◌, keep, Bool-cases, Option-cases, length, eqb_iff, ◌∙◌, sym, ap,
}
use dokkimi.Runs.Rows.{
  InstanceStatus, RunStatus, run_pending, run_running, Instance, Run, is_pending, is_open,
  with_run_status, with_instances, find_run, update_run,
}
use dokkimi.Runs.Cleanup.{stop_instances, in_project, run_ids}
use dokkimi.Runs.Cleanup.Pruning.{open_count}
use dokkimi.Runs.Service.{remove_run}

-- What `submitInstance` returns or throws.
pub data Submitted : Type 0 where
  run_not_found instance_not_found accepted : Submitted
  already : InstanceStatus → Submitted

-- `findUnique({ where: { id } })` among the instances of the run.
unfoldable pub find_instance : ℕ → List Instance → Option Instance
find_instance id [] = none
find_instance id (i ∷ is) = if eqb i.id id then some i else find_instance id is

-- `if (run.status === RunStatus.PENDING)`: the run becomes RUNNING.
abbrev pub begun : RunStatus → RunStatus
begun run_pending = run_running
begun s = s

abbrev pub begin_run : Run → Run
begin_run r = with_run_status (begun r.status) r

-- What is done with the instance that is found.
unfoldable pub submit_found : ℕ → Option Instance → List Run → List Run × Submitted
submit_found run_id none runs = (runs, instance_not_found)
submit_found run_id (some i) runs =
    if is_pending i.status
    then (update_run run_id begin_run runs, accepted)
    else (runs, already i.status)

unfoldable pub submit_to : ℕ → ℕ → Option Run → List Run → List Run × Submitted
unfolding submit_found find_instance
submit_to run_id instance_id none runs = (runs, run_not_found)
submit_to run_id instance_id (some run) runs =
    submit_found run_id (find_instance instance_id run.instances) runs

unfoldable pub submit_instance : ℕ → ℕ → List Run → List Run × Submitted
unfolding submit_to
submit_instance run_id instance_id runs = submit_to run_id instance_id (find_run run_id runs) runs

-- The loop over the runs that were found: each is stopped and removed.
unfoldable pub delete_each : (ℕ → Bool) → List Run → List Run → List Run
delete_each stop_ok [] runs = runs
delete_each stop_ok (run ∷ rest) runs = delete_each stop_ok rest (
    remove_run run.id
      (update_run run.id (λ (x : Run). with_instances (stop_instances stop_ok x.instances) x) runs))

-- `deleteAllRuns`: the rows that are left, and `deleted`.
unfoldable pub delete_all_runs : (ℕ → Bool) → Option String → List Run → List Run × ℕ
unfolding delete_each
delete_all_runs stop_ok project_path runs =
    let found = keep (in_project project_path) runs in
    (delete_each stop_ok found runs, length found)

begun-open : (s : RunStatus) → is_open (begun s) ≡ is_open s
begun-open run_pending = refl
begun-open _ = refl

update-open_count :
    (id : ℕ) (runs : List Run) → open_count (update_run id begin_run runs) ≡ open_count runs
unfolding update_run
update-open_count id [] = refl
update-open_count id (r ∷ rs) =
    let rest = update-open_count id rs in
    let same = begun-open r.status in
    elim (Bool-cases (eqb r.id id)) [ inl e ↦ ground arith | inr e ↦ ground arith ]

found-open_count :
    (run_id : ℕ) (i : Option Instance) (runs : List Run)
    → open_count (submit_found run_id i runs).0 ≡ open_count runs
unfolding submit_found
found-open_count run_id none runs = refl
found-open_count run_id (some i) runs = elim (Bool-cases (is_pending i.status)) [
  | inl e ↦ rw e (update-open_count run_id runs)
  | inr e ↦ rw e refl
]

-- A submission leaves as many runs open as there were, whatever it answers.
pub submit_instance-open_count :
    (run_id instance_id : ℕ) (runs : List Run)
    → open_count (submit_instance run_id instance_id runs).0 ≡ open_count runs
unfolding submit_instance submit_to
submit_instance-open_count run_id instance_id runs = elim (Option-cases (find_run run_id runs)) [
  | inl e ↦ rw e refl
  | inr (run, e) ↦ rw e (found-open_count run_id (find_instance instance_id run.instances) runs)
]

run_ids-update :
    (stop_ok : ℕ → Bool) (id : ℕ) (rs : List Run)
    → run_ids
        (update_run id (λ (x : Run). with_instances (stop_instances stop_ok x.instances) x) rs)
      ≡ run_ids rs
unfolding update_run run_ids
run_ids-update stop_ok id [] = refl
run_ids-update stop_ok id (r ∷ rs) =
    let rest = run_ids-update stop_ok id rs in
    elim (Bool-cases (eqb r.id id)) [ inl e ↦ ground arith | inr e ↦ ground arith ]

removed :
    (stop_ok : ℕ → Bool) (id : ℕ) (r : Run) (rs : List Run)
    → eqb r.id id ≡ true
    → run_ids (
        remove_run id (
          update_run id
            (λ (x : Run). with_instances (stop_instances stop_ok x.instances) x)
            (r ∷ rs)))
      ≡ run_ids rs
unfolding update_run remove_run
removed stop_ok id r rs e = rw (e, e) (run_ids-update stop_ok id rs)

delete_each-all :
    (stop_ok : ℕ → Bool) (xs ys : List Run)
    → run_ids xs ≡ run_ids ys
    → delete_each stop_ok xs ys ≡ []
unfolding delete_each run_ids
delete_each-all stop_ok [] [] h = refl
delete_each-all stop_ok [] (y ∷ ys) h = cc
delete_each-all stop_ok (x ∷ xs) [] h = cc
delete_each-all stop_ok (x ∷ xs) (y ∷ ys) h =
    let first : y.id ≡ x.id = ground arith in
    let rest : run_ids xs ≡ run_ids ys = ground arith in
    let same = removed stop_ok x.id y ys ((eqb_iff y.id x.id).1 first) in
    delete_each-all stop_ok xs _ (rest ∙ sym same)

all_found : (rs : List Run) → keep (in_project none) rs ≡ rs
unfolding in_project
all_found [] = refl
all_found (r ∷ rs) = ap (λ x. r ∷ x) (all_found rs)

-- Without a project, `deleteAllRuns` leaves no run.
pub delete_all_runs-none :
    (stop_ok : ℕ → Bool) (runs : List Run) → (delete_all_runs stop_ok none runs).0 ≡ []
unfolding delete_all_runs
delete_all_runs-none stop_ok runs = rw (all_found runs) (delete_each-all stop_ok runs runs refl)
