-- ===== src/Runs/Rows.antt =====
-- shared/prisma/sqlite/schema.prisma, as services/control-tower reads and writes it: the rows of runs
-- and of their instances. A table is a list of rows; `id` is the primary key. Ids and times are
-- natural numbers, and the columns that no operation here reads are left out.
use dokkimi.Prelude.{
  ℕ, String, Bool, true, false, ◌||◌, Option, none, some, List, [], ◌∷◌, eqb, if◌then◌else◌,
}

pub data InstanceStatus : Type 0 where
  pending starting running stopping terminating stopped failed : InstanceStatus

pub data TestStatus : Type 0 where
  test_pending test_running passed test_failed test_cancelled : TestStatus

pub data RunStatus : Type 0 where
  run_pending run_running completed run_failed cancelled : RunStatus

pub record Instance : Type 0 where
  pub id : ℕ
  pub name : String
  pub status : InstanceStatus
  pub test_status : Option TestStatus

pub record Run : Type 0 where
  pub id : ℕ
  pub status : RunStatus
  pub project_path : Option String
  pub created_at : ℕ
  pub instances : List Instance

abbrev pub is_pending : InstanceStatus → Bool
is_pending pending = true
is_pending _ = false

abbrev pub is_starting : InstanceStatus → Bool
is_starting starting = true
is_starting _ = false

-- STARTING, RUNNING, STOPPING or TERMINATING.
abbrev pub is_active : InstanceStatus → Bool
is_active starting = true
is_active running = true
is_active stopping = true
is_active terminating = true
is_active _ = false

-- STARTING or RUNNING.
abbrev pub is_live : InstanceStatus → Bool
is_live starting = true
is_live running = true
is_live _ = false

-- STOPPED or FAILED.
abbrev pub is_terminal : InstanceStatus → Bool
is_terminal stopped = true
is_terminal failed = true
is_terminal _ = false

-- A run that is PENDING or RUNNING.
abbrev pub is_open : RunStatus → Bool
is_open run_pending = true
is_open run_running = true
is_open _ = false

abbrev pub with_status : InstanceStatus → Instance → Instance
with_status s i = record { id = i.id; name = i.name; status = s; test_status = i.test_status }

abbrev pub with_instances : List Instance → Run → Run
with_instances is r = record {
  id = r.id;
  status = r.status;
  project_path = r.project_path;
  created_at = r.created_at;
  instances = is;
}

abbrev pub with_run_status : RunStatus → Run → Run
with_run_status s r = record {
  id = r.id;
  status = s;
  project_path = r.project_path;
  created_at = r.created_at;
  instances = r.instances;
}

-- `prisma.run.findUnique({ where: { id } })`.
unfoldable pub find_run : ℕ → List Run → Option Run
find_run id [] = none
find_run id (r ∷ rs) = if eqb r.id id then some r else find_run id rs

-- What an operation that reads the run of this id writes back to the row of this id.
unfoldable pub update_run : ℕ → (Run → Run) → List Run → List Run
update_run id f [] = []
update_run id f (r ∷ rs) = (if eqb r.id id then f r else r) ∷ update_run id f rs

-- `ids.includes(id)`.
unfoldable pub member_id : ℕ → List ℕ → Bool
member_id id [] = false
member_id id (x ∷ xs) = eqb x id || member_id id xs
