-- ===== src/Runs/Cleanup/Pruning.antt =====
-- How many runs of a project the preparation of a new run leaves.
use dokkimi.Prelude.{
  ℕ, zero, suc, ◌-◌, ◌≤◌, max, ◌≡◌, inl, inr, refl, Bool, false, ◌&&◌, not, Option, String, List,
  [], ◌∷◌, arith, All, Bool-cases, keep, drop, count_of,
}
use dokkimi.Runs.Rows.{member_id, Run, cancelled, is_open}
use dokkimi.Runs.Cleanup.{
  in_project, run_ids, delete_runs, runs_to_delete, stop_run, stop_active_runs, prepare_for_new_run,
}

pub count_of-keep :
    (p q : Run → Bool) (xs : List Run) → count_of p (keep q xs) ≡ count_of (λ x. q x && p x) xs
count_of-keep p q [] = refl
count_of-keep p q (x ∷ xs) = let next = count_of-keep p q xs in ground arith

count_of-same :
    (p q : Run → Bool) (xs : List Run) → All (λ x. p x ≡ q x) xs → count_of p xs ≡ count_of q xs
count_of-same p q [] h = refl
count_of-same p q (x ∷ xs) (e, h) = let next = count_of-same p q xs h in ground arith

pub count_of-none : (p : Run → Bool) (xs : List Run) → All (λ x. p x ≡ false) xs → count_of p xs ≡ 0
count_of-none p [] h = refl
count_of-none p (x ∷ xs) (e, h) = let next = count_of-none p xs h in ground arith

count_of-drop :
    (p : Run → Bool) (k : ℕ) (xs : List Run)
    → All (λ x. p x ≡ false) (drop k xs)
    → count_of p xs ≤ k
count_of-drop p zero xs h = let none_left = count_of-none p xs h in omega (arith, none_left)
count_of-drop p (suc k) [] h = omega arith
count_of-drop p (suc k) (x ∷ xs) h = let next = count_of-drop p k xs h in ground arith

kept_out :
    (id : ℕ) (ids : List ℕ) (xs : List Run)
    → All (λ (x : Run). not (member_id x.id ids) ≡ false) xs
    → All (λ (x : Run). not (member_id x.id (id ∷ ids)) ≡ false) xs
unfolding member_id
kept_out id ids [] h = tt
kept_out id ids (x ∷ xs) (e, h) = (ground arith, kept_out id ids xs h)

All-deleted : (xs : List Run) → All (λ (x : Run). not (member_id x.id (run_ids xs)) ≡ false) xs
unfolding run_ids member_id
All-deleted [] = tt
All-deleted (x ∷ xs) = (ground arith, kept_out x.id (run_ids xs) xs (All-deleted xs))

-- After the stop, a run of the project is closed.
stopped-closed :
    (stop_ok : ℕ → Bool) (project_path : Option String) (keeps : Run → Bool) (runs : List Run)
    → All
        (λ (r : Run).
          keeps r && in_project project_path r
          ≡ (not (is_open r.status) && in_project project_path r) && keeps r)
        (stop_active_runs stop_ok project_path runs)
unfolding stop_active_runs stop_run
stopped-closed stop_ok project_path keeps [] = tt
stopped-closed stop_ok project_path keeps (r ∷ rs) =
    let rest = stopped-closed stop_ok project_path keeps rs in
    elim (Bool-cases (is_open r.status && in_project project_path r)) [
      | inl stops ↦ rw stops (ground arith, rest)
      | inr stays ↦ rw stays (ground arith, rest)
    ]

module _ (stop_ok : ℕ → Bool) (newest_first : List Run → List Run) where
  -- Where the database's ordering returns the rows it was given, the preparation of a new run leaves
  -- at most max(1, maxRunHistory - 1) runs of the project.
  pub prepare_for_new_run-bounded :
      (max_run_history : ℕ) (project_path : Option String) (runs : List Run)
      → ((p : Run → Bool) (rs : List Run) → count_of p (newest_first rs) ≡ count_of p rs)
      → count_of
          (in_project project_path)
          (prepare_for_new_run stop_ok newest_first max_run_history project_path runs)
        ≤ max 1 (max_run_history - 1)
  unfolding prepare_for_new_run delete_runs runs_to_delete
  prepare_for_new_run-bounded max_run_history project_path runs same_rows =
      let k = max 1 (max_run_history - 1) in
      let rows = stop_active_runs stop_ok project_path runs in
      let closed = λ (r : Run). not (is_open r.status) && in_project project_path r in
      let sorted = newest_first (keep closed rows) in
      let keeps = λ (r : Run). not (member_id r.id (run_ids (drop k sorted))) in
      let a = count_of-keep (in_project project_path) keeps rows in
      let b =
        count_of-same (λ r. keeps r && in_project project_path r) (λ r. closed r && keeps r) rows
          (stopped-closed stop_ok project_path keeps runs) in
      let c = count_of-keep keeps closed rows in
      let d = same_rows keeps (keep closed rows) in
      let e = count_of-drop keeps k sorted (All-deleted (drop k sorted)) in
      omega (arith, a, b, c, d, e)

pub stop_run-cancelled :
    (stop_ok : ℕ → Bool) (r : Run)
    → (is_open (stop_run stop_ok cancelled r).status ≡ false)
      × ((stop_run stop_ok cancelled r).id ≡ r.id)
unfolding stop_run
stop_run-cancelled stop_ok r = (refl, refl)

abbrev pub open_count : List Run → ℕ
open_count rs = count_of (λ (r : Run). is_open r.status) rs

keep-open_count : (q : Run → Bool) (rs : List Run) → open_count (keep q rs) ≤ open_count rs
keep-open_count q [] = omega arith
keep-open_count q (r ∷ rs) = let next = keep-open_count q rs in ground arith

stopped-open_count :
    (stop_ok : ℕ → Bool) (project_path : Option String) (rs : List Run)
    → open_count (stop_active_runs stop_ok project_path rs) ≤ open_count rs
unfolding stop_active_runs stop_run
stopped-open_count stop_ok project_path [] = omega arith
stopped-open_count stop_ok project_path (r ∷ rs) =
    let next = stopped-open_count stop_ok project_path rs in
    elim (Bool-cases (is_open r.status && in_project project_path r)) [
      | inl stops ↦ rw stops (ground arith)
      | inr stays ↦ rw stays (ground arith)
    ]

pub prepare_for_new_run-open_count :
    (stop_ok : ℕ → Bool) (newest_first : List Run → List Run) (max_run_history : ℕ)
    (project_path : Option String) (runs : List Run)
    → open_count (prepare_for_new_run stop_ok newest_first max_run_history project_path runs)
      ≤ open_count runs
unfolding prepare_for_new_run delete_runs
prepare_for_new_run-open_count stop_ok newest_first h path runs =
    let rows = stop_active_runs stop_ok path runs in
    let a = stopped-open_count stop_ok path runs in
    let b =
      keep-open_count
        (λ (r : Run). not (member_id r.id (run_ids (runs_to_delete newest_first h path rows))))
        rows in
    omega (arith, a, b)
