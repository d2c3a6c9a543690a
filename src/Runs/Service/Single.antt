-- ===== src/Runs/Service/Single.antt =====
-- That at most one run is open, and how many runs a project keeps.
use dokkimi.Prelude.{
  ℕ, ◌+◌, ◌≤◌, max, ◌≡◌, ◌⊎◌, inl, inr, refl, Bool, true, false, ◌&&◌, not, Option, none, some,
  String, List, [], ◌∷◌, ◌++◌, arith, Bool-cases, Option-cases, keep, count_of, some_of, eqb, ap,
  subst, sym, ◌∙◌,
}
use dokkimi.Runs.Rows.{Run, cancelled, is_open, update_run}
use dokkimi.Runs.Cleanup.{in_project, stop_run, prepare_for_new_run, recover_stale_runs}
use dokkimi.Runs.Cleanup.Pruning.{
  open_count, prepare_for_new_run-open_count, stop_run-cancelled, prepare_for_new_run-bounded,
}
use dokkimi.Runs.Service.{
  new_run, conflict, created, create_run, stop_current_run, stop_found, first_run,
}

count_of-append :
    (p : Run → Bool) (xs ys : List Run) → count_of p (xs ++ ys) ≡ count_of p xs + count_of p ys
count_of-append p [] ys = omega arith
count_of-append p (x ∷ xs) ys = let next = count_of-append p xs ys in ground arith

some_of-none :
    (rs : List Run) → some_of (λ (r : Run). is_open r.status) rs ≡ false → open_count rs ≡ 0
some_of-none [] h = refl
some_of-none (r ∷ rs) h = let next = some_of-none rs in ground arith

some_of-one :
    (rs : List Run) → some_of (λ (r : Run). is_open r.status) rs ≡ true → 1 ≤ open_count rs
some_of-one [] h = cc
some_of-one (r ∷ rs) h = let next = some_of-one rs in ground arith

one_at_most : (p : Run → Bool) (r : Run) → count_of p (r ∷ []) ≤ 1
one_at_most p r = ground arith

module _ (stop_ok network_exists : ℕ → Bool) (newest_first : List Run → List Run)
    (max_run_history : ℕ) where
  -- `createRun` refuses, with the runs as the recovery leaves them, one of which is open; or no run was
  -- open after the recovery, and the created run, which is open, is the only open one.
  pub create_run_lem :
      (run_id : ℕ) (new_id : ℕ → ℕ) (now : ℕ) (names : List String) (path : Option String)
      (runs : List Run)
      → let recovered = recover_stale_runs stop_ok network_exists runs in
        let result =
          create_run stop_ok network_exists newest_first max_run_history run_id new_id now names
            path runs in
        ((result.1 ≡ conflict) × (result.0 ≡ recovered) × (1 ≤ open_count recovered))
        ⊎ ((run : Run) × (result.1 ≡ created run)
            × (is_open run.status ≡ true)
            × (open_count recovered ≡ 0)
            × (open_count result.0 ≡ 1))
  unfolding create_run
  create_run_lem run_id new_id now names path runs =
      let recovered = recover_stale_runs stop_ok network_exists runs in
      let prepared = prepare_for_new_run stop_ok newest_first max_run_history path recovered in
      let fewer =
        prepare_for_new_run-open_count stop_ok newest_first max_run_history path recovered in
      let run = new_run run_id new_id now names path in
      elim (Bool-cases (some_of (λ (r : Run). is_open r.status) recovered)) [
        | inl busy ↦ rw busy (inl (refl, refl, some_of-one recovered busy))
        | inr idle ↦
            let e = some_of-none recovered idle in
            let f = count_of-append (λ (r : Run). is_open r.status) prepared (run ∷ []) in
            rw idle (inr (run, refl, refl, e, omega (arith, fewer, e, f)))
      ]

  -- Where the database's ordering returns the rows it was given, a created run leaves at most max(2, maxRunHistory) runs of its project.
  pub create_run-bounded :
      (run_id : ℕ) (new_id : ℕ → ℕ) (now : ℕ) (names : List String) (path : Option String)
      (runs : List Run)
      → ((p : Run → Bool) (rs : List Run) → count_of p (newest_first rs) ≡ count_of p rs)
      → let result =
          create_run stop_ok network_exists newest_first max_run_history run_id new_id now names
            path runs in
        (result.1 ≡ conflict) ⊎ (count_of (in_project path) result.0 ≤ max 2 max_run_history)
  unfolding create_run
  create_run-bounded run_id new_id now names path runs same_rows =
      let recovered = recover_stale_runs stop_ok network_exists runs in
      let prepared = prepare_for_new_run stop_ok newest_first max_run_history path recovered in
      let bound =
        prepare_for_new_run-bounded stop_ok newest_first max_run_history path recovered same_rows in
      let run = new_run run_id new_id now names path in
      let f = count_of-append (in_project path) prepared (run ∷ []) in
      let one = one_at_most (in_project path) run in
      elim (Bool-cases (some_of (λ (r : Run). is_open r.status) recovered)) [
        | inl busy ↦ rw busy (inl refl)
        | inr idle ↦ rw idle (inr (omega (arith, bound, f, one)))
      ]

first_none : (p : Run → Bool) (rs : List Run) → first_run rs ≡ none → count_of p rs ≡ 0
unfolding first_run
first_none p [] h = refl
first_none p (r ∷ rs) h = cc

first_some :
    (p : Run → Bool) (rs : List Run) (r : Run)
    → first_run rs ≡ some r
    → p r ≡ true
    → 1 ≤ count_of p rs
unfolding first_run
first_some p [] r h e = cc
first_some p (x ∷ rs) r h e = let same : x ≡ r = cc in let first = ap p same ∙ e in ground arith

kept_open :
    (rs : List Run)
    → count_of (λ (r : Run). not (is_open r.status)) (keep (λ (r : Run). is_open r.status) rs) ≡ 0
kept_open [] = refl
kept_open (r ∷ rs) = let next = kept_open rs in ground arith

all_kept :
    (p : Run → Bool) (rs : List Run)
    → count_of (λ (r : Run). p r && is_open r.status) (keep (λ (r : Run). is_open r.status) rs)
      ≡ count_of (λ (r : Run). p r && is_open r.status) rs
all_kept p [] = refl
all_kept p (r ∷ rs) = let next = all_kept p rs in ground arith

update-open_count :
    (id : ℕ) (f : Run → Run) (rs : List Run)
    → ((r : Run) → is_open (f r).status ≡ false)
    → open_count (update_run id f rs) + count_of (λ (r : Run). eqb r.id id && is_open r.status) rs
      ≡ open_count rs
unfolding update_run
update-open_count id f [] closes = omega arith
update-open_count id f (r ∷ rs) closes =
    let next = update-open_count id f rs closes in
    let closed = closes r in
    elim (Bool-cases (eqb r.id id)) [
      | inl same ↦ rw same (rw closed (ground arith))
      | inr other ↦ rw other (ground arith)
    ]

-- Where the database's ordering returns the rows it was given and at most one run is open, no run is
-- open after the current run is stopped.
pub stop_current_run-open_count :
    (stop_ok : ℕ → Bool) (newest_first : List Run → List Run) (runs : List Run)
    → ((p : Run → Bool) (rs : List Run) → count_of p (newest_first rs) ≡ count_of p rs)
    → open_count runs ≤ 1
    → open_count (stop_current_run stop_ok newest_first runs).0 ≡ 0
unfolding stop_current_run stop_found
stop_current_run-open_count stop_ok newest_first runs same_rows one =
    let candidates = keep (λ (r : Run). is_open r.status) runs in
    let any = λ (r : Run). true && is_open r.status in
    elim (Option-cases (first_run (newest_first candidates))) [
      | inl e ↦
          let a = first_none any (newest_first candidates) e in
          let b = same_rows any candidates in
          let c = all_kept (λ r. true) runs in
          subst (λ o. open_count (stop_found stop_ok o runs).0 ≡ 0) (sym e) (omega (arith, a, b, c))
      | inr (r, e) ↦
          let p = λ (x : Run). eqb x.id r.id && is_open x.status in
          let closed = λ (x : Run). not (is_open x.status) in
          let a = kept_open runs in
          let b = same_rows closed candidates in
          let c =
            update-open_count r.id (stop_run stop_ok cancelled) runs
              (λ x. (stop_run-cancelled stop_ok x).0) in
          let d = same_rows p candidates in
          let f = all_kept (λ (x : Run). eqb x.id r.id) runs in
          elim (Bool-cases (is_open r.status)) [
            | inr wrong ↦
                let g = first_some closed (newest_first candidates) r e (rw wrong refl) in
                absurd (omega (arith, a, b, g))
            | inl right ↦
                let g = first_some p (newest_first candidates) r e (ground arith) in
                subst (λ o. open_count (stop_found stop_ok o runs).0 ≡ 0) (sym e)
                  (omega (arith, c, d, f, g, one))
          ]
    ]
