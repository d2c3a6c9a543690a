-- ===== src/Runs/Scheduler/Completion.antt =====
-- When a run is completed, and how.
use dokkimi.Prelude.{
  ◌≡◌, ◌≢◌, ◌↔◌, ◌⊎◌, inl, inr, refl, ℕ, Bool, true, false, ◌&&◌, ◌||◌, not, Option, none, some,
  List, [], ◌∷◌, arith, All, sym, if◌then◌else◌,
}
use dokkimi.Prelude.Text.{is_present}
use dokkimi.Runs.Rows.{
  InstanceStatus, stopped, failed, TestStatus, passed, test_failed, RunStatus, run_pending,
  run_running, completed, run_failed, Instance, Run, is_pending, is_open, is_terminal,
  with_run_status,
}
use dokkimi.Runs.Scheduler.{
  is_failed, is_stopped, is_test_status, is_done, counts_as_failed, completion_loop, check_run,
}

-- The instances that make a run COMPLETED: their tests passed and they did not fail, or they stopped
-- with a test status that is no failure.
abbrev pub Passing : InstanceStatus → Option TestStatus → Type 0
Passing failed t = ⊥
Passing s none = ⊥
Passing s (some test_failed) = ⊥
Passing s (some passed) = Unit
Passing stopped (some t) = Unit
Passing s (some t) = ⊥

Passing-iff :
    (s : InstanceStatus) (t : Option TestStatus)
    → ((is_terminal s || is_test_status passed t || is_test_status test_failed t)
          && not
              (is_failed s || is_test_status test_failed t || (is_stopped s && not (is_present t)))
        ≡ true)
      ↔ Passing s t
unfolding is_test_status is_failed is_stopped
Passing-iff failed t = (λ h. cc, λ p. elim p [ ])
Passing-iff stopped none = (λ h. cc, λ p. elim p [ ])
Passing-iff stopped (some test_failed) = (λ h. cc, λ p. elim p [ ])
Passing-iff stopped (some _) = (λ h. tt, λ p. refl)
Passing-iff _ none = (λ h. cc, λ p. elim p [ ])
Passing-iff _ (some passed) = (λ h. tt, λ p. refl)
Passing-iff _ (some _) = (λ h. cc, λ p. elim p [ ])

row_iff :
    (i : Instance) → (is_done i && not (counts_as_failed i) ≡ true) ↔ Passing i.status i.test_status
unfolding is_done counts_as_failed
row_iff i = Passing-iff i.status i.test_status

open_status : (s : RunStatus) → is_open s ≡ true → (s ≢ completed) × (s ≢ run_failed)
open_status run_pending h = ((λ e. cc), (λ e. cc))
open_status run_running h = ((λ e. cc), (λ e. cc))
open_status _ h = cc

differ : run_failed ≢ completed
differ e = cc

not_both : true ≢ false
not_both e = cc

-- The branches at the end of `checkRunCompletion`.
outcome_lem :
    (r : Run) (all_done any_failed : Bool) (F P : Type 0)
    → is_open r.status ≡ true
    → (all_done ≡ true) ↔ F
    → (all_done ≡ true → (any_failed ≡ false) ↔ P)
    → (P → F)
    → let after =
        if is_open r.status && all_done
        then with_run_status (if any_failed then run_failed else completed) r
        else r in
      ((after.status ≡ completed) ↔ P)
      × ((after.status ≡ run_failed) ↔ (F × ¬ P))
      × (F ⊎ (after ≡ r))
outcome_lem r false any_failed F P is_open_run over passing finished =
    let (a, b) = open_status r.status is_open_run in
    rw is_open_run (
      ((λ e. absurd (a e)), (λ p. absurd (cc (over.1 (finished p))))),
      ((λ e. absurd (b e)), (λ p. absurd (cc (over.1 p.0)))),
      inr refl,
    )
outcome_lem r true true F P is_open_run over passing finished =
    let fails : ¬ P = λ p. not_both ((passing refl).1 p) in
    rw is_open_run (
      ((λ e. absurd (differ e)), (λ p. absurd (fails p))),
      ((λ e. (over.0 refl, fails)), (λ p. refl)),
      inl (over.0 refl),
    )
outcome_lem r true false F P is_open_run over passing finished =
    let pass = (passing refl).0 refl in
    rw is_open_run (
      ((λ e. pass), (λ p. refl)),
      ((λ e. absurd (differ (sym e))), (λ p. absurd (p.1 pass))),
      inl (over.0 refl),
    )

module _ (has_definition : ℕ → Bool) where
  -- The instance is done, or waits for a definition that was never submitted.
  abbrev pub Finished : Instance → Type 0
  Finished i = (is_done i ≡ true) ⊎ ((is_pending i.status ≡ true) × (has_definition i.id ≡ false))

  loop-done_iff :
      (any_failed : Bool) (is : List Instance)
      → ((completion_loop has_definition any_failed is).0 ≡ true) ↔ All Finished is
  unfolding completion_loop
  loop-done_iff any_failed [] = (λ h. tt, λ h. refl)
  loop-done_iff any_failed (i ∷ is) =
      let next = loop-done_iff (if is_done i then any_failed || counts_as_failed i else true) is in
      ground arith

  loop-Passing :
      (any_failed : Bool) (is : List Instance)
      → (completion_loop has_definition any_failed is).0 ≡ true
      → ((completion_loop has_definition any_failed is).1 ≡ false)
        ↔ ((any_failed ≡ false) × All (λ (i : Instance). Passing i.status i.test_status) is)
  unfolding completion_loop
  loop-Passing any_failed [] h = (λ e. (e, tt), λ p. p.0)
  loop-Passing any_failed (i ∷ is) h =
      let next = loop-Passing (if is_done i then any_failed || counts_as_failed i else true) is in
      let first = row_iff i in
      let continued : (completion_loop has_definition
            (if is_done i then any_failed || counts_as_failed i else true) is).0
          ≡ true =
        ground arith in
      let rest = next continued in ground arith

  All-Passing-Finished :
      (is : List Instance)
      → All (λ (i : Instance). Passing i.status i.test_status) is
      → All Finished is
  All-Passing-Finished [] p = tt
  All-Passing-Finished (i ∷ is) (p, ps) =
      let row = row_iff i in (ground arith, All-Passing-Finished is ps)

  -- A check of an open run makes it COMPLETED exactly if every instance passes, FAILED exactly if every
  -- instance is finished and not all pass, and otherwise leaves the run as it is.
  pub check_run_lem :
      (r : Run)
      → is_open r.status ≡ true
      → (((check_run has_definition r).status ≡ completed)
          ↔ All (λ (i : Instance). Passing i.status i.test_status) r.instances)
        × (((check_run has_definition r).status ≡ run_failed) ↔ (
            All Finished r.instances
            × ¬ All (λ (i : Instance). Passing i.status i.test_status) r.instances))
        × (All Finished r.instances ⊎ (check_run has_definition r ≡ r))
  unfolding check_run
  check_run_lem r is_open_run =
      let over = loop-done_iff false r.instances in
      let passing = loop-Passing false r.instances in
      outcome_lem r (completion_loop has_definition false r.instances).0
        (completion_loop has_definition false r.instances).1 (All Finished r.instances)
        (All (λ (i : Instance). Passing i.status i.test_status) r.instances) is_open_run over
        (λ e. ((λ f. ((passing e).0 f).1), (λ p. (passing e).1 (refl, p))))
        (All-Passing-Finished r.instances)
