-- ===== src/Runs/Races/Examples.antt =====
-- Callers that race at concrete rows.
use dokkimi.Prelude.{ℕ, ◌≡◌, refl, Bool, true, false, List, [], ◌∷◌, none, All}
use dokkimi.Runs.Rows.{Instance, pending, starting, InstanceStatus}
use dokkimi.Runs.Scheduler.{claim, active_count}
use dokkimi.Runs.Races.{World, world, caller, enter, try_claim, Steps, done, next}
use dokkimi.Runs.Races.Dispatch.{Dispatches, DistinctIds}
use dokkimi.Runs.Races.Refinement.{board, pending_at, Steps-refine, Steps-once}

abbrev row : ℕ → InstanceStatus → Instance
row id s = record { id = id; name = "shop"; status = s; test_status = none }

abbrev all_defined : ℕ → Bool
all_defined id = true

abbrev two_pending : List Instance
two_pending = row 1 pending ∷ row 2 pending ∷ []

-- With room for one instance, two callers that read the rows before either claims start two.
abbrev both_starting : World
both_starting =
    world (row 1 starting ∷ row 2 starting ∷ []) (caller 1 1 [] ∷ caller 1 1 (2 ∷ []) ∷ [])
      (2 ∷ 1 ∷ [])

race : Steps all_defined 1 1 (world two_pending [] []) both_starting
unfolding claim dokkimi.Runs.Scheduler.slots_available
race =
    next
      (next
        (next (next (next done (enter 0 refl)) (enter 0 refl))
          (try_claim (caller 1 0 (1 ∷ 2 ∷ []) ∷ []) [] 1 0 1 (2 ∷ []) refl refl))
        (try_claim [] (caller 1 1 (2 ∷ []) ∷ []) 1 0 1 (2 ∷ []) refl refl))
      (try_claim [] (caller 1 1 (2 ∷ []) ∷ []) 1 0 2 [] refl refl)

over_the_limit : active_count both_starting.rows ≡ 2
over_the_limit = refl

Steps-refine_example : Dispatches (board (world two_pending [] [])) (board both_starting)
Steps-refine_example = Steps-refine all_defined 1 1 race

Steps-once_example :
    DistinctIds both_starting.log
    × All (λ (x : ℕ). pending_at both_starting.rows x ≡ false) both_starting.log
Steps-once_example = Steps-once all_defined 1 1 two_pending both_starting race
