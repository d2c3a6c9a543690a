-- ===== src/Validator/Loops/Kinds/Iterations.antt =====
-- The bound on the rounds of an accepted `for` loop.
use dokkimi.Prelude.{ℕ, suc, ◌<◌, ◌≡◌, ◌≢◌, ◌⊎◌, refl, inl, inr, true, arith}
use dokkimi.Prelude.Int.{ℤ, pos, negsuc}
use dokkimi.Json.{object, Fields, Unknown, undefined, known, number, get}
use dokkimi.Json.Numbers.{int}
use dokkimi.Json.Reads.{as_integer_sound}
use dokkimi.Report.{Message, clean}
use dokkimi.Validator.Loops.Kinds.{
  validate_for_loop, validate_for_range, validate_for_step, validate_for_count, max_iterations,
}
use dokkimi.Validator.Loops.Kinds.Counts.{
  Visits, StepOf, integer, difference, for_loop_parts, ascending_step, descending_step,
  ascending_count, descending_count, unstepped_count, unstepped_direction, rounds_up, rounds_down,
}

-- The rounds of a loop with the checks passed, by the step.
rounds_bounded :
    (from to step : ℤ) (k : ℕ) (u : Unknown) (ctx : Message)
    → StepOf u step
    → clean (validate_for_range u (integer from) (integer to) ctx) ≡ true
    → clean (validate_for_count u (integer from) (integer to) ctx) ≡ true
    → Visits from to step k
    → k < max_iterations
unfolding validate_for_range
rounds_bounded from to (pos s) k u ctx (inl e) range count v =
    let (positive, order) = ascending_step from to s ctx (ground arith) in
    let (n, d, parts) = difference from to order in
    let bound = ascending_count from to s n ctx positive d (ground arith) in
    omega (arith, rounds_up from to k s n positive parts v)
rounds_bounded from to (negsuc s) k u ctx (inl e) range count v =
    let (n, d, parts) = difference to from (descending_step from to s ctx (ground arith)) in
    let bound = descending_count from to s n ctx d (ground arith) in
    omega (arith, rounds_down from to k (suc s) n (omega arith) parts v)
rounds_bounded from to (pos s) k u ctx (inr (e, one)) range count v =
    let order = unstepped_direction from to ctx (ground arith) in
    let (n, d, parts) = difference from to order in
    let bound = unstepped_count from to n ctx d (ground arith) in
    omega (arith, rounds_up from to k 1 n (omega arith) parts (ground arith))
rounds_bounded from to (negsuc s) k u ctx (inr (e, one)) range count v = cc

-- A `for` loop that the check accepts runs at most 10,000 rounds: a round k, counted from 0, whose
-- value has not passed `to` has k below 10,000, whatever the sign of the step. A loop with no `step`
-- counts by 1.
pub for_loop_bounded :
    (fs : Fields) (ctx : Message) (from to step : ℤ) (k : ℕ)
    → clean (validate_for_loop (known (object fs)) ctx) ≡ true
    → get (object fs) "from" ≡ integer from
    → get (object fs) "to" ≡ integer to
    → StepOf (get (object fs) "step") step
    → Visits from to step k
    → k < max_iterations
for_loop_bounded fs ctx from to step k accepted f t s v =
    let (_, _, range, count, _) = for_loop_parts fs ctx accepted in
    rounds_bounded from to step k (get (object fs) "step") ctx s (ground arith) (ground arith) v

step_integer :
    (u from to : Unknown) (ctx : Message)
    → clean (validate_for_range u from to ctx) ≡ true
    → (u ≡ undefined) ⊎ ((step : ℤ) × (u ≡ integer step) × (step ≢ pos 0))
unfolding validate_for_range validate_for_step
step_integer undefined from to ctx h = inl refl
step_integer (known (number (int z))) from to ctx h = inr (z, refl, ground arith)
step_integer _ from to ctx h = cc

-- An accepted `for` loop is an object with integer ends and, if it has a step, an integer step that
-- is not zero.
pub for_loop_integers :
    (fs : Fields) (ctx : Message)
    → clean (validate_for_loop (known (object fs)) ctx) ≡ true
    → ((from : ℤ) × (get (object fs) "from" ≡ integer from))
      × ((to : ℤ) × (get (object fs) "to" ≡ integer to))
      × ((get (object fs) "step" ≡ undefined)
          ⊎ ((step : ℤ) × (get (object fs) "step" ≡ integer step) × (step ≢ pos 0)))
for_loop_integers fs ctx accepted =
    let (f, t, range, count, _) = for_loop_parts fs ctx accepted in
    (as_integer_sound _ f, as_integer_sound _ t, step_integer _ _ _ ctx range)
