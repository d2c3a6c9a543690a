-- ===== src/Validator/Loops/Kinds/Counts.antt =====
-- How often an accepted `for` loop runs.
use dokkimi.Prelude.{ℕ, suc, ◌+◌, ◌-◌, ◌*◌, ◌/◌, ◌≤◌, ◌<◌, ◌≡◌, ◌⊎◌, true, arith, ◌++◌}
use dokkimi.Prelude.Int.{
  ℤ, pos, negsuc, pos_part, neg_part, ◌+ℤ◌, ◌-ℤ◌, ◌≤ℤ◌, floor_div, +ℤ_parts, -ℤ_parts,
}
use dokkimi.Prelude.Text.{is_present}
use dokkimi.Json.{number, object, Fields, Unknown, undefined, known, get, as_integer}
use dokkimi.Json.Numbers.{int}
use dokkimi.Report.{Message, clean}
use dokkimi.Report.Clean.{clean-append, clean-unknown_then}
use dokkimi.Validator.Loops.Kinds.{
  validate_for_loop, validate_for_range, validate_for_step, validate_for_direction,
  validate_for_count, validate_loop_fields, max_iterations, stepped_count,
}

-- The loop variable is still in range at round k, counted from 0: `from + k * step` has not passed
-- `to` in the direction of the step.
abbrev pub Visits : ℤ → ℤ → ℤ → ℕ → Type 0
Visits from to step k = elim step [
  | pos s ↦ from +ℤ pos (k * s) ≤ℤ to
  | negsuc s ↦ to ≤ℤ from -ℤ pos (k * suc s)
]

abbrev pub integer : ℤ → Unknown
integer z = known (number (int z))

-- Division against multiplication.
le-div : (k s n : ℕ) → 0 < s → k * s ≤ n → k ≤ n / s
le-div k s n p h = grind arith

-- b - a of integers in order.
pub difference :
    (a b : ℤ)
    → a ≤ℤ b
    → (n : ℕ) × (b -ℤ a ≡ pos n) × (pos_part b + neg_part a ≡ n + pos_part a + neg_part b)
unfolding ◌-ℤ◌
difference a b h = (pos_part b + neg_part a - (pos_part a + neg_part b), ground arith, omega arith)

pub ascending_step :
    (from to : ℤ) (s : ℕ) (ctx : Message)
    → clean (validate_for_step (integer (pos s)) (integer from) (integer to) ctx) ≡ true
    → (0 < s) × (from ≤ℤ to)
unfolding validate_for_step
ascending_step from to s ctx h = ground arith

pub descending_step :
    (from to : ℤ) (s : ℕ) (ctx : Message)
    → clean (validate_for_step (integer (negsuc s)) (integer from) (integer to) ctx) ≡ true
    → to ≤ℤ from
unfolding validate_for_step
descending_step from to s ctx h = ground arith

pub ascending_count :
    (from to : ℤ) (s n : ℕ) (ctx : Message)
    → 0 < s
    → to -ℤ from ≡ pos n
    → clean (validate_for_count (integer (pos s)) (integer from) (integer to) ctx) ≡ true
    → n / s < max_iterations
unfolding validate_for_count stepped_count ◌+ℤ◌ floor_div
ascending_count from to s n ctx p e h = ground arith

pub descending_count :
    (from to : ℤ) (s n : ℕ) (ctx : Message)
    → from -ℤ to ≡ pos n
    → clean (validate_for_count (integer (negsuc s)) (integer from) (integer to) ctx) ≡ true
    → n / suc s < max_iterations
unfolding validate_for_count stepped_count ◌+ℤ◌ floor_div
descending_count from to s n ctx e h = ground arith

pub unstepped_count :
    (from to : ℤ) (n : ℕ) (ctx : Message)
    → to -ℤ from ≡ pos n
    → clean (validate_for_count undefined (integer from) (integer to) ctx) ≡ true
    → n < max_iterations
unfolding validate_for_count ◌+ℤ◌
unstepped_count from to n ctx e h = ground arith

pub unstepped_direction :
    (from to : ℤ) (ctx : Message)
    → clean (validate_for_direction (integer from) (integer to) ctx) ≡ true
    → from ≤ℤ to
unfolding validate_for_direction
unstepped_direction from to ctx h = ground arith

-- The step of a loop: what is written, or 1.
abbrev pub StepOf : Unknown → ℤ → Type 0
StepOf u step = (u ≡ integer step) ⊎ ((u ≡ undefined) × (step ≡ pos 1))

-- `from + k * s ≤ to` bounds k by the quotient.
pub rounds_up :
    (from to : ℤ) (k s n : ℕ)
    → 0 < s
    → pos_part to + neg_part from ≡ n + pos_part from + neg_part to
    → from +ℤ pos (k * s) ≤ℤ to
    → k ≤ n / s
rounds_up from to k s n p e v = le-div k s n p (omega (arith, +ℤ_parts from (pos (k * s))))

pub rounds_down :
    (from to : ℤ) (k s n : ℕ)
    → 0 < s
    → pos_part from + neg_part to ≡ n + pos_part to + neg_part from
    → to ≤ℤ from -ℤ pos (k * s)
    → k ≤ n / s
rounds_down from to k s n p e v = le-div k s n p (omega (arith, -ℤ_parts from (pos (k * s))))

-- What an accepted `for` loop leaves of the statements of its check.
pub for_loop_parts :
    (fs : Fields) (ctx : Message)
    → clean (validate_for_loop (known (object fs)) ctx) ≡ true
    → let from = get (object fs) "from" in
      let to = get (object fs) "to" in
      let step = get (object fs) "step" in
      (is_present (as_integer from) ≡ true)
      × (is_present (as_integer to) ≡ true)
      × (clean (validate_for_range step from to ctx) ≡ true)
      × (clean (validate_for_count step from to ctx) ≡ true)
      × (clean (validate_loop_fields (object fs) ctx) ≡ true)
unfolding validate_for_loop
for_loop_parts fs ctx h =
    let from = get (object fs) "from" in
    let to = get (object fs) "to" in
    let range = validate_for_range (get (object fs) "step") from to ctx in
    let count = validate_for_count (get (object fs) "step") from to ctx in
    let fields = validate_loop_fields (object fs) ctx in
    let checked = rw clean-unknown_then at h in
    ground (arith, clean-append range (count ++ fields), clean-append count fields)
