-- ===== src/Validator/Loops/Kinds/Examples.antt =====
-- Accepted `for` loops at concrete inputs.
use dokkimi.Prelude.{◌≡◌, ◌≢◌, ◌⊎◌, ◌<◌, inr, member, refl, true, arith, [], ◌∷◌}
use dokkimi.Prelude.Int.{ℤ, pos, ◌+ℤ◌, ◌-ℤ◌}
use dokkimi.Prelude.Text.{is_word_text}
use dokkimi.Json.{object, string, number, Fields, end, field, get, known, undefined, keys}
use dokkimi.Json.Numbers.{int}
use dokkimi.Report.{Message, text, clean, check_unknown_keys}
use dokkimi.Validator.Loops.Kinds.{
  max_iterations, validate_for_loop, validate_loop_fields, validate_for_range, validate_for_count,
  validate_for_direction,
}
use dokkimi.Validator.Loops.Kinds.Counts.{integer}
use dokkimi.Validator.Loops.Kinds.Iterations.{for_loop_bounded, for_loop_integers}

abbrev loop_ctx : Message
loop_ctx = text "steps[0].for" ∷ []

abbrev count_up : Fields
count_up =
    field "as" (string "i")
      (field "from" (number (int (pos 1))) (field "to" (number (int (pos 3))) end))

count_up_accepted : clean (validate_for_loop (known (object count_up)) loop_ctx) ≡ true
unfolding validate_for_loop validate_loop_fields validate_for_range validate_for_count
    check_unknown_keys keys member get validate_for_direction ◌+ℤ◌ ◌-ℤ◌ is_word_text
count_up_accepted = refl

for_loop_integers_example :
    ((from : ℤ) × (get (object count_up) "from" ≡ integer from))
    × ((to : ℤ) × (get (object count_up) "to" ≡ integer to))
    × ((get (object count_up) "step" ≡ undefined)
        ⊎ ((step : ℤ) × (get (object count_up) "step" ≡ integer step) × (step ≢ pos 0)))
for_loop_integers_example = for_loop_integers count_up loop_ctx count_up_accepted

-- The second round of the loop, which counts by 1.
for_loop_bounded_example : 2 < max_iterations
unfolding ◌+ℤ◌ get
for_loop_bounded_example =
    for_loop_bounded count_up loop_ctx (pos 1) (pos 3) (pos 1) 2 count_up_accepted refl refl
      (inr (refl, refl)) (omega arith)
