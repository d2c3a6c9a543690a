-- ===== src/Validator/Loops/Levels/Examples.antt =====
-- Loop bodies at concrete inputs.
use dokkimi.Prelude.{◌≡◌, ◌≤◌, ◌<◌, refl, true, arith, [], ◌∷◌}
use dokkimi.Json.{Value, object, array, nil, end, field}
use dokkimi.Report.{Message, text, clean}
use dokkimi.Validator.Loops.Levels.{
  test_level, rank, loop_body, validate_loop_body, validate_nested, validate_body_keys,
}
use dokkimi.Validator.Loops.Levels.Nesting.{
  Chain, stop, deeper, nesting-le-rank, validate_loop_body_fuel,
}

abbrev body_ctx : Message
body_ctx = text "tests[0].repeat" ∷ []

-- A test-level loop with a step-level loop and a block-level loop inside.
abbrev nested_body : Value
nested_body = object (
    field "steps" (array nil)
      (field "for" (object (field "repeat" (object (field "assertions" (array nil) end)) end)) end))

nested_accepted : clean (validate_loop_body nested_body body_ctx test_level) ≡ true
unfolding validate_loop_body loop_body validate_body_keys dokkimi.Json.keys dokkimi.Prelude.member
    validate_nested dokkimi.Json.get
nested_accepted = refl

nested-Chain : Chain nested_body 2
unfolding dokkimi.Prelude.member dokkimi.Json.get
nested-Chain = deeper "for" refl refl (deeper "repeat" refl refl stop)

nesting-le-rank_example : 2 ≤ rank test_level
nesting-le-rank_example =
    nesting-le-rank nested_body body_ctx test_level 2 nested_accepted nested-Chain

validate_loop_body_fuel_example :
    loop_body 7 nested_body body_ctx test_level ≡ validate_loop_body nested_body body_ctx test_level
validate_loop_body_fuel_example =
    validate_loop_body_fuel 7 nested_body body_ctx test_level (omega arith)
