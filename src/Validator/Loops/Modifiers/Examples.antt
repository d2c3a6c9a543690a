-- ===== src/Validator/Loops/Modifiers/Examples.antt =====
-- A loop modifier at a concrete input.
use dokkimi.Prelude.{◌≡◌, refl, true, [], ◌∷◌}
use dokkimi.Prelude.Int.{pos}
use dokkimi.Json.{Value, object, array, string, number, nil, end, field}
use dokkimi.Json.Numbers.{int}
use dokkimi.Report.{Message, text, clean}
use dokkimi.Validator.Loops.Levels.{step_level}
use dokkimi.Validator.Loops.Modifiers.{validate_loop_modifiers}
use dokkimi.Validator.Loops.Modifiers.Bodies.{LoopForm, validate_loop_modifiers_sound}

abbrev step_ctx : Message
step_ctx = text "steps[0]" ∷ []

abbrev repeating : Value
repeating = object (
    field "repeat"
      (object (
        field "as" (string "i")
          (field "count" (number (int (pos 3))) (field "action" (object end) end))))
      end)

repeating_accepted : clean (validate_loop_modifiers repeating step_ctx true step_level).0 ≡ true
unfolding validate_loop_modifiers dokkimi.Validator.Loops.Modifiers.validate_present
    dokkimi.Validator.Loops.Modifiers.present_modifiers dokkimi.Json.get
    dokkimi.Validator.Loops.Modifiers.validate_modifier
    dokkimi.Validator.Loops.Kinds.validate_repeat_loop dokkimi.Report.check_unknown_keys
    dokkimi.Json.keys dokkimi.Prelude.member dokkimi.Validator.Loops.Kinds.validate_loop_fields
    dokkimi.Prelude.Text.is_word_text dokkimi.Validator.Loops.Modifiers.validate_modifier_body
    dokkimi.Validator.Loops.Levels.validate_loop_body dokkimi.Validator.Loops.Levels.loop_body
    dokkimi.Validator.Loops.Levels.validate_body_keys dokkimi.Validator.Loops.Levels.validate_nested
repeating_accepted = refl

validate_loop_modifiers_sound_example : LoopForm step_level repeating
validate_loop_modifiers_sound_example =
    validate_loop_modifiers_sound repeating step_ctx true step_level repeating_accepted
