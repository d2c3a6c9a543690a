-- ===== src/Validator/Blocks/Examples.antt =====
-- An assertion block at a concrete input.
use dokkimi.Prelude.{◌≡◌, refl, true, Bool, String, [], ◌∷◌}
use dokkimi.Json.{Value, object, array, string, number, nil, cons, end, field}
use dokkimi.Report.{Message, text, clean}
use dokkimi.Validator.Blocks.{validate_assertion_block}
use dokkimi.Validator.Blocks.Sound.{IsBlock, validate_assertion_block_sound}

abbrev block_ctx : Message
block_ctx = text "steps[0].assertions[0]" ∷ []

abbrev accepts : String → Bool
accepts s = true

abbrev block : Value
block = object (
    field "assertions"
      (array (
        cons
          (object
            (field "path" (string "$.response.status") (field "operator" (string "exists") end)))
          nil))
      (field "extract" (object (field "id" (string "$.response.body.id") end)) end))

block_accepted : clean (validate_assertion_block accepts block block_ctx) ≡ true
unfolding validate_assertion_block dokkimi.Report.check_unknown_keys dokkimi.Json.keys
    dokkimi.Prelude.member dokkimi.Json.get dokkimi.Validator.Assertions.validate_extract_rules
    dokkimi.Validator.Assertions.validate_extract_entries
    dokkimi.Validator.Assertions.validate_extract_rule dokkimi.Validator.Paths.validate_path_format
    dokkimi.Prelude.Text.strip_prefix dokkimi.Validator.Blocks.validate_block_assertions
    dokkimi.Validator.Blocks.validate_block_assertion
    dokkimi.Validator.Assertions.validate_assertion
    dokkimi.Validator.Assertions.validate_source_count dokkimi.Validator.Assertions.source_fields
    dokkimi.Validator.Assertions.validate_assertion_path
    dokkimi.Validator.Assertions.validate_shorthand dokkimi.Validator.Assertions.validate_operator
    dokkimi.Json.is_one_of dokkimi.Validator.Blocks.has_loop_modifier
block_accepted = refl

validate_assertion_block_sound_example : IsBlock accepts block
validate_assertion_block_sound_example =
    validate_assertion_block_sound accepts block block_ctx block_accepted
