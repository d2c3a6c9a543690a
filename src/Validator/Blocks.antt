-- ===== src/Validator/Blocks.antt =====
-- shared/definition-validator/validate-assertions.ts: `validateAssertionBlock`, which the checks of
-- criteria, extract rules, assertions and loop modifiers make up.
pub mod Sound
mod Examples
use dokkimi.Prelude.{ℕ, String, Bool, true, ◌||◌, none, some, ◌∷◌, [], ◌++◌}
use dokkimi.Json.{Value, Unknown, known, get, is_defined, as_plain, as_array}
use dokkimi.Report.{
  Report, Message, text, says, at, err, only_if, for_each, ◌>>◌, check_unknown_keys,
}
use dokkimi.Validator.Keys.{valid_assertion_block_keys}
use dokkimi.Validator.Assertions.{
  validate_match_criteria, validate_extract_rules, validate_assertion,
}
use dokkimi.Validator.Loops.Levels.{block_level}
use dokkimi.Validator.Loops.Modifiers.{
  validate_loop_modifiers, validate_block_loop_sibling_conflicts,
}

validate_block_assertion : Message → ℕ → Value → Report
validate_block_assertion ctx i v = elim (as_plain (known v)) [
  | none ↦ err (at ctx ".assertions" i ++ text ": must be an object" ∷ [])
  | some a ↦ validate_assertion a (at ctx ".assertions" i)
]

validate_block_assertions : Unknown → Message → Report
validate_block_assertions assertions ctx = elim (as_array assertions) [
  | none ↦ err (says ctx ": \"assertions\" must be an array")
  | some vs ↦ for_each (validate_block_assertion ctx) 0 vs
]

pub has_loop_modifier : Value → Bool
has_loop_modifier obj =
    is_defined (get obj "forEach") || is_defined (get obj "for") || is_defined (get obj "repeat")

-- `is_regex` tells whether `new RegExp(pattern)` succeeds.
pub validate_assertion_block : (String → Bool) → Value → Message → Report
validate_assertion_block is_regex block ctx = do
  check_unknown_keys block valid_assertion_block_keys ctx
  only_if (is_defined (get block "match"))
      (validate_match_criteria (get block "match") (says ctx ".match"))
  only_if (is_defined (get block "extract"))
      (validate_extract_rules is_regex (get block "extract") ctx)
  only_if (is_defined (get block "assertions"))
      (validate_block_assertions (get block "assertions") ctx)
  only_if (has_loop_modifier block) (
      (validate_loop_modifiers block ctx true block_level).0
      >> validate_block_loop_sibling_conflicts block ctx)
