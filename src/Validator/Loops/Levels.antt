-- ===== src/Validator/Loops/Levels.antt =====
-- shared/definition-validator/validate-loops.ts: what the body of a loop may hold at each level.
pub mod Body
pub mod Nesting
mod Examples
use dokkimi.Prelude.{
  ℕ, zero, suc, Bool, true, false, ◌||◌, ◌&&◌, not, Option, none, some, List, [], ◌∷◌, ◌++◌, String,
  keep, length, member, leb, ltb, eqb, if◌then◌else◌,
}
use dokkimi.Prelude.Int.{ℤ, pos, ◌+ℤ◌, ltb_ℤ}
use dokkimi.Prelude.Text.{has_prefix, is_present, is_word_text}
use dokkimi.Json.{
  Value, number, Unknown, known, get, keys, is_defined, as_object, as_plain, as_array, as_string,
  as_text, as_number, as_integer,
}
use dokkimi.Json.Numbers.{Number, int, is_less, is_zero, zero_number, floor_quotient, span}
use dokkimi.Report.{
  Report, Message, text, shown, says, listed, at, err, pass, only_if, for_each, ◌>>◌,
  check_unknown_keys,
}
use dokkimi.Validator.Keys.{valid_for_each_keys, valid_for_keys, valid_repeat_keys}
use dokkimi.Validator.Assertions.{validate_assertion}

pub data LoopLevel : Type 0 where
  test_level step_level block_level : LoopLevel

level_name : LoopLevel → String
level_name test_level = "test"
level_name step_level = "step"
level_name block_level = "assertion-block"

abbrev pub allowed_body_keys : LoopLevel → List String
allowed_body_keys test_level = "steps" ∷ []
allowed_body_keys step_level = "action" ∷ "match" ∷ "assertions" ∷ "extract" ∷ []
allowed_body_keys block_level = "match" ∷ "assertions" ∷ "extract" ∷ []

abbrev pub child_level : LoopLevel → Option LoopLevel
child_level test_level = some step_level
child_level step_level = some block_level
child_level block_level = none

abbrev pub loop_modifier_keys : List String
loop_modifier_keys = "forEach" ∷ "for" ∷ "repeat" ∷ []

abbrev pub all_body_content_keys : List String
all_body_content_keys = "steps" ∷ "action" ∷ "match" ∷ "assertions" ∷ "extract" ∷ []

-- `ctx.key`.
abbrev pub under : Message → String → Message
under ctx key = ctx ++ text "." ∷ text key ∷ []

abbrev pub is_allowed : LoopLevel → String → Bool
is_allowed level key =
    not (member key all_body_content_keys && not (member key (allowed_body_keys level)))

unfoldable pub validate_body_keys : LoopLevel → Message → List String → Report
unfolding level_name
validate_body_keys level ctx [] = pass
validate_body_keys level ctx (key ∷ rest) = do
  if is_allowed level key
      then pass
      else err (
          ctx
          ++ text ": \""
            ∷ text key
            ∷ text "\" is not allowed in a "
            ∷ text (level_name level)
            ∷ text "-level loop body"
            ∷ [])
  validate_body_keys level ctx rest

-- One nested loop of a body, with the check of the next level.
unfoldable pub validate_nested :
    (Value → Message → LoopLevel → Report) → Value → Message → LoopLevel → String → Report
validate_nested body loop_obj ctx level loop_key =
    only_if (is_defined (get loop_obj loop_key)) (elim (child_level level) [
      | none ↦ err (says ctx ": nested loops are not allowed inside an assertion-block-level loop")
      | some child ↦ elim (as_plain (get loop_obj loop_key)) [
        | none ↦ pass
        | some nested ↦ body nested (under ctx loop_key) child
      ]
    ])

-- The recursion descends one level at each call; three calls are the most.
unfoldable pub loop_body : ℕ → Value → Message → LoopLevel → Report
loop_body zero loop_obj ctx level = pass
loop_body (suc fuel) loop_obj ctx level = do
  validate_body_keys level ctx (keys loop_obj)
  validate_nested (loop_body fuel) loop_obj ctx level "forEach"
  validate_nested (loop_body fuel) loop_obj ctx level "for"
  validate_nested (loop_body fuel) loop_obj ctx level "repeat"

abbrev pub rank : LoopLevel → ℕ
rank test_level = 2
rank step_level = 1
rank block_level = 0

unfoldable pub validate_loop_body : Value → Message → LoopLevel → Report
validate_loop_body loop_obj ctx level = loop_body (suc (rank level)) loop_obj ctx level
