-- ===== src/Validator/Steps.antt =====
-- shared/definition-validator/validate-tests.ts: `validateStep`. `is_regex` tells whether
-- `new RegExp(pattern)` succeeds, and `validate_ui_action` is the check of UI actions. The recursion
-- on the actions of a parallel group is on fuel, the depth of the step and one more, which is enough for
-- finite values; on a recursive alias of YAML the recursion of the source does not end.
pub mod Actions
use dokkimi.Prelude.{
  ℕ, zero, suc, Bool, true, false, ◌||◌, ◌&&◌, not, Option, none, some, List, [], ◌∷◌, ◌++◌, String,
  leb, ltb, eqb, count_of, some_of, if◌then◌else◌,
}
use dokkimi.Prelude.Int.{ℤ, pos, ltb_ℤ}
use dokkimi.Prelude.Text.{is_present}
use dokkimi.Json.{
  Value, object, end, field, Unknown, undefined, known, method, get, truthy, is_defined, as_object,
  as_plain, as_array, as_string, as_integer, is_text, is_one_of, depth,
}
use dokkimi.Report.{
  Report, Message, text, quoted, shown, says, at, err, warn, pass, only_if, for_each, ◌>>◌,
  check_unknown_keys,
}
use dokkimi.Validator.Keys.{
  valid_http_methods, valid_step_keys, http_action_keys, db_action_keys, wait_action_keys,
  ui_action_keys, parallel_action_keys,
}
use dokkimi.Validator.Assertions.{validate_extract_rules}
use dokkimi.Validator.Blocks.{has_loop_modifier, validate_assertion_block}
use dokkimi.Validator.Loops.Levels.{step_level}
use dokkimi.Validator.Loops.Modifiers.{validate_loop_modifiers, validate_loop_sibling_conflicts}
use Prim.Native.Char.{code}
use Prim.Native.String

-- `/^[^/]+:\d+/`: a first part without slash, a colon and a digit.
starts_digit : String → Bool
starts_digit String.[] = false
starts_digit (String.◌∷◌ c s) = leb b'0' (code c) && leb (code c) b'9'

port_after : String → Bool
port_after String.[] = false
port_after (String.◌∷◌ c s) =
    (eqb (code c) b':' && starts_digit s) || (not (eqb (code c) b'/') && port_after s)

has_port : String → Bool
has_port String.[] = false
has_port (String.◌∷◌ c s) = not (eqb (code c) b'/') && port_after s

validate_url : Unknown → Message → Report
validate_url url ctx = elim (as_string url) [
  | none ↦ err (says ctx ".action: httpRequest requires \"url\"")
  | some s ↦ only_if (has_port s) (
      warn (
        ctx
        ++ text ".action: url \""
          ∷ quoted s
          ∷ text "\" contains a port — ports are not needed and are likely to cause test failures"
          ∷ []))
]

-- A field that must be a plain object if it is there.
validate_plain_field : Unknown → String → Message → Report
validate_plain_field value message ctx =
    only_if (is_defined value && not (is_present (as_plain value))) (err (says ctx message))

pub validate_http_action : Value → Message → Report
validate_http_action action ctx = do
  check_unknown_keys action http_action_keys (says ctx ".action")
  only_if (not (is_one_of (get action "method") valid_http_methods))
      (err (says ctx ".action: httpRequest requires valid \"method\""))
  validate_url (get action "url") ctx
  only_if (is_defined (get action "body") && is_defined (get action "formData")) (
      err (
        says ctx
          ".action: httpRequest cannot have both \"body\" and \"formData\" — use one or the other"))
  validate_plain_field (get action "formData") ".action: \"formData\" must be an object" ctx
  validate_plain_field (get action "queryParams") ".action: \"queryParams\" must be an object" ctx

pub validate_db_action : Value → Message → Report
validate_db_action action ctx = do
  check_unknown_keys action db_action_keys (says ctx ".action")
  only_if (not (is_present (as_string (get action "database"))))
      (err (says ctx ".action: dbQuery requires \"database\" (database service name)"))
  only_if (not (is_present (as_string (get action "query"))))
      (err (says ctx ".action: dbQuery requires \"query\" (string)"))

validate_duration : Unknown → Message → Report
validate_duration duration ctx = elim (as_integer duration) [
  | none ↦ err (says ctx ".action: wait requires positive integer \"durationMs\"")
  | some n ↦
      only_if (not (ltb_ℤ (pos 0) n))
        (err (says ctx ".action: wait requires positive integer \"durationMs\""))
]

pub validate_wait_action : Value → Message → Report
validate_wait_action action ctx = do
  check_unknown_keys action wait_action_keys (says ctx ".action")
  validate_duration (get action "durationMs") ctx

-- `a?.type === 'ui'`.
pub is_ui : Value → Bool
is_ui a = is_text (get a "type") "ui"

pub validate_parallel_actions : (Value → Message → Report) → Unknown → Message → Report
validate_parallel_actions step actions ctx = elim (as_array actions) [
  | none ↦ err (says ctx ".action: parallel requires \"actions\" array")
  | some vs ↦
      for_each (λ i v. step (object (field "action" v end)) (at ctx ".action.actions" i)) 0 vs
      >> only_if (ltb 1 (count_of is_ui vs)) (
          err (
            says ctx
              ".action: parallel cannot have more than one UI action — split each UI action into its own sequential step"))
]

-- `if (action.type) warn(…) else err(…)`. A type that has no text makes the literal throw: the value is
-- kept in the message, and Report/Written reads it where the report leaves the validator.
unfoldable pub validate_other_action : Unknown → Message → Report
validate_other_action (known v) ctx =
    if truthy (known v)
    then warn (ctx ++ text ".action: unknown action type \"" ∷ shown v ∷ text "\"" ∷ [])
    else err (says ctx ".action: missing \"type\"")
validate_other_action _ ctx = err (says ctx ".action: missing \"type\"")

-- `typeof b === 'object' && b !== null && !('match' in b)`.
is_self_block : Value → Bool
is_self_block b = elim (as_object (known b)) [
  | none ↦ false
  | some v ↦ not (is_defined (get v "match"))
]

warn_parallel : Value → Message → Report
warn_parallel step ctx = do
  only_if (is_defined (get step "extract")) (
      warn (
        says ctx
          ": \"extract\" on a parallel step will always receive an empty response — parallel actions do not produce an extraction document"))
  elim (as_array (get step "assertions")) [
    | none ↦ pass
    | some vs ↦ only_if (some_of is_self_block vs) (
        warn (
          says ctx
            ": self-block assertions on a parallel step will always receive an empty response — use \"match\" blocks to assert against individual sub-action traffic"))
  ]

validate_step_block : (String → Bool) → Message → ℕ → Value → Report
validate_step_block is_regex ctx i v = elim (as_plain (known v)) [
  | none ↦ err (at ctx ".assertions" i ++ text ": must be an object" ∷ [])
  | some block ↦ validate_assertion_block is_regex block (at ctx ".assertions" i)
]

validate_step_assertions : (String → Bool) → Unknown → Message → Report
validate_step_assertions is_regex assertions ctx = elim (as_array assertions) [
  | none ↦ err (says ctx ": \"assertions\" must be an array")
  | some vs ↦ for_each (validate_step_block is_regex ctx) 0 vs
]

-- The loop modifiers and siblings of the step itself.
unfoldable pub validate_step_loops : Value → Message → Report
validate_step_loops step ctx = do
  (validate_loop_modifiers step ctx false step_level).0
  validate_loop_sibling_conflicts step ctx

module _ (is_regex : String → Bool) (validate_ui_action : Value → Message → Report) where
  unfoldable pub validate_action : (Value → Message → Report) → Value → Message → Report
  validate_action step action ctx =
      let type = get action "type" in
      if is_text type "httpRequest"
      then validate_http_action action ctx
      else if is_text type "dbQuery"
      then validate_db_action action ctx
      else if is_text type "wait"
      then validate_wait_action action ctx
      else if is_text type "ui"
      then (check_unknown_keys action ui_action_keys (says ctx ".action")
          >> validate_ui_action action (says ctx ".action"))
      else if is_text type "parallel"
      then (check_unknown_keys action parallel_action_keys (says ctx ".action")
          >> validate_parallel_actions step (get action "actions") ctx)
      else validate_other_action type ctx

  -- What follows the unknown keys of a step, by its action.
  unfoldable pub step_parts : (Value → Message → Report) → Value → Unknown → Message → Report
  unfolding warn_parallel validate_step_assertions is_self_block validate_step_block
  step_parts step s action_value ctx = elim (as_object action_value) [
    | none ↦ do
      only_if (not (has_loop_modifier s)) (err (says ctx ": missing \"action\" object"))
      validate_step_loops s ctx
    | some action ↦ do
      validate_action step action ctx
      validate_step_loops s ctx
      only_if
          (not (is_text (get action "type") "parallel") && not (is_text (get action "type") "ui"))
          (validate_loop_modifiers action (says ctx ".action") false step_level).0
      only_if (is_text (get action "type") "parallel") (warn_parallel s ctx)
      only_if (is_defined (get s "extract")) (validate_extract_rules is_regex (get s "extract") ctx)
      only_if (is_defined (get s "assertions"))
          (validate_step_assertions is_regex (get s "assertions") ctx)
  ]

  unfoldable pub step_body : ℕ → Value → Message → Report
  step_body zero step ctx = pass
  step_body (suc fuel) step ctx = elim (as_object (known step)) [
    | none ↦ err (says ctx ": must be an object")
    | some s ↦
        check_unknown_keys s valid_step_keys ctx
        >> step_parts (step_body fuel) s (get s "action") ctx
  ]

  unfoldable pub validate_step : Value → Message → Report
  validate_step step ctx = step_body (suc (depth step)) step ctx
