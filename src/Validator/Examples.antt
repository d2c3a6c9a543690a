-- ===== src/Validator/Examples.antt =====
-- The checks of definition files at concrete inputs.
use dokkimi.Prelude.{refl, inl, ◌≡◌, ◌↔◌, ◌⊎◌, Bool, String, true, some, All, [], ◌∷◌}
use dokkimi.Prelude.Int.{pos}
use dokkimi.Json.{
  Fields, Value, number, string, array, object, Items, nil, cons, end, field, Unknown, undefined,
  known, get, depth, depth_unknown, elements,
}
use dokkimi.Json.Numbers.{int}
use dokkimi.Report.{Message, text, clean}
use dokkimi.Validator.Paths.{validate_path_format}
use dokkimi.Validator.Paths.Format.{IsPath, validate_path_format_iff}
use dokkimi.Validator.Where.{validate_where_entry, validate_match_count}
use dokkimi.Validator.Where.Form.{IsWhere}
use dokkimi.Validator.Where.Complete.{validate_where_entry_iff}
use dokkimi.Validator.Where.Counts.{CountForm, validate_match_count_iff}
use dokkimi.Validator.Assertions.{
  validate_assertion, validate_match_criteria, validate_extract_rules,
}
use dokkimi.Validator.Assertions.Source.{IsAssertion, validate_assertion_iff}
use dokkimi.Validator.Assertions.Criteria.{CriteriaForm, validate_match_criteria_iff}
use dokkimi.Validator.Assertions.Extract.{ExtractForm, validate_extract_rules_iff}
use dokkimi.Validator.Loops.Levels.{step_level, validate_loop_body}
use dokkimi.Validator.Loops.Levels.Body.{IsBody, validate_loop_body_iff}
use dokkimi.Validator.Loops.Modifiers.{
  for_loop, validate_loop_modifiers, validate_loop_sibling_conflicts,
  validate_test_loop_sibling_conflicts, validate_block_loop_sibling_conflicts,
}
use dokkimi.Validator.Loops.Levels.{loop_modifier_keys}
use dokkimi.Validator.Loops.Modifiers.Chosen.{
  Only, Loopless, validate_loop_modifiers-chosen_iff, validate_loop_sibling_conflicts_iff,
  sibling_conflicts_iff,
}
use dokkimi.Validator.Steps.{validate_http_action}
use dokkimi.Validator.Steps.Actions.{IsHttpAction, validate_http_action_iff}
use dokkimi.Validator.Screenshots.{validate_screenshot_name_uniqueness}
use dokkimi.Validator.Screenshots.Distinct.{
  Shots, no_steps, ui_step, no_subs, shot, Distinct, validate_screenshot_name_uniqueness_iff,
}

abbrev here : Message
here = text "tests[0]" ∷ []

abbrev comparison : Value
comparison = object (field "path" (string "$$.id") (field "operator" (string "equals") end))

abbrev where_object : Value
where_object = object (field "or" (array (cons comparison (cons comparison nil))) end)

validate_path_format_iff_example :
    (clean (validate_path_format "$.response.body.id" here) ≡ true) ↔ IsPath "$.response.body.id"
validate_path_format_iff_example = validate_path_format_iff "$.response.body.id" here

validate_where_entry_iff_example :
    (clean (validate_where_entry (known where_object) here) ≡ true) ↔ IsWhere where_object
validate_where_entry_iff_example = validate_where_entry_iff where_object here

abbrev count_value : Unknown
count_value =
    known (object (field "operator" (string "gte") (field "value" (number (int (pos 2))) end)))

validate_match_count_iff_example :
    (clean (validate_match_count count_value here) ≡ true) ↔ CountForm count_value
validate_match_count_iff_example = validate_match_count_iff count_value here

abbrev assertion : Value
assertion = object (
    field "path" (string "$.response.status")
      (field "operator" (string "equals") (field "value" (number (int (pos 200))) end)))

validate_assertion_iff_example :
    (clean (validate_assertion assertion here) ≡ true) ↔ IsAssertion assertion
validate_assertion_iff_example = validate_assertion_iff assertion here

abbrev criteria : Unknown
criteria = known (
    object (
      field "path" (string "$.traffic")
        (field "where" (array (cons where_object nil)) (field "count" (number (int (pos 1))) end))))

validate_match_criteria_iff_example :
    (clean (validate_match_criteria criteria here) ≡ true) ↔ CriteriaForm criteria
validate_match_criteria_iff_example = validate_match_criteria_iff criteria here

abbrev any_regex : String → Bool
any_regex s = true

abbrev rules : Unknown
rules = known (
    object (
      field "id" (string "$.response.body.id") (
        field "token"
          (object
            (field "path" (string "$.response.body.token") (field "pattern" (string "t=(.*)") end)))
          end)))

validate_extract_rules_iff_example :
    (clean (validate_extract_rules any_regex rules here) ≡ true) ↔ ExtractForm any_regex rules
validate_extract_rules_iff_example = validate_extract_rules_iff any_regex rules here

abbrev loop_body_value : Value
loop_body_value =
    object
      (field "action" (object end) (field "for" (object (field "assertions" (array nil) end)) end))

validate_loop_body_iff_example :
    (clean (validate_loop_body loop_body_value here step_level) ≡ true)
    ↔ IsBody step_level loop_body_value
validate_loop_body_iff_example = validate_loop_body_iff loop_body_value here step_level

validate_loop_modifiers-chosen_iff_example :
    ((validate_loop_modifiers loop_body_value here true step_level).1 ≡ some for_loop)
    ↔ Only loop_body_value for_loop
validate_loop_modifiers-chosen_iff_example =
    validate_loop_modifiers-chosen_iff loop_body_value here true step_level for_loop

validate_loop_sibling_conflicts_iff_example :
    (clean (validate_loop_sibling_conflicts loop_body_value here) ≡ true) ↔ (
      All (Loopless loop_body_value) loop_modifier_keys
      ⊎ ((get loop_body_value "assertions" ≡ undefined)
          × (get loop_body_value "extract" ≡ undefined)))
validate_loop_sibling_conflicts_iff_example =
    validate_loop_sibling_conflicts_iff loop_body_value here

sibling_conflicts_iff_example :
    ((clean (validate_test_loop_sibling_conflicts loop_body_value here) ≡ true) ↔ (
      All (Loopless loop_body_value) loop_modifier_keys
      ⊎ (get loop_body_value "steps" ≡ undefined)))
    × ((clean (validate_block_loop_sibling_conflicts loop_body_value here) ≡ true) ↔ (
        All (Loopless loop_body_value) loop_modifier_keys
        ⊎ (get loop_body_value "assertions" ≡ undefined)))
sibling_conflicts_iff_example = sibling_conflicts_iff loop_body_value here

abbrev screenshot_step : String → Value
screenshot_step name = object (
    field "action"
      (object (
        field "type" (string "ui")
          (field "steps" (array (cons (object (field "screenshot" (string name) end)) nil)) end)))
      end)

abbrev screenshot_steps : Items
screenshot_steps = cons (screenshot_step "home") (cons (screenshot_step "cart") nil)

Shots-screenshot_steps : Shots (elements screenshot_steps) ("home" ∷ "cart" ∷ [])
unfolding dokkimi.Json.get
Shots-screenshot_steps =
    ui_step (_, refl, refl, refl) (shot (inl refl) no_subs)
      (ui_step (_, refl, refl, refl) (shot (inl refl) no_subs) no_steps)

validate_screenshot_name_uniqueness_iff_example :
    (clean (validate_screenshot_name_uniqueness (known (array screenshot_steps)) here) ≡ true)
    ↔ Distinct ("home" ∷ "cart" ∷ [])
validate_screenshot_name_uniqueness_iff_example =
    validate_screenshot_name_uniqueness_iff screenshot_steps ("home" ∷ "cart" ∷ []) here
      Shots-screenshot_steps

abbrev get_request : Fields
get_request =
    field "type" (string "httpRequest")
      (field "method" (string "GET") (field "url" (string "api/orders") end))

validate_http_action_iff_example :
    (clean (validate_http_action (object get_request) here) ≡ true) ↔ IsHttpAction get_request
validate_http_action_iff_example = validate_http_action_iff get_request here
