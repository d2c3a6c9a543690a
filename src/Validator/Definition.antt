-- ===== src/Validator/Definition.antt =====
-- shared/definition-validator/validate.ts and `validateTests` of validate-tests.ts: a whole definition.
-- The checks of the parts are put together here, with the check of UI actions in that of steps. A
-- result `none` is a TypeError that leaves the validator: the check of a test reads `until` of a
-- `repeat` that is null, or a template literal meets a value that has no text. The other parameters are those of Refs/Variables.
pub mod Accepted
pub mod Tests
pub mod Examples
use dokkimi.Prelude.{
  ℕ, suc, String, Bool, true, false, ◌||◌, ◌&&◌, not, Option, none, some, List, [], ◌∷◌, ◌++◌, ltb,
  eqb, length, member, some_of, if◌then◌else◌,
}
use dokkimi.Prelude.Text.{is_present}
use dokkimi.Json.{
  Value, null, array, object, Fields, Unknown, undefined, known, method, get, as_object, as_plain,
  as_array, as_string, as_text, is_defined, is_text, is_one_of, elements, own,
}
use dokkimi.Report.{
  Report, Message, text, quoted, says, at, err, warn, pass, only_if, for_each, ◌>>◌,
  check_unknown_keys,
}
use dokkimi.Report.Written.{is_written, written}
use dokkimi.Validator.Keys.{valid_test_keys}
use dokkimi.Validator.Keys.Items.{
  valid_definition_keys, valid_item_types, valid_config_keys, valid_browser_config_keys,
  definition_name_max_length,
}
use dokkimi.Validator.Loops.Levels.{test_level}
use dokkimi.Validator.Loops.Modifiers.{
  validate_loop_modifiers, validate_test_loop_sibling_conflicts,
}
use dokkimi.Validator.Screenshots.{validate_screenshot_name_uniqueness}
use dokkimi.Validator.Steps.{validate_step}
use dokkimi.Validator.Ui.{validate_ui_action}
use dokkimi.Validator.Ui.SubSteps.{need_text, with_plain, is_positive_integer}
use dokkimi.Validator.Items.Parts.{text_length, with_text, printed}
use dokkimi.Validator.Items.{validate_item}
use dokkimi.Validator.Refs.Variables.{validate_variables_field}
use dokkimi.Validator.Refs.ItemRefs.{ResolvedItem, resolve_refs}

-- `steps[steps.length - 1]?.action?.type`.
last_action_type : List Value → Unknown
last_action_type [] = undefined
last_action_type (v ∷ []) = elim (get v "action") [
  | known action ↦ get action "type"
  | undefined ↦ undefined
  | method ↦ undefined
]
last_action_type (v ∷ w ∷ vs) = last_action_type (w ∷ vs)

-- The warning about `repeat.until` of a test, by its `repeat`; `none` is the TypeError.
unfoldable pub warn_until : Unknown → List Value → Message → Option Report
unfolding last_action_type
warn_until (known null) steps ctx = none
warn_until (known (object fs)) steps ctx = some (
    only_if (is_defined (own fs "until") && is_text (last_action_type steps) "wait") (
      warn (
        says ctx
          ": test-level \"repeat.until\" evaluates against the last step's response, but the last step is a \"wait\" action (which produces no response) — the until condition will never match a $.response.* path")))
warn_until _ steps ctx = some pass

-- A statement behind one that may throw.
unfoldable pub after : Option Report → (Report → Report) → Option Report
after none f = none
after (some r) f = some (f r)

unfoldable pub both : Option Report → Option Report → Option Report
both none s = none
both (some r) none = none
both (some r) (some s) = some (r >> s)

unfoldable pub validate_browser_config : Unknown → Report
unfolding with_plain
validate_browser_config browser =
    with_plain browser (err (text "config.browser must be a plain object" ∷ [])) (λ obj. do
      check_unknown_keys obj valid_browser_config_keys (text "config.browser" ∷ [])
      only_if (is_defined (get obj "version") && not (is_present (as_text (get obj "version"))))
          (err (text "config.browser.version must be a non-empty string" ∷ [])))

unfoldable pub validate_config : Unknown → Report
unfolding with_plain validate_browser_config
validate_config config =
    with_plain config (err (text "\"config\" must be a plain object" ∷ [])) (λ obj. do
      check_unknown_keys obj valid_config_keys (text "config" ∷ [])
      only_if
          (is_defined (get obj "timeoutSeconds")
            && not (is_positive_integer (get obj "timeoutSeconds")))
          (err (text "config.timeoutSeconds must be a positive integer" ∷ []))
      only_if (is_defined (get obj "browser")) (validate_browser_config (get obj "browser")))

unfoldable pub validate_definition_name : Unknown → Report
unfolding text_length
validate_definition_name name = with_text name (err (text "missing or empty \"name\"" ∷ [])) (λ s.
    only_if (ltb definition_name_max_length (text_length s))
      (err (text "\"name\" exceeds 100 characters" ∷ [])))

-- `itemNames.has(item.name)`, and the names behind it.
unfoldable pub check_duplicate : List String → ℕ → Option String → Report
check_duplicate seen i none = pass
check_duplicate seen i (some name) =
    only_if (member name seen)
      (err (at [] "items" i ++ text ": duplicate item name \"" ∷ quoted name ∷ text "\"" ∷ []))

unfoldable pub add_name : List String → Option String → List String
add_name seen none = seen
add_name seen (some name) = name ∷ seen

-- Whether the `label` of an item, which has its name in it, can be written. An item of another type has
-- none.
unfoldable pub has_label : Value → Bool
has_label item =
    not (is_one_of (get item "type") valid_item_types)
    || is_written (printed (get item "name") ∷ [])

module _ (is_regex : String → Bool) (absolute : String → String)
    (resolve : String → String → String) (exists : String → Bool)
    (read : String → Option Unknown) where
  -- The checks of a test's list of steps, in front of the warning and behind it.
  unfoldable pub validate_test_steps : Unknown → Unknown → Message → Option Report
  unfolding warn_until after
  validate_test_steps repeat undefined ctx = some pass
  validate_test_steps repeat (known (array vs)) ctx =
      after (warn_until repeat (elements vs) ctx) (λ w.
        for_each (λ i v. validate_step is_regex (validate_ui_action is_regex) v (at ctx ".steps" i))
          0 (elements vs)
        >> w
        >> validate_screenshot_name_uniqueness (known (array vs)) ctx)
  validate_test_steps repeat _ ctx = some (err (says ctx ": \"steps\" must be an array"))

  unfoldable pub validate_test : Value → Message → String → Option Report
  unfolding need_text validate_test_steps
  validate_test v ctx source = elim (as_object (known v)) [
    | none ↦ some (err (says ctx ": must be an object"))
    | some test ↦ after (validate_test_steps (get test "repeat") (get test "steps") ctx) (λ steps.
        do
          need_text (get test "name") ": missing or empty \"name\"" ctx
          check_unknown_keys test valid_test_keys ctx
          validate_variables_field absolute resolve exists read (get test "variables") ctx source
          (validate_loop_modifiers test ctx false test_level).0
          validate_test_loop_sibling_conflicts test ctx
          steps)
  ]

  unfoldable pub validate_each_test : ℕ → List Value → String → Option Report
  unfolding validate_test both
  validate_each_test i [] source = some pass
  validate_each_test i (v ∷ vs) source =
      both (validate_test v (at [] "tests" i) source) (validate_each_test (suc i) vs source)

  unfoldable pub validate_tests : Unknown → String → Option Report
  unfolding validate_each_test
  validate_tests (known (array vs)) source = written (validate_each_test 0 (elements vs) source)
  validate_tests (known (object fs)) source = some (
      warn (
        text "tests: object format detected (legacy). Consider migrating to V3 array format." ∷ []))
  validate_tests _ source = some (err (text "\"tests\" must be an array of test definitions" ∷ []))

  unfoldable pub validate_items : List String → ℕ → List ResolvedItem → Report
  unfolding check_duplicate add_name
  validate_items seen i [] = pass
  validate_items seen i (x ∷ xs) = do
    check_duplicate seen i (as_string (get x.item "name"))
    validate_item is_regex exists resolve x.item i x.source_file
    validate_items (add_name seen (as_string (get x.item "name"))) (suc i) xs

  -- The items and the variables of a definition.
  unfoldable pub validate_content : Value → List Value → String → Report
  unfolding validate_items
  validate_content parsed items file_path =
      let resolved = resolve_refs absolute resolve exists read items file_path in
      do
        only_if (eqb (length items) 0)
            (warn (text "\"items\" is empty — definition has no services or databases" ∷ []))
        resolved.0
        validate_items [] 0 resolved.1
        validate_variables_field absolute resolve exists read (get parsed "variables")
            (text "definition" ∷ []) file_path

  unfoldable pub validate_optional_tests : Unknown → String → Option Report
  unfolding validate_tests
  validate_optional_tests undefined file_path = some pass
  validate_optional_tests u file_path = validate_tests u file_path

  -- What follows the definition's own name, by its list of items.
  unfoldable pub validate_parts : Value → String → Option (List Value) → Option Report
  unfolding validate_content validate_optional_tests validate_config after has_label
  validate_parts parsed file_path none = some (err (text "\"items\" must be an array" ∷ []))
  validate_parts parsed file_path (some items) =
      let resolved = resolve_refs absolute resolve exists read items file_path in
      if some_of (λ (x : ResolvedItem). not (has_label x.item)) resolved.1
      then none
      else after (validate_optional_tests (get parsed "tests") file_path) (λ tests. do
        validate_content parsed items file_path
        tests
        only_if (is_defined (get parsed "config")) (validate_config (get parsed "config")))

  unfoldable pub validate_definition : Value → String → Option Report
  unfolding validate_definition_name validate_parts
  validate_definition parsed file_path = written (
      after (validate_parts parsed file_path (as_array (get parsed "items"))) (λ parts. do
        check_unknown_keys parsed valid_definition_keys (text "definition" ∷ [])
        validate_definition_name (get parsed "name")
        parts))
