-- ===== src/Validator/Definition/Examples.antt =====
-- The checks of whole definitions, items, references and UI actions at concrete inputs.
use dokkimi.Prelude.{
  All, ◌≡◌, ◌≤◌, ◌↔◌, refl, ℕ, String, Bool, true, false, Option, none, some, List, [], ◌∷◌, ◌==◌,
  arith, eqb, length, some_of, if◌then◌else◌,
}
use dokkimi.Json.{
  boolean, Fields, Value, null, string, array, object, Items, nil, cons, end, field, Unknown, known,
  elements,
}
use dokkimi.Report.{Report, Message, text, clean}
use dokkimi.Validator.Items.{validate_item}
use dokkimi.Validator.Items.Accepted.{ItemForm, validate_item_iff}
use dokkimi.Validator.Refs.Variables.{variables_from, resolve_variables_ref}
use dokkimi.Validator.Refs.Variables.Fuel.{resolve_variables_ref_fuel}
use dokkimi.Validator.Refs.ItemRefs.{resolve_refs}
use dokkimi.Validator.Refs.ItemRefs.Laws.{resolve_refs_settled}
use dokkimi.Report.Written.{written}
use dokkimi.Validator.Steps.{validate_other_action}
use dokkimi.Validator.Ui.{validate_ui_action, is_group, validate_ui_sub_step}
use dokkimi.Validator.Ui.Accepted.{SingleForm, validate_ui_sub_step_iff}
use dokkimi.Validator.Definition.{validate_definition, validate_tests}
use dokkimi.Validator.Definition.Tests.{IsTest, validate_tests_sound}
use dokkimi.Validator.Definition.Accepted.{IsDefinition, validate_definition_sound}

-- A file system with one fragment, which every path reaches by its name.
abbrev any_regex : String → Bool
any_regex s = true

abbrev same_path : String → String
same_path s = s

abbrev next_path : String → String → String
next_path from to = to

abbrev on_disk : String → Bool
on_disk p = p == "base.yaml"

abbrev fragment : Fields
fragment = field "image" (string "shop:1") (field "healthCheck" (string "/health") end)

abbrev parse : String → Option Unknown
parse p = if p == "base.yaml" then some (known (object fragment)) else none

-- A service that takes its image from the fragment, and a database.
abbrev service : Value
service = object (
    field "$ref" (string "base.yaml")
      (field "type" (string "SERVICE") (field "name" (string "shop") end)))

abbrev database : Value
database = object (
    field "type" (string "DATABASE")
      (field "name" (string "shop-db") (field "database" (string "postgres") end)))

abbrev shop : Value
shop =
    object
      (field "name" (string "Shop") (field "items" (array (cons service (cons database nil))) end))

shop_accepted :
    validate_definition any_regex same_path next_path on_disk parse shop "shop.yaml" ≡ some []
unfolding written dokkimi.Report.Written.has_text dokkimi.Json.get validate_definition
    dokkimi.Report.check_unknown_keys dokkimi.Json.keys dokkimi.Prelude.member resolve_refs
    dokkimi.Validator.Refs.Variables.ref_list dokkimi.Json.Merge.merge dokkimi.Json.Merge.without
    dokkimi.Validator.Refs.ItemRefs.ref_fields dokkimi.Json.Merge.spread validate_item
    dokkimi.Json.is_one_of dokkimi.Validator.Items.Parts.validate_item_name
    dokkimi.Validator.Items.Kinds.validate_service_item dokkimi.Prelude.Text.strip_prefix
    dokkimi.Validator.Items.Parts.validate_port dokkimi.Validator.Items.Parts.validate_strings
    dokkimi.Validator.Items.Parts.validate_mount_files dokkimi.Validator.Items.Parts.validate_env
    dokkimi.Validator.Items.Kinds.validate_database_item
    dokkimi.Validator.Refs.Variables.validate_variables_field
shop_accepted = refl

validate_definition_sound_example :
    IsDefinition any_regex same_path next_path on_disk parse shop "shop.yaml"
validate_definition_sound_example =
    validate_definition_sound any_regex same_path next_path on_disk parse shop "shop.yaml" []
      shop_accepted refl

validate_item_iff_example :
    (clean (validate_item any_regex on_disk next_path database 0 "shop.yaml") ≡ true)
    ↔ ItemForm any_regex on_disk next_path database "shop.yaml"
validate_item_iff_example = validate_item_iff any_regex on_disk next_path database 0 "shop.yaml"

resolve_refs_settled_example :
    (clean (resolve_refs same_path next_path on_disk parse (service ∷ null ∷ []) "shop.yaml").0
      ≡ eqb
          (length
            (resolve_refs same_path next_path on_disk parse (service ∷ null ∷ []) "shop.yaml").1)
          2)
    × (length (resolve_refs same_path next_path on_disk parse (service ∷ null ∷ []) "shop.yaml").1
        ≤ 2)
resolve_refs_settled_example =
    resolve_refs_settled same_path next_path on_disk parse (service ∷ null ∷ []) "shop.yaml"

-- Two files of variables that name each other.
abbrev circle : String → Option Unknown
circle p =
    if p == "a.yaml"
    then some (known (object (field "$ref" (string "b.yaml") end)))
    else some (known (object (field "$ref" (string "a.yaml") end)))

abbrev first_of_circle : Fields
first_of_circle = field "$ref" (string "a.yaml") end

resolve_variables_ref_fuel_example :
    variables_from same_path next_path any_regex circle 20
      ("shop.yaml" ∷ [])
      "shop.yaml"
      first_of_circle
    ≡ resolve_variables_ref same_path next_path any_regex circle first_of_circle "shop.yaml"
resolve_variables_ref_fuel_example =
    resolve_variables_ref_fuel same_path next_path any_regex circle 20 first_of_circle "shop.yaml"
      (omega arith)

abbrev null_repeat : Value
null_repeat = object (field "repeat" null (field "steps" (array nil) end))

null_repeat_throws :
    validate_tests any_regex same_path next_path on_disk parse
      (known (array (cons null_repeat nil)))
      "shop.yaml"
    ≡ none
unfolding validate_tests dokkimi.Json.get written
null_repeat_throws = refl

-- A type of an action that has a `toString`: the warning about it cannot be written.
abbrev no_text : Value
no_text = object (field "toString" (boolean true) end)

no_text_throws : written (some (validate_other_action (known no_text) [])) ≡ none
unfolding written dokkimi.Report.Written.has_text validate_other_action dokkimi.Json.own
no_text_throws = refl

abbrev click_step : Fields
click_step = field "click" (string "#buy") end

abbrev here : Message
here = text "steps[0]" ∷ []

no_group : is_group any_regex click_step ≡ false
unfolding dokkimi.Json.keys
no_group = refl

validate_ui_sub_step_iff_example :
    (clean (validate_ui_sub_step any_regex (object click_step) here) ≡ true)
    ↔ SingleForm any_regex click_step
validate_ui_sub_step_iff_example = validate_ui_sub_step_iff any_regex click_step here no_group

-- A test with a step that takes a screenshot.
abbrev home_test : Value
home_test = object (
    field "name" (string "Home") (
      field "steps"
        (array (
          cons
            (object (
              field "action"
                (object (
                  field "type" (string "ui") (
                    field "target" (string "shop") (
                      field "steps"
                        (array (cons (object (field "screenshot" (string "home") end)) nil)) end))))
                end))
            nil))
        end))

abbrev home_tests : Items
home_tests = cons home_test nil

home_accepted :
    validate_tests any_regex same_path next_path on_disk parse
      (known (array home_tests))
      "shop.yaml"
    ≡ some []
unfolding validate_tests written dokkimi.Report.Written.has_text dokkimi.Json.get
    dokkimi.Report.check_unknown_keys dokkimi.Json.keys dokkimi.Prelude.member
    dokkimi.Validator.Refs.Variables.validate_variables_field
    dokkimi.Validator.Loops.Modifiers.validate_loop_modifiers
    dokkimi.Validator.Loops.Modifiers.validate_loop_sibling_conflicts
    dokkimi.Validator.Loops.Modifiers.validate_test_loop_sibling_conflicts
    dokkimi.Validator.Screenshots.validate_screenshot_name_uniqueness
    dokkimi.Validator.Screenshots.captures dokkimi.Validator.Steps.validate_step
    dokkimi.Validator.Steps.step_body dokkimi.Validator.Steps.step_parts
    dokkimi.Validator.Steps.validate_action dokkimi.Validator.Steps.validate_step_loops
    validate_ui_action dokkimi.Validator.Ui.SubSteps.validate_screenshot
home_accepted = refl

validate_tests_sound_example :
    All (IsTest any_regex same_path next_path on_disk parse "shop.yaml") (elements home_tests)
validate_tests_sound_example =
    validate_tests_sound any_regex same_path next_path on_disk parse home_tests "shop.yaml" []
      home_accepted refl
