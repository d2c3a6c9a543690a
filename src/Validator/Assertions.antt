-- ===== src/Validator/Assertions.antt =====
-- shared/definition-validator/validate-assertions.ts: match criteria, extract rules, assertions.
-- Whether `new RegExp(pattern)` succeeds is the parameter `is_regex` of the extract rules.
pub mod Source
pub mod Criteria
pub mod Extract
use dokkimi.Prelude.{
  ℕ, Bool, true, false, ◌||◌, ◌&&◌, not, none, some, List, [], ◌∷◌, ◌++◌, String, keep, member,
  if◌then◌else◌,
}
use dokkimi.Prelude.Text.{has_prefix, is_present, is_word_text}
use dokkimi.Json.{
  Value, object, Unknown, known, get, keys, entries, truthy, is_defined, as_plain, as_array,
  as_string, as_text, as_number, is_one_of,
}
use dokkimi.Json.Numbers.{is_integer, is_less, zero_number}
use dokkimi.Report.{
  Report, Message, text, quoted, says, listed, at, err, warn, pass, only_if, for_each, ◌>>◌,
  check_unknown_keys,
}
use dokkimi.Validator.Keys.{
  valid_match_criteria_keys, valid_transforms, valid_source_fields, valid_assertion_keys,
  valid_assertion_operators, valid_extract_transforms,
}
use dokkimi.Validator.Paths.{validate_path_format}
use dokkimi.Validator.Where.{validate_where_entry, validate_match_count}

-- `m.as`, where it is given.
validate_as : Unknown → Message → Report
validate_as value ctx = elim (as_text value) [
  | none ↦ err (says ctx ": \"as\" must be a non-empty string")
  | some s ↦
      only_if (not (is_word_text s))
        (err (says ctx ": \"as\" must be alphanumeric (letters, digits, underscores)"))
]

validate_where_list : Unknown → Message → Report
validate_where_list list ctx = elim (as_array list) [
  | none ↦ err (says ctx ".where: must be a non-empty array")
  | some vs ↦ elim vs [
    | [] ↦ err (says ctx ".where: must be a non-empty array")
    | v ∷ rest ↦ for_each (λ i x. validate_where_entry (known x) (at ctx ".where" i)) 0 (v ∷ rest)
  ]
]

validate_criteria_path : Unknown → Message → Report
validate_criteria_path path ctx = elim (as_text path) [
  | none ↦ err (says ctx ": \"path\" is required and must be a non-empty string")
  | some s ↦ only_if (not (has_prefix "$." s)) (err (says ctx ": path must start with \"$.\""))
]

pub validate_match_criteria : Unknown → Message → Report
validate_match_criteria match ctx = elim (as_plain match) [
  | none ↦ err (says ctx ": \"match\" must be an object")
  | some m ↦ do
    check_unknown_keys m valid_match_criteria_keys ctx
    validate_criteria_path (get m "path") ctx
    only_if (is_defined (get m "where")) (validate_where_list (get m "where") ctx)
    only_if (is_defined (get m "count")) (validate_match_count (get m "count") (says ctx ".count"))
    only_if (is_defined (get m "as")) (validate_as (get m "as") ctx)
]

-- A path that must be a non-empty text of the right format.
pub validate_path_text : Unknown → String → Message → Message → Report
validate_path_text path missing ctx path_ctx = elim (as_text path) [
  | none ↦ err (says ctx missing)
  | some s ↦ validate_path_format s path_ctx
]

unfoldable pub validate_path_transform : Unknown → Message → Report
validate_path_transform transform ctx =
    if is_defined transform
    then only_if (not (is_one_of transform valid_transforms))
        (err (says ctx ".path: \"transform\" must be one of: " ++ listed valid_transforms))
    else err (says ctx ".path: \"transform\" is required when using the {from, transform} form")

-- The two forms of `path`: a text, or `{from, transform}`.
unfoldable pub validate_assertion_path : Unknown → Message → Report
validate_assertion_path path ctx = elim (as_string path) [
  | some s ↦ validate_path_format s ctx
  | none ↦ elim (as_plain path) [
    | none ↦ err (says ctx ": \"path\" must be a string or {from, transform} object")
    | some path_obj ↦ do
      validate_path_text (get path_obj "from") ".path: \"from\" must be a non-empty string" ctx
          (says ctx ".path.from")
      validate_path_transform (get path_obj "transform") ctx
  ]
]

-- The fields that name a source, of those that the assertion has.
unfoldable pub source_fields : Value → List String
source_fields a = keep (λ f. is_defined (get a f)) valid_source_fields

unfoldable pub validate_source_count : List String → Message → Report
validate_source_count [] ctx = err (
    says ctx ": must have exactly one source field ("
    ++ listed valid_source_fields
    ++ text ")" ∷ [])
validate_source_count (f ∷ []) ctx = pass
validate_source_count (f ∷ g ∷ rest) ctx =
    err (says ctx ": only one source field allowed, found: " ++ listed (f ∷ g ∷ rest))

abbrev pub shorthand_fields : List String
shorthand_fields = "count" ∷ "type" ∷ "keys" ∷ "values" ∷ "entries" ∷ []

unfoldable pub validate_shorthand : Value → Message → String → Report
validate_shorthand a ctx f = only_if (is_defined (get a f)) (elim (as_string (get a f)) [
  | none ↦ err (ctx ++ text ": \"" ∷ text f ∷ text "\" must be a string (path)" ∷ [])
  | some s ↦ validate_path_format s (ctx ++ text "." ∷ text f ∷ [])
])

unfoldable pub validate_operator : Value → Message → Report
validate_operator a ctx =
    if not (is_defined (get a "operator"))
    then only_if (not (truthy (get a "disabled"))) (err (says ctx ": \"operator\" is required"))
    else only_if (not (is_one_of (get a "operator") valid_assertion_operators))
        (err (says ctx ": operator must be one of: " ++ listed valid_assertion_operators))

unfoldable pub validate_assertion : Value → Message → Report
validate_assertion a ctx = do
  check_unknown_keys a valid_assertion_keys ctx
  validate_source_count (source_fields a) ctx
  only_if (is_defined (get a "path")) (validate_assertion_path (get a "path") ctx)
  for_each (λ i f. validate_shorthand a ctx f) 0 shorthand_fields
  validate_operator a ctx

-- `for (const k of Object.keys(rule)) if (!validKeys.has(k)) warn(…)`.
unfoldable pub warn_unknown_rule_keys : List String → Message → List String → Report
warn_unknown_rule_keys valid_keys ctx [] = pass
warn_unknown_rule_keys valid_keys ctx (k ∷ rest) = do
  if member k valid_keys
      then pass
      else warn (ctx ++ text ": unknown key \"" ∷ quoted k ∷ text "\"" ∷ [])
  warn_unknown_rule_keys valid_keys ctx rest

unfoldable pub validate_transform_rule : Value → Message → Report
validate_transform_rule rule ctx = do
  warn_unknown_rule_keys ("path" ∷ "from" ∷ "transform" ∷ []) ctx (keys rule)
  only_if (is_defined (get rule "pattern"))
      (err (says ctx ": \"transform\" and \"pattern\" are mutually exclusive"))
  only_if (is_defined (get rule "from") && is_defined (get rule "path"))
      (err (says ctx ": \"from\" and \"path\" are mutually exclusive in a transform rule"))
  only_if (not (is_one_of (get rule "transform") valid_extract_transforms))
      (err (says ctx ": \"transform\" must be one of: " ++ listed valid_extract_transforms))
  if is_defined (get rule "from")
      then only_if (not (is_present (as_text (get rule "from"))))
          (err (says ctx ": \"from\" must be a non-empty string"))
      else validate_path_text (get rule "path") ": \"path\" must be a non-empty string" ctx ctx

module _ (is_regex : String → Bool) where
  unfoldable pub validate_pattern_rule : Value → Message → Report
  validate_pattern_rule rule ctx = do
    warn_unknown_rule_keys ("path" ∷ "pattern" ∷ "group" ∷ []) ctx (keys rule)
    validate_path_text (get rule "path") ": \"path\" must be a non-empty string" ctx ctx
    elim (as_text (get rule "pattern")) [
      | none ↦ err (says ctx ": \"pattern\" must be a non-empty string")
      | some p ↦ only_if (not (is_regex p)) (err (says ctx ": \"pattern\" is not a valid regex"))
    ]
    only_if (is_defined (get rule "group")) (elim (as_number (get rule "group")) [
      | none ↦ err (says ctx ": \"group\" must be a non-negative integer")
      | some n ↦
          only_if (not (is_integer n) || is_less n zero_number)
            (err (says ctx ": \"group\" must be a non-negative integer"))
    ])

  unfoldable pub validate_extract_rule : Message → String → Value → Report
  validate_extract_rule ctx key value =
      let rule_ctx = ctx ++ text ".extract[\"" ∷ quoted key ∷ text "\"]" ∷ [] in
      elim (as_string (known value)) [
        | some s ↦ validate_path_format s rule_ctx
        | none ↦ elim (as_plain (known value)) [
          | some rule ↦
              if is_defined (get rule "transform")
              then validate_transform_rule rule rule_ctx
              else validate_pattern_rule rule rule_ctx
          | none ↦ err (
              ctx
              ++ text ".extract: value for \""
                ∷ quoted key
                ∷ text "\" must be a string, { path, pattern, group? }, or { transform, path/from }"
                ∷ [])
        ]
      ]

  unfoldable pub validate_extract_entries : Message → List (String × Value) → Report
  validate_extract_entries ctx [] = pass
  validate_extract_entries ctx ((key, value) ∷ rest) = do
    validate_extract_rule ctx key value
    validate_extract_entries ctx rest

  unfoldable pub validate_extract_rules : Unknown → Message → Report
  validate_extract_rules (known (object fs)) ctx = validate_extract_entries ctx (entries fs)
  validate_extract_rules extract ctx = err (says ctx ": \"extract\" must be an object")
