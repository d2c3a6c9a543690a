-- ===== src/Validator/Paths.antt =====
-- shared/definition-validator/validate-helpers.ts: the format of assertion paths.
pub mod Format
use dokkimi.Prelude.{
  String, Bool, true, false, ◌||◌, Option, none, some, List, [], ◌∷◌, ◌++◌, ◌==◌, if◌then◌else◌,
}
use dokkimi.Prelude.Text.{has_prefix}
use dokkimi.Report.{Message, Report, text, quoted, err, pass}

-- The regular expressions of the two tables: `/^p/`, `/^p$/`, and `/^response\.headers?\./`.
pub data PathPattern : Type 0 where
  starts whole : String → PathPattern
  starts_either : String → String → PathPattern

-- `pattern.test(path)`.
abbrev pub test : PathPattern → String → Bool
test (starts p) path = has_prefix p path
test (whole p) path = path == p
test (starts_either p q) path = has_prefix p path || has_prefix q path

abbrev pub deprecated_path_patterns : List (PathPattern × String)
deprecated_path_patterns =
    (starts "$.body.", "Did you mean \"$.response.body.\"?")
    ∷ (starts "$.headers.", "Did you mean \"$.response.headers.\"?")
    ∷ (whole "$.statusCode", "Did you mean \"$.response.status\"?")
    ∷ (starts "$.extracted.", "Did you mean \"$.variables.\"?")
    ∷ []

abbrev pub old_path_suggestions : List (PathPattern × String)
old_path_suggestions =
    (starts "response.body.", "Did you mean \"$.response.body.\"?")
    ∷ (starts "response.status", "Did you mean \"$.response.status\"?")
    ∷ (
      starts_either "response.header." "response.headers.",
      "Did you mean \"$.response.headers.\"?",
    )
    ∷ (starts "request.", "Did you mean \"$.request.\"?")
    ∷ (whole "responseTime", "Did you mean \"$.responseTime\"?")
    ∷ (starts "data[", "Did you mean \"$.response.data[\"?")
    ∷ (whole "success", "Did you mean \"$.response.success\"?")
    ∷ (whole "rowsAffected", "Did you mean \"$.response.rowsAffected\"?")
    ∷ (whole "error", "Did you mean \"$.response.error\"?")
    ∷ (whole "duration", "Did you mean \"$.responseTime\"?")
    ∷ []

-- The message of the first pattern of a table that fits.
abbrev pub first_match : List (PathPattern × String) → String → Option String
first_match [] path = none
first_match ((pattern, msg) ∷ rest) path =
    if test pattern path then some msg else first_match rest path

suggestion : Option String → Message
suggestion none = []
suggestion (some msg) = text " " ∷ text msg ∷ []

unfoldable pub validate_path_format : String → Message → Report
unfolding suggestion
validate_path_format path_value ctx =
    if has_prefix "{{" path_value
    then pass
    else elim (first_match deprecated_path_patterns path_value) [
      | some msg ↦ err (
          ctx
          ++ text ": path \""
            ∷ quoted path_value
            ∷ text "\" uses a deprecated format. "
            ∷ text msg
            ∷ [])
      | none ↦
          if has_prefix "$$." path_value
          then err (
              ctx
              ++ text ": path \""
                ∷ quoted path_value
                ∷ text
                    "\" uses \"$$.\" which is only valid inside where clauses. Use \"$.\" for assertion paths."
                ∷ [])
          else if has_prefix "$$" path_value
          then err (
              ctx
              ++ text ": path \""
                ∷ quoted path_value
                ∷ text "\" uses \"$$\" which is only valid as \"$$.\" inside where clauses"
                ∷ [])
          else if has_prefix "$." path_value
          then pass
          else err (
              ctx
              ++ text ": path \""
                ∷ quoted path_value
                ∷ text "\" must start with \"$.\"."
                ∷ suggestion (first_match old_path_suggestions path_value))
    ]
