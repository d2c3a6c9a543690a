-- ===== src/Validator/Keys.antt =====
-- shared/definition-validator/constants.ts: the names that the validators allow.
pub mod Items
pub mod Ui
use dokkimi.Prelude.{ℕ, String, List, [], ◌∷◌}

abbrev pub max_ref_depth : ℕ
max_ref_depth = 10

abbrev pub valid_assertion_block_keys : List String
valid_assertion_block_keys = "assertions" ∷ "match" ∷ "extract" ∷ "forEach" ∷ "for" ∷ "repeat" ∷ []

abbrev pub valid_assertion_keys : List String
valid_assertion_keys =
    "path" ∷ "count" ∷ "type" ∷ "keys" ∷ "values" ∷ "entries" ∷ "operator" ∷ "value" ∷ "disabled"
    ∷ []

abbrev pub valid_assertion_operators : List String
valid_assertion_operators =
    "eq" ∷ "eqIgnoreCase" ∷ "ne" ∷ "gt" ∷ "gte" ∷ "lt" ∷ "lte" ∷ "contains" ∷ "containsIgnoreCase"
    ∷ "notContains" ∷ "notContainsIgnoreCase" ∷ "matches" ∷ "exists" ∷ "notExists" ∷ "in" ∷ "notIn"
    ∷ "isEmpty" ∷ "notEmpty" ∷ []

abbrev pub valid_match_criteria_keys : List String
valid_match_criteria_keys = "path" ∷ "where" ∷ "count" ∷ "as" ∷ []

abbrev pub valid_where_entry_keys : List String
valid_where_entry_keys = "path" ∷ "operator" ∷ "value" ∷ "or" ∷ "and" ∷ "not" ∷ []

abbrev pub valid_transforms : List String
valid_transforms = "length" ∷ "type" ∷ "keys" ∷ "values" ∷ "entries" ∷ []

abbrev pub valid_source_fields : List String
valid_source_fields = "path" ∷ "count" ∷ "type" ∷ "keys" ∷ "values" ∷ "entries" ∷ []

abbrev pub valid_count_operators : List String
valid_count_operators = "eq" ∷ "gte" ∷ "lte" ∷ "gt" ∷ "lt" ∷ []

abbrev pub valid_count_assertion_keys : List String
valid_count_assertion_keys = "operator" ∷ "value" ∷ []

abbrev pub valid_loop_body_keys : List String
valid_loop_body_keys =
    "match" ∷ "assertions" ∷ "extract" ∷ "forEach" ∷ "for" ∷ "repeat" ∷ "action" ∷ "steps" ∷ []

abbrev pub valid_for_each_keys : List String
valid_for_each_keys = "items" ∷ "as" ∷ "name" ∷ "delayMs" ∷ valid_loop_body_keys

abbrev pub valid_for_keys : List String
valid_for_keys = "from" ∷ "to" ∷ "step" ∷ "as" ∷ "name" ∷ "delayMs" ∷ valid_loop_body_keys

abbrev pub valid_repeat_keys : List String
valid_repeat_keys = "count" ∷ "as" ∷ "name" ∷ "delayMs" ∷ "until" ∷ valid_loop_body_keys

abbrev pub valid_extract_transforms : List String
valid_extract_transforms = "keys" ∷ "values" ∷ "entries" ∷ []

abbrev pub valid_http_methods : List String
valid_http_methods = "GET" ∷ "POST" ∷ "PUT" ∷ "DELETE" ∷ "PATCH" ∷ "HEAD" ∷ "OPTIONS" ∷ []

abbrev pub valid_step_keys : List String
valid_step_keys =
    "name" ∷ "description" ∷ "stopOnFailure" ∷ "action" ∷ "extract" ∷ "assertions" ∷ "forEach"
    ∷ "for" ∷ "repeat" ∷ []

-- The keys of an action, by its type.
abbrev pub http_action_keys : List String
http_action_keys =
    "type" ∷ "method" ∷ "url" ∷ "path" ∷ "headers" ∷ "body" ∷ "formData" ∷ "queryParams" ∷ "timeout"
    ∷ "forEach" ∷ "for" ∷ "repeat" ∷ []

abbrev pub db_action_keys : List String
db_action_keys =
    "type" ∷ "database" ∷ "query" ∷ "params" ∷ "timeout" ∷ "forEach" ∷ "for" ∷ "repeat" ∷ []

abbrev pub wait_action_keys : List String
wait_action_keys = "type" ∷ "durationMs" ∷ "forEach" ∷ "for" ∷ "repeat" ∷ []

abbrev pub ui_action_keys : List String
ui_action_keys = "type" ∷ "target" ∷ "steps" ∷ []

abbrev pub parallel_action_keys : List String
parallel_action_keys = "type" ∷ "actions" ∷ []

abbrev pub valid_test_keys : List String
valid_test_keys =
    "name" ∷ "description" ∷ "timeoutSeconds" ∷ "stopOnFailure" ∷ "variables" ∷ "steps" ∷ "forEach"
    ∷ "for" ∷ "repeat" ∷ []
