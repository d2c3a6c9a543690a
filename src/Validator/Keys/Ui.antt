-- ===== src/Validator/Keys/Ui.antt =====
-- shared/definition-validator/constants.ts: the words and keys of UI sub-steps.
use dokkimi.Prelude.{String, List, [], ◌∷◌}

abbrev pub valid_ui_sub_step_keys : List String
valid_ui_sub_step_keys =
    "visit" ∷ "click" ∷ "type" ∷ "waitFor" ∷ "extract" ∷ "screenshot" ∷ "scroll" ∷ "select"
    ∷ "hover" ∷ "key" ∷ "upload" ∷ "drag" ∷ "viewport" ∷ []

abbrev pub valid_ui_sub_step_optional_keys : List String
valid_ui_sub_step_optional_keys = "timeoutMs" ∷ []

abbrev pub valid_ui_type_keys : List String
valid_ui_type_keys = "selector" ∷ "text" ∷ []

abbrev pub valid_ui_wait_for_object_keys : List String
valid_ui_wait_for_object_keys = "selector" ∷ "text" ∷ []

abbrev pub valid_ui_extract_source_keys : List String
valid_ui_extract_source_keys =
    "from" ∷ "selector" ∷ "name" ∷ "key" ∷ "part" ∷ "pattern" ∷ "group" ∷ []

abbrev pub valid_ui_extract_from : List String
valid_ui_extract_from =
    "text" ∷ "attribute" ∷ "value" ∷ "url" ∷ "cookie" ∷ "localStorage" ∷ "sessionStorage" ∷ "count"
    ∷ "exists" ∷ []

abbrev pub valid_ui_extract_url_parts : List String
valid_ui_extract_url_parts = "full" ∷ "pathname" ∷ "search" ∷ "hash" ∷ "host" ∷ []
