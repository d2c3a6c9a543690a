-- ===== src/Validator/Items.antt =====
-- shared/definition-validator/validate-items.ts: `validateItem`. An item is what `resolveRefs` of
-- validate-refs.ts hands over: a plain object or an array.
pub mod Parts
pub mod Kinds
pub mod Names
pub mod Containers
pub mod Fields
pub mod Accepted
use dokkimi.Prelude.{
  ℕ, String, Bool, true, false, ◌&&◌, not, Option, none, some, List, [], ◌∷◌, ◌++◌, ltb,
  if◌then◌else◌,
}
use dokkimi.Prelude.Int.{ℤ, pos, ltb_ℤ}
use dokkimi.Json.{Value, Unknown, get, as_integer, as_string, is_defined, is_text, is_one_of}
use dokkimi.Report.{
  Report, Message, text, says, at, listed, err, warn, pass, only_if, check_unknown_keys, ◌>>◌,
}
use dokkimi.Validator.Keys.Items.{
  valid_item_types, description_max_length, service_keys, worker_keys, database_keys, broker_keys,
  mock_keys, http_request_keys, db_query_keys,
}
use Parts.{text_length, printed, validate_item_name}
use Kinds.{
  validate_service_item, validate_worker_item, validate_database_item, validate_broker_item,
  validate_mock_item, validate_http_request_item, validate_db_query_item,
}

unfoldable pub warn_description : Unknown → Message → Report
unfolding text_length
warn_description u label = elim (as_string u) [
  | none ↦ pass
  | some s ↦
      only_if (ltb description_max_length (text_length s))
        (warn (says label ": description exceeds 500 characters"))
]

unfoldable pub validate_stage : Unknown → Message → Report
validate_stage u label = only_if (is_defined u) (elim (as_integer u) [
  | none ↦ err (says label ": \"stage\" must be a non-negative integer")
  | some z ↦
      only_if (ltb_ℤ z (pos 0)) (err (says label ": \"stage\" must be a non-negative integer"))
])

module _ (is_regex : String → Bool) (exists : String → Bool)
    (resolve : String → String → String) where
  -- The unknown keys and the check of the item's type.
  unfoldable pub validate_item_kind : Unknown → Value → Message → String → Report
  validate_item_kind type item label source_file =
      if is_text type "SERVICE"
      then (check_unknown_keys item service_keys label
          >> validate_service_item exists resolve item label source_file)
      else if is_text type "WORKER"
      then (check_unknown_keys item worker_keys label
          >> validate_worker_item exists resolve item label source_file)
      else if is_text type "DATABASE"
      then (check_unknown_keys item database_keys label
          >> validate_database_item exists resolve item label source_file)
      else if is_text type "BROKER"
      then (check_unknown_keys item broker_keys label >> validate_broker_item item label)
      else if is_text type "MOCK"
      then (check_unknown_keys item mock_keys label >> validate_mock_item is_regex item label)
      else if is_text type "HTTP_REQUEST"
      then (check_unknown_keys item http_request_keys label
          >> validate_http_request_item item label)
      else if is_text type "DB_QUERY"
      then (check_unknown_keys item db_query_keys label >> validate_db_query_item item label)
      else pass

  unfoldable pub validate_item : Value → ℕ → String → Report
  unfolding validate_item_kind warn_description validate_stage
  validate_item item i source_file =
      let ctx = at [] "items" i in
      let type = get item "type" in
      if not (is_one_of type valid_item_types)
      then err (says ctx ": \"type\" must be one of: " ++ listed valid_item_types)
      else (let label = ctx ++ text " (" ∷ printed (get item "name") ∷ text ")" ∷ [] in
          do
            validate_item_name (get item "name") ctx
            warn_description (get item "description") label
            validate_stage (get item "stage") label
            validate_item_kind type item label source_file)
