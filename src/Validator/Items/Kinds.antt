-- ===== src/Validator/Items/Kinds.antt =====
-- shared/definition-validator/validate-items.ts: the checks of the kinds of item. `is_regex` tells
-- whether `new RegExp(pattern)` succeeds.
use dokkimi.Prelude.{ℕ, String, Bool, false, ◌||◌, ◌&&◌, not, none, some, [], ◌∷◌, ◌++◌, leb, eqb}
use dokkimi.Prelude.Text.{is_present, has_prefix, every_char}
use dokkimi.Json.{
  Value, boolean, Unknown, undefined, known, get, truthy, as_array, as_string, as_text, as_number,
  is_defined, is_text, is_one_of,
}
use dokkimi.Json.Numbers.{is_less, zero_number}
use dokkimi.Report.{
  Report, Message, text, quoted, says, listed, err, warn, pass, only_if, for_each, ◌>>◌,
}
use dokkimi.Validator.Keys.{valid_http_methods}
use dokkimi.Validator.Keys.Items.{
  valid_databases, valid_brokers, valid_mock_methods, valid_request_protocols,
  mock_response_status_min, mock_response_status_max,
}
use dokkimi.Validator.Items.Parts.{
  validate_port, validate_strings, validate_env, validate_mount_files, validate_init_file,
  is_integer_in, with_text,
}
use Prim.Native.Char.{code}

is_version_char : ℕ → Bool
is_version_char c =
    leb b'a' c && leb c b'z'
    || leb b'A' c && leb c b'Z'
    || leb b'0' c && leb c b'9'
    || eqb c b'.'
    || eqb c b'-'

-- `/^\d[a-zA-Z0-9.-]*$/`: `DATABASE_VERSION_RE` and `BROKER_VERSION_RE`.
unfoldable pub matches_version : String → Bool
unfolding is_version_char
matches_version String.[] = false
matches_version (String.◌∷◌ c s) =
    leb b'0' (code c) && leb (code c) b'9' && every_char is_version_char s

unfoldable pub validate_version : Unknown → Message → Message → Report
unfolding matches_version
validate_version version explain label = only_if (is_defined version) (
    with_text version (err (says label ": \"version\" must be a non-empty string")) (λ s.
      only_if (not (matches_version s)) (
        err (
          label
          ++ text
              ": \"version\" must start with a digit and contain only alphanumeric characters, dots, and hyphens (e.g. "
            ∷ explain
          ++ text "; got \"" ∷ quoted s ∷ text "\")" ∷ []))))

-- `typeof u !== 'string'` or empty: the field must be there.
unfoldable pub require_text : Unknown → String → Message → Report
require_text u message label = only_if (not (is_present (as_text u))) (err (says label message))

unfoldable pub validate_health_check : Unknown → Message → Report
validate_health_check u label =
    with_text u
      (err (
        says label
          ": SERVICE requires \"healthCheck\" (string — HTTP path like \"/health\" or \"tcp\" for TCP-only)"))
      (λ s. only_if (not (is_text u "tcp") && not (has_prefix "/" s)) (
        err (
          says label
            ": \"healthCheck\" must be an HTTP path starting with \"/\" (e.g., \"/health\") or \"tcp\" for TCP port check")))

-- The command, the entrypoint, the files and the environment of a service or a worker.
unfoldable pub validate_container :
    (String → Bool) → (String → String → String) → Value → Message → String → Report
validate_container exists resolve item label source_file = do
  validate_strings "command" (get item "command") label
  validate_strings "entrypoint" (get item "entrypoint") label
  validate_mount_files exists resolve (get item "mountFiles") label source_file
  validate_env (get item "env") label

unfoldable pub validate_service_item :
    (String → Bool) → (String → String → String) → Value → Message → String → Report
unfolding validate_health_check validate_container
validate_service_item exists resolve item label source_file = do
  only_if (not (truthy (get item "image"))) (warn (says label ": SERVICE should have \"image\""))
  validate_health_check (get item "healthCheck") label
  validate_port (get item "port") "port" label
  validate_container exists resolve item label source_file

unfoldable pub validate_worker_item :
    (String → Bool) → (String → String → String) → Value → Message → String → Report
unfolding validate_container
validate_worker_item exists resolve item label source_file = do
  only_if (not (truthy (get item "image"))) (warn (says label ": WORKER should have \"image\""))
  validate_container exists resolve item label source_file

-- `noAuth`, and whether a database user, password or name is given.
unfoldable pub validate_no_auth : Unknown → Bool → Message → Report
validate_no_auth undefined credentials label = pass
validate_no_auth (known (boolean b)) credentials label = only_if (b && credentials) (
    err
      (says label ": \"noAuth\" cannot be combined with \"dbName\", \"dbUser\", or \"dbPassword\""))
validate_no_auth _ credentials label = err (says label ": \"noAuth\" must be a boolean")

unfoldable pub validate_init_file_paths :
    (String → Bool) → (String → String → String) → Unknown → Message → String → Report
validate_init_file_paths exists resolve u label source_file =
    only_if (is_defined u) (elim (as_array u) [
      | none ↦ err (says label ": \"initFilePaths\" must be an array")
      | some vs ↦
          for_each (λ i v. validate_init_file exists resolve (known v) label source_file) 0 vs
    ])

unfoldable pub validate_database_item :
    (String → Bool) → (String → String → String) → Value → Message → String → Report
unfolding validate_version validate_no_auth validate_init_file_paths require_text
validate_database_item exists resolve item label source_file = do
  only_if (not (is_one_of (get item "database") valid_databases))
      (err (says label ": DATABASE requires \"database\" as one of: " ++ listed valid_databases))
  only_if (is_defined (get item "image") && is_defined (get item "version"))
      (err (says label ": \"image\" and \"version\" are mutually exclusive — use one or the other"))
  validate_version (get item "version") (text "\"16\", \"8.0\", \"7.2-alpine\"" ∷ []) label
  only_if (is_defined (get item "image"))
      (require_text (get item "image") ": \"image\" must be a non-empty string" label)
  validate_no_auth (get item "noAuth")
      (is_defined (get item "dbPassword")
        || is_defined (get item "dbUser")
        || is_defined (get item "dbName"))
      label
  only_if (is_defined (get item "initFilePath"))
      (validate_init_file exists resolve (get item "initFilePath") label source_file)
  validate_init_file_paths exists resolve (get item "initFilePaths") label source_file

unfoldable pub validate_broker_item : Value → Message → Report
unfolding validate_version
validate_broker_item item label = do
  only_if (not (is_one_of (get item "broker") valid_brokers))
      (err (says label ": BROKER requires \"broker\" as one of: " ++ listed valid_brokers))
  validate_version (get item "version") (text "\"3\", \"3.13\"" ∷ []) label
  validate_port (get item "port") "port" label
  only_if
      (is_defined (get item "healthCheck") && not (is_present (as_string (get item "healthCheck"))))
      (err (says label ": \"healthCheck\" must be a string"))
  validate_strings "command" (get item "command") label
  validate_env (get item "env") label

unfoldable pub validate_mock_status : Unknown → Message → Report
validate_mock_status u label =
    only_if
      (is_defined u && not (is_integer_in mock_response_status_min mock_response_status_max u))
      (err (says label ": mockResponseStatus must be an integer 100-599"))

unfoldable pub validate_mock_delay : Unknown → Message → Report
validate_mock_delay u label = only_if (is_defined u) (elim (as_number u) [
  | none ↦ err (says label ": mockDelayMs must be a non-negative number")
  | some n ↦
      only_if (is_less n zero_number)
        (err (says label ": mockDelayMs must be a non-negative number"))
])

-- A string that may be left out, and the check of a string that is not empty.
unfoldable pub validate_body_text : String → Unknown → Message → (String → Report) → Report
validate_body_text name u label check = only_if (is_defined u) (elim (as_string u) [
  | none ↦ err (label ++ text ": " ∷ text name ∷ text " must be a string" ∷ [])
  | some s ↦
      with_text u (err (label ++ text ": " ∷ text name ∷ text " must be non-empty" ∷ [])) check
])

unfoldable pub validate_mock_item : (String → Bool) → Value → Message → Report
unfolding require_text validate_mock_status validate_mock_delay validate_body_text
validate_mock_item is_regex item label = do
  require_text (get item "mockTarget") ": MOCK requires \"mockTarget\" (string)" label
  require_text (get item "mockPath") ": MOCK requires \"mockPath\" (string)" label
  only_if
      (is_defined (get item "mockMethod")
        && not (is_one_of (get item "mockMethod") valid_mock_methods))
      (err (says label ": mockMethod must be a valid HTTP method or \"*\""))
  validate_mock_status (get item "mockResponseStatus") label
  validate_mock_delay (get item "mockDelayMs") label
  validate_body_text "mockRequestBodyContains" (get item "mockRequestBodyContains") label
      (λ s. pass)
  validate_body_text "mockRequestBodyMatches" (get item "mockRequestBodyMatches") label (λ s.
      only_if (not (is_regex s)) (err (says label ": mockRequestBodyMatches is not a valid regex")))
  only_if
      (is_defined (get item "mockRequestBodyContains")
        && is_defined (get item "mockRequestBodyMatches"))
      (err
        (says label ": mockRequestBodyContains and mockRequestBodyMatches are mutually exclusive"))

unfoldable pub validate_http_request_item : Value → Message → Report
unfolding require_text
validate_http_request_item item label = do
  only_if (not (is_one_of (get item "requestMethod") valid_http_methods))
      (err (says label ": HTTP_REQUEST requires valid \"requestMethod\""))
  require_text (get item "requestUrl") ": HTTP_REQUEST requires \"requestUrl\" (string)" label
  require_text (get item "requestTarget") ": HTTP_REQUEST requires \"requestTarget\" (string)" label
  only_if
      (is_defined (get item "requestProtocol")
        && not (is_one_of (get item "requestProtocol") valid_request_protocols))
      (err (says label ": requestProtocol must be one of: " ++ listed valid_request_protocols))

unfoldable pub validate_db_query_item : Value → Message → Report
unfolding require_text
validate_db_query_item item label = do
  require_text (get item "queryTarget") ": DB_QUERY requires \"queryTarget\" (string)" label
  require_text (get item "queryText") ": DB_QUERY requires \"queryText\" (string)" label
