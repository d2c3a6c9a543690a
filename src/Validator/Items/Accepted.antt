-- ===== src/Validator/Items/Accepted.antt =====
-- Which items are accepted, by their type.
use dokkimi.Prelude.{
  ℕ, ◌≡◌, ◌↔◌, ◌⊎◌, refl, String, Bool, true, ◌||◌, not, [], ◌∷◌, if◌then◌else◌, ◌++◌,
}
use dokkimi.Json.{Value, Unknown, known, get, truthy, is_defined, is_text, is_one_of}
use dokkimi.Report.{at, text, Message, clean}
use dokkimi.Report.Clean.{reject_iff, ListForm}
use dokkimi.Report.Accepts.{
  Accepts, ◌and◌, accepts_seq, accepts_warn, accepts_keys, accepts_optional, accepts_optional_test,
  accepts_list, accepts_test, accepts_either,
}
use dokkimi.Validator.Keys.{valid_http_methods}
use dokkimi.Validator.Keys.Items.{
  valid_databases, valid_brokers, valid_mock_methods, valid_request_protocols,
}
use dokkimi.Validator.Items.Parts.{validate_init_file}
use dokkimi.Validator.Items.Names.{PortForm}
use dokkimi.Validator.Items.Containers.{TextForm, TextForm-iff, StringForm, EnvForm, IsContainer}
use dokkimi.Validator.Items.Kinds.{
  validate_service_item, validate_worker_item, validate_init_file_paths, validate_database_item,
  validate_broker_item, validate_mock_status, validate_mock_item, validate_http_request_item,
  validate_db_query_item,
}
use dokkimi.Validator.Items.Fields.{
  Absent, HealthForm, IntegerIn, NoAuthForm, NonNegative, SomeText, VersionForm, WordOf,
  body_text_ok, IsContainer-ok, delay_ok, env_ok, health_ok, IntegerIn-iff, is_one_of_iff,
  is_string_iff, no_auth_ok, port_ok, require_ok, strings_ok, version_ok, NameForm, name_ok,
  StageForm, stage_ok, description_quiet,
}
use dokkimi.Validator.Keys.Items.{valid_item_types}
use dokkimi.Validator.Items.Parts.{printed}
use dokkimi.Validator.Items.{validate_item_kind, validate_item}
use dokkimi.Report.Accepts.{accepts_choice, accepts_guard, accepts_quiet, accepts_pass}

module _ (is_regex : String → Bool) (exists : String → Bool)
    (resolve : String → String → String) where
  abbrev pub ServiceForm : Value → String → Type 0
  ServiceForm item from =
      HealthForm (get item "healthCheck")
      and PortForm (get item "port")
      and IsContainer exists resolve item from

  abbrev pub WorkerForm : Value → String → Type 0
  WorkerForm item from = IsContainer exists resolve item from

  -- A file that exists.
  abbrev pub FileForm : String → Unknown → Type 0
  FileForm from u = TextForm (λ s. exists (resolve from s) ≡ true) u

  abbrev pub DatabaseForm : Value → String → Type 0
  DatabaseForm item from =
      WordOf valid_databases (get item "database")
      and (Absent (get item "image") ⊎ Absent (get item "version"))
      and (Absent (get item "version") ⊎ VersionForm (get item "version"))
      and (Absent (get item "image") ⊎ SomeText (get item "image"))
      and NoAuthForm
          (is_defined (get item "dbPassword")
            || is_defined (get item "dbUser")
            || is_defined (get item "dbName"))
          (get item "noAuth")
      and (Absent (get item "initFilePath") ⊎ FileForm from (get item "initFilePath"))
      and ListForm (λ v. FileForm from (known v)) (get item "initFilePaths")

  abbrev pub BrokerForm : Value → Type 0
  BrokerForm item =
      WordOf valid_brokers (get item "broker")
      and (Absent (get item "version") ⊎ VersionForm (get item "version"))
      and PortForm (get item "port")
      and (Absent (get item "healthCheck") ⊎ StringForm (get item "healthCheck"))
      and ListForm (λ v. StringForm (known v)) (get item "command")
      and ListForm EnvForm (get item "env")

  abbrev pub MockForm : Value → Type 0
  MockForm item =
      SomeText (get item "mockTarget")
      and SomeText (get item "mockPath")
      and (Absent (get item "mockMethod") ⊎ WordOf valid_mock_methods (get item "mockMethod"))
      and (Absent (get item "mockResponseStatus")
          ⊎ IntegerIn 100 599 (get item "mockResponseStatus"))
      and (Absent (get item "mockDelayMs") ⊎ NonNegative (get item "mockDelayMs"))
      and (Absent (get item "mockRequestBodyContains")
          ⊎ TextForm (λ s. Unit) (get item "mockRequestBodyContains"))
      and (Absent (get item "mockRequestBodyMatches")
          ⊎ TextForm (λ s. is_regex s ≡ true) (get item "mockRequestBodyMatches"))
      and (Absent (get item "mockRequestBodyContains") ⊎ Absent (get item "mockRequestBodyMatches"))

  abbrev pub HttpRequestForm : Value → Type 0
  HttpRequestForm item =
      WordOf valid_http_methods (get item "requestMethod")
      and SomeText (get item "requestUrl")
      and SomeText (get item "requestTarget")
      and (Absent (get item "requestProtocol")
          ⊎ WordOf valid_request_protocols (get item "requestProtocol"))

  abbrev pub DbQueryForm : Value → Type 0
  DbQueryForm item = SomeText (get item "queryTarget") and SomeText (get item "queryText")

  service_iff :
      (item : Value) (label : Message) (from : String)
      → Accepts (validate_service_item exists resolve item label from) (ServiceForm item from)
  unfolding validate_service_item
  service_iff item label from = accepts_warn (not (truthy (get item "image"))) _ _ (
      accepts_seq _ _ (health_ok (get item "healthCheck") label) (
        accepts_seq _ _ (port_ok (get item "port") "port" label)
          (IsContainer-ok exists resolve item label from)))

  worker_iff :
      (item : Value) (label : Message) (from : String)
      → Accepts (validate_worker_item exists resolve item label from) (WorkerForm item from)
  unfolding validate_worker_item
  worker_iff item label from =
      accepts_warn (not (truthy (get item "image"))) _ _
        (IsContainer-ok exists resolve item label from)

  file_iff :
      (u : Unknown) (label : Message) (from : String)
      → (clean (validate_init_file exists resolve u label from) ≡ true) ↔ FileForm from u
  unfolding validate_init_file
  file_iff u label from =
      TextForm-iff u _ _ (λ s. exists (resolve from s) ≡ true)
        (λ s. reject_iff (exists (resolve from s)) _)

  file_ok :
      (u : Unknown) (label : Message) (from : String)
      → Accepts (validate_init_file exists resolve u label from) (FileForm from u)
  file_ok u label from = record { iff = file_iff u label from }

  database_iff :
      (item : Value) (label : Message) (from : String)
      → Accepts (validate_database_item exists resolve item label from) (DatabaseForm item from)
  unfolding validate_database_item validate_init_file_paths
  database_iff item label from =
      accepts_seq _ _
        (accepts_test (is_one_of (get item "database") valid_databases) _
          (is_one_of_iff (get item "database") valid_databases))
        (accepts_seq _ _ (accepts_either (get item "image") (get item "version") _) (
          accepts_seq _ _ (version_ok (get item "version") _ label) (
            accepts_seq _ _
              (accepts_optional (get item "image") _ (require_ok (get item "image") _ label))
              (accepts_seq _ _ (no_auth_ok (get item "noAuth") _ label) (
                accepts_seq _ _
                  (accepts_optional (get item "initFilePath") _
                    (file_ok (get item "initFilePath") label from))
                  (accepts_list (get item "initFilePaths") _ _ (λ v. FileForm from (known v))
                    (λ i v. file_ok (known v) label from)))))))

  broker_iff :
      (item : Value) (label : Message) → Accepts (validate_broker_item item label) (BrokerForm item)
  unfolding validate_broker_item
  broker_iff item label =
      accepts_seq _ _
        (accepts_test (is_one_of (get item "broker") valid_brokers) _
          (is_one_of_iff (get item "broker") valid_brokers))
        (accepts_seq _ _ (version_ok (get item "version") _ label) (
          accepts_seq _ _ (port_ok (get item "port") "port" label) (
            accepts_seq _ _
              (accepts_optional_test (get item "healthCheck") _ _
                (is_string_iff (get item "healthCheck")))
              (accepts_seq _ _ (strings_ok "command" (get item "command") label)
                (env_ok (get item "env") label)))))

  mock_iff :
      (item : Value) (label : Message)
      → Accepts (validate_mock_item is_regex item label) (MockForm item)
  unfolding validate_mock_item validate_mock_status
  mock_iff item label = accepts_seq _ _ (require_ok (get item "mockTarget") _ label) (
      accepts_seq _ _ (require_ok (get item "mockPath") _ label) (
        accepts_seq _ _
          (accepts_optional_test (get item "mockMethod") _ _
            (is_one_of_iff (get item "mockMethod") valid_mock_methods))
          (accepts_seq _ _
            (accepts_optional_test (get item "mockResponseStatus") _ _
              (IntegerIn-iff 100 599 (get item "mockResponseStatus")))
            (accepts_seq _ _ (delay_ok (get item "mockDelayMs") label) (
              accepts_seq _ _
                (body_text_ok "mockRequestBodyContains" (get item "mockRequestBodyContains") label _
                  (λ s. Unit) (λ s. (λ h. tt, λ h. refl)))
                (accepts_seq _ _
                  (body_text_ok "mockRequestBodyMatches" (get item "mockRequestBodyMatches") label _
                    (λ s. is_regex s ≡ true) (λ s. reject_iff (is_regex s) _))
                  (accepts_either (get item "mockRequestBodyContains")
                    (get item "mockRequestBodyMatches") _)))))))

  http_request_iff :
      (item : Value) (label : Message)
      → Accepts (validate_http_request_item item label) (HttpRequestForm item)
  unfolding validate_http_request_item
  http_request_iff item label =
      accepts_seq _ _
        (accepts_test (is_one_of (get item "requestMethod") valid_http_methods) _
          (is_one_of_iff (get item "requestMethod") valid_http_methods))
        (accepts_seq _ _ (require_ok (get item "requestUrl") _ label) (
          accepts_seq _ _ (require_ok (get item "requestTarget") _ label) (
            accepts_optional_test (get item "requestProtocol") _ _
              (is_one_of_iff (get item "requestProtocol") valid_request_protocols))))

  db_query_iff :
      (item : Value) (label : Message)
      → Accepts (validate_db_query_item item label) (DbQueryForm item)
  unfolding validate_db_query_item
  db_query_iff item label =
      accepts_seq _ _ (require_ok (get item "queryTarget") _ label)
        (require_ok (get item "queryText") _ label)

  -- The form of an item, by its type.
  abbrev pub KindForm : Unknown → Value → String → Type 0
  KindForm type item from =
      if is_text type "SERVICE"
      then ServiceForm item from
      else if is_text type "WORKER"
      then WorkerForm item from
      else if is_text type "DATABASE"
      then DatabaseForm item from
      else if is_text type "BROKER"
      then BrokerForm item
      else if is_text type "MOCK"
      then MockForm item
      else if is_text type "HTTP_REQUEST"
      then HttpRequestForm item
      else if is_text type "DB_QUERY"
      then DbQueryForm item
      else Unit

  kind_ok :
      (type : Unknown) (item : Value) (label : Message) (from : String)
      → Accepts
          (validate_item_kind is_regex exists resolve type item label from)
          (KindForm type item from)
  unfolding validate_item_kind
  kind_ok type item label from =
      accepts_choice (is_text type "SERVICE") _ _
        (accepts_keys item _ label _ (service_iff item label from))
        (accepts_choice (is_text type "WORKER") _ _
          (accepts_keys item _ label _ (worker_iff item label from))
          (accepts_choice (is_text type "DATABASE") _ _
            (accepts_keys item _ label _ (database_iff item label from))
            (accepts_choice (is_text type "BROKER") _ _
              (accepts_keys item _ label _ (broker_iff item label))
              (accepts_choice (is_text type "MOCK") _ _
                (accepts_keys item _ label _ (mock_iff item label))
                (accepts_choice (is_text type "HTTP_REQUEST") _ _
                  (accepts_keys item _ label _ (http_request_iff item label))
                  (accepts_choice (is_text type "DB_QUERY") _ _
                    (accepts_keys item _ label _ (db_query_iff item label)) accepts_pass))))))

  -- A type of the list, a name, a stage if any, and the form of the type.
  abbrev pub ItemForm : Value → String → Type 0
  ItemForm item from =
      WordOf valid_item_types (get item "type")
      and NameForm (get item "name")
      and (Absent (get item "stage") ⊎ StageForm (get item "stage"))
      and KindForm (get item "type") item from

  pub item_ok :
      (item : Value) (i : ℕ) (from : String)
      → Accepts (validate_item is_regex exists resolve item i from) (ItemForm item from)
  unfolding validate_item
  item_ok item i from =
      let label = at [] "items" i ++ text " (" ∷ printed (get item "name") ∷ text ")" ∷ [] in
      accepts_guard _ _ _ (is_one_of_iff (get item "type") valid_item_types) (
        accepts_seq _ _ (name_ok (get item "name") _) (
          accepts_quiet _ _ (description_quiet (get item "description") label) (
            accepts_seq _ _ (stage_ok (get item "stage") label)
              (kind_ok (get item "type") item label from))))

  -- For every test of regular expressions and every file system, the check of an item reports no error
  -- exactly for an item of a known type whose name is a DNS label, whose stage is absent or a natural
  -- number, and whose fields have the form of its type.
  pub validate_item_iff :
      (item : Value) (i : ℕ) (from : String)
      → (clean (validate_item is_regex exists resolve item i from) ≡ true) ↔ ItemForm item from
  validate_item_iff item i from = (item_ok item i from).iff
