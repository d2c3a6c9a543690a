-- ===== src/Validator/Keys/Items.antt =====
-- shared/definition-validator/constants.ts: the words and keys of definitions and their items.
use dokkimi.Prelude.{ℕ, String, List, [], ◌∷◌, ◌++◌}
use dokkimi.Validator.Keys.{valid_http_methods}

abbrev pub item_name_max_length : ℕ
item_name_max_length = 63

abbrev pub definition_name_max_length : ℕ
definition_name_max_length = 100

abbrev pub description_max_length : ℕ
description_max_length = 500

abbrev pub valid_item_types : List String
valid_item_types =
    "SERVICE" ∷ "WORKER" ∷ "DATABASE" ∷ "BROKER" ∷ "MOCK" ∷ "HTTP_REQUEST" ∷ "DB_QUERY" ∷ []

abbrev pub valid_databases : List String
valid_databases = "postgres" ∷ "mysql" ∷ "mongodb" ∷ "redis" ∷ []

abbrev pub valid_brokers : List String
valid_brokers = "amqp" ∷ "kafka" ∷ []

abbrev pub valid_mock_methods : List String
valid_mock_methods = valid_http_methods ++ "*" ∷ []

abbrev pub valid_request_protocols : List String
valid_request_protocols = "http" ∷ "https" ∷ []

abbrev pub port_min : ℕ
port_min = 1

abbrev pub port_max : ℕ
port_max = 65535

abbrev pub mock_response_status_min : ℕ
mock_response_status_min = 100

abbrev pub mock_response_status_max : ℕ
mock_response_status_max = 599

abbrev pub valid_definition_keys : List String
valid_definition_keys = "name" ∷ "description" ∷ "items" ∷ "tests" ∷ "config" ∷ "variables" ∷ []

abbrev pub valid_config_keys : List String
valid_config_keys = "timeoutSeconds" ∷ "browser" ∷ []

abbrev pub valid_browser_config_keys : List String
valid_browser_config_keys = "version" ∷ []

-- `VALID_ITEM_KEYS`, by the type of the item.
abbrev pub service_keys : List String
service_keys =
    "type" ∷ "name" ∷ "description" ∷ "$ref" ∷ "stage" ∷ "image" ∷ "port" ∷ "healthCheck" ∷ "uiPath"
    ∷ "env" ∷ "minCpu" ∷ "minMemory" ∷ "maxCpu" ∷ "maxMemory" ∷ "localDevPath" ∷ "mountPath"
    ∷ "command" ∷ "entrypoint" ∷ "mountFiles" ∷ []

abbrev pub worker_keys : List String
worker_keys =
    "type" ∷ "name" ∷ "description" ∷ "$ref" ∷ "stage" ∷ "image" ∷ "env" ∷ "minCpu" ∷ "minMemory"
    ∷ "maxCpu" ∷ "maxMemory" ∷ "localDevPath" ∷ "mountPath" ∷ "command" ∷ "entrypoint"
    ∷ "mountFiles" ∷ []

abbrev pub database_keys : List String
database_keys =
    "type" ∷ "name" ∷ "description" ∷ "$ref" ∷ "stage" ∷ "database" ∷ "image" ∷ "version"
    ∷ "initFilePath" ∷ "initFilePaths" ∷ "initFileIds" ∷ "dbName" ∷ "dbUser" ∷ "dbPassword"
    ∷ "noAuth" ∷ "minCpu" ∷ "minMemory" ∷ "maxCpu" ∷ "maxMemory" ∷ []

abbrev pub broker_keys : List String
broker_keys =
    "type" ∷ "name" ∷ "description" ∷ "$ref" ∷ "stage" ∷ "broker" ∷ "version" ∷ "image" ∷ "port"
    ∷ "healthCheck" ∷ "env" ∷ "command" ∷ "minCpu" ∷ "minMemory" ∷ "maxCpu" ∷ "maxMemory" ∷ []

abbrev pub mock_keys : List String
mock_keys =
    "type" ∷ "name" ∷ "description" ∷ "$ref" ∷ "mockMethod" ∷ "mockOrigin" ∷ "mockTarget"
    ∷ "mockPath" ∷ "mockDelayMs" ∷ "mockResponseStatus" ∷ "mockRequestBodyContains"
    ∷ "mockRequestBodyMatches" ∷ "mockResponseHeaders" ∷ "mockResponseBody" ∷ []

abbrev pub http_request_keys : List String
http_request_keys =
    "type" ∷ "name" ∷ "description" ∷ "$ref" ∷ "requestMethod" ∷ "requestProtocol" ∷ "requestUrl"
    ∷ "requestHeaders" ∷ "requestBody" ∷ "requestTarget" ∷ []

abbrev pub db_query_keys : List String
db_query_keys =
    "type" ∷ "name" ∷ "description" ∷ "$ref" ∷ "queryTarget" ∷ "queryText" ∷ "queryParams" ∷ []
