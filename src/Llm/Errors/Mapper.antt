-- ===== src/Llm/Errors/Mapper.antt =====
-- src/services/llm_runtime/exception_mapper.py: a provider's error as one of the program's. An error of
-- a provider's library is what the code reads of it: the classes it is an instance of, and attributes.
use ai_financial_copilot.Common.{
  ℕ, zero, suc, Bool, false, ◌&&◌, ◌||◌, [], Option, none, some, String, if◌then◌else◌, nat_beq,
  string_eq, ◌==◌,
}
use ai_financial_copilot.Common.Dict.{Dict, get}
use ai_financial_copilot.Llm.Errors.{ErrorClass, LlmError, RetryInfo}

-- the classes of the openai package that the code names
pub data OpenaiClass : Type 0 where
  api_connection_error api_status_error api_timeout_error authentication_error : OpenaiClass
  bad_request_error internal_server_error not_found_error permission_denied_error : OpenaiClass
  rate_limit_error : OpenaiClass

-- the classes of google.api_core.exceptions that the code names
pub data GoogleClass : Type 0 where
  resource_exhausted unauthenticated permission_denied not_found invalid_argument : GoogleClass
  deadline_exceeded service_unavailable internal_server_error google_api_error : GoogleClass

-- the attribute `code`: absent or None, a number, a text, or a member of an enumeration of numbers
pub data CodeAttribute : Type 0 where
  no_code : CodeAttribute
  int_code enum_code : ℕ → CodeAttribute
  text_code : String → CodeAttribute

pub record ProviderError (C : Type 0) : Type 0 where
  pub is_instance : C → Bool
  -- str(error), and the name of its type
  pub message : String
  pub type_name : String
  -- the attribute `status_code`, where it is a number
  pub status_code : Option ℕ
  pub code : CodeAttribute
  pub param : Option String
  -- the headers of the response, where there is one
  pub headers : Option (Dict String String)

pub record TextSearch : Type 0 where
  pub lower : String → String
  -- `part in text`
  pub is_in : String → String → Bool
  -- float(s); `none` is a ValueError
  pub parse_float : String → Option ℕ

-- `a or b`, of texts that may be missing
abbrev pub text_or : Option String → Option String → Option String
text_or none b = b
text_or (some s) b = if s == "" then b else some s

abbrev pub parse_header : TextSearch → Option String → Option ℕ
parse_header texts none = none
parse_header texts (some s) = if s == "" then none else texts.parse_float s

-- `_extract_retry_after`
abbrev pub extract_retry_after : TextSearch → Option (Dict String String) → Option ℕ
extract_retry_after texts none = none
extract_retry_after texts (some headers) =
    parse_header texts (text_or (get "retry-after" headers) (get "Retry-After" headers))

abbrev pub status_of_code : CodeAttribute → Option ℕ
status_of_code no_code = none
status_of_code (int_code n) = some n
status_of_code (enum_code n) = some n
status_of_code (text_code s) = none

-- `_extract_status_code`
abbrev pub extract_status_code : Option ℕ → CodeAttribute → Option ℕ
extract_status_code (some n) code = some n
extract_status_code none code = status_of_code code

-- RetryInfo with its defaults, unless the delay is missing or zero
abbrev pub retry_info_of : Option ℕ → Option RetryInfo
retry_info_of none = none
retry_info_of (some zero) = none
retry_info_of (some (suc n)) =
    some (record { retry_after_seconds = some (suc n); attempt = 0; max_attempts = 3 })

-- `status_code or default`
abbrev pub status_or : Option ℕ → ℕ → Option ℕ
status_or none default = some default
status_or (some zero) default = some default
status_or (some (suc n)) default = some (suc n)

abbrev pub number_or : Option ℕ → ℕ → ℕ
number_or none default = default
number_or (some n) default = n

abbrev pub is_text_code : CodeAttribute → String → Bool
is_text_code (text_code s) t = s == t
is_text_code no_code t = false
is_text_code (int_code n) t = false
is_text_code (enum_code n) t = false

abbrev pub is_param : Option String → String → Bool
is_param none t = false
is_param (some s) t = s == t

-- the class of a bad request, by what it says
abbrev pub bad_request_class : TextSearch → ProviderError OpenaiClass → ErrorClass
bad_request_class texts e =
    let msg = texts.lower e.message in
    if is_text_code e.code "invalid_encrypted_content"
      || texts.is_in "without its required following" msg
    then ErrorClass.reasoning_replay_error
    else if is_param e.param "reasoning.summary"
        || texts.is_in "verif" msg && texts.is_in "summar" msg
    then ErrorClass.feature_unavailable_error
    else if texts.is_in "context_length" msg
        || texts.is_in "maximum context" msg
        || texts.is_in "too long" msg
    then ErrorClass.context_length_error
    else if texts.is_in "content" msg
        && (texts.is_in "filter" msg || texts.is_in "policy" msg || texts.is_in "blocked" msg)
    then ErrorClass.content_filter_error
    else ErrorClass.invalid_request_error

abbrev pub is_status : Option ℕ → ℕ → Bool
is_status none n = false
is_status (some m) n = nat_beq m n

-- the class and the status code that the code chooses
abbrev pub openai_class : TextSearch → ProviderError OpenaiClass → ErrorClass × Option ℕ
openai_class texts e =
    let status = extract_status_code e.status_code e.code in
    let server = number_or e.status_code 500 in
    if e.is_instance rate_limit_error
    then (ErrorClass.rate_limit_error, status_or status 429)
    else if e.is_instance authentication_error
    then (ErrorClass.authentication_error, status_or status 401)
    else if e.is_instance permission_denied_error
    then (ErrorClass.permission_error, status_or status 403)
    else if e.is_instance not_found_error
    then (ErrorClass.not_found_error, status_or status 404)
    else if e.is_instance bad_request_error
    then (bad_request_class texts e, status_or status 400)
    else if e.is_instance internal_server_error
    then (if nat_beq server 503
        then (ErrorClass.service_unavailable_error, status_or (some server) 503)
        else (ErrorClass.server_error, status_or (some server) 500))
    else if e.is_instance api_timeout_error
    then (ErrorClass.timeout_error, status_or status 408)
    else if e.is_instance api_connection_error
    then (ErrorClass.connection_error, status)
    else if e.is_instance api_status_error
    then (if is_status e.status_code 429
        then (ErrorClass.rate_limit_error, some 429)
        else if is_status e.status_code 500 || is_status e.status_code 502
        then (ErrorClass.server_error, e.status_code)
        else if is_status e.status_code 503
        then (ErrorClass.service_unavailable_error, some 503)
        else (ErrorClass.error, e.status_code))
    else (ErrorClass.error, status)

-- `map_openai_error`
unfoldable pub map_openai_error :
    TextSearch → ProviderError OpenaiClass → String → Option String → LlmError
map_openai_error texts e provider model =
    let (error_class, status) = openai_class texts e in
    record {
      error_class = error_class;
      message = e.message;
      provider = some provider;
      model = model;
      original_error = some e.type_name;
      retry_info = retry_info_of (extract_retry_after texts e.headers);
      details = [];
      error_code = none;
      status_code = status;
    }

abbrev pub response_error :
    ErrorClass → ℕ → Option String → String → String → Option String → LlmError
response_error error_class status code message provider model = record {
  error_class = error_class;
  message = message;
  provider = some provider;
  model = model;
  original_error = none;
  retry_info = none;
  details = [];
  error_code = code;
  status_code = some status;
}

-- `map_openai_response_error`
unfoldable pub map_openai_response_error :
    Option String → String → String → Option String → LlmError
map_openai_response_error code message provider model =
    if is_param code "rate_limit_exceeded"
    then response_error ErrorClass.rate_limit_error 429 code message provider model
    else if is_param code "invalid_prompt"
    then response_error ErrorClass.invalid_request_error 400 code message provider model
    else response_error ErrorClass.server_error 500 code message provider model

abbrev pub google_class : TextSearch → ProviderError GoogleClass → ErrorClass × Option ℕ
google_class texts e =
    let status = extract_status_code e.status_code e.code in
    let msg = texts.lower e.message in
    if e.is_instance resource_exhausted
    then (ErrorClass.rate_limit_error, status_or status 429)
    else if e.is_instance unauthenticated
    then (ErrorClass.authentication_error, status_or status 401)
    else if e.is_instance permission_denied
    then (ErrorClass.permission_error, status_or status 403)
    else if e.is_instance not_found
    then (ErrorClass.not_found_error, status_or status 404)
    else if e.is_instance invalid_argument
    then (if texts.is_in "token" msg && (texts.is_in "limit" msg || texts.is_in "exceed" msg)
        then (ErrorClass.context_length_error, status_or status 400)
        else (ErrorClass.invalid_request_error, status_or status 400))
    else if e.is_instance deadline_exceeded
    then (ErrorClass.timeout_error, status_or status 408)
    else if e.is_instance service_unavailable
    then (ErrorClass.service_unavailable_error, status_or status 503)
    else if e.is_instance internal_server_error
    then (ErrorClass.server_error, status_or status 500)
    else (ErrorClass.error, status)

-- `map_google_error`
unfoldable pub map_google_error :
    TextSearch → ProviderError GoogleClass → String → Option String → LlmError
map_google_error texts e provider model =
    let (error_class, status) = google_class texts e in
    record {
      error_class = error_class;
      message = e.message;
      provider = some provider;
      model = model;
      original_error = some e.type_name;
      retry_info = none;
      details = [];
      error_code = none;
      status_code = status;
    }
