-- ===== src/Llm/Errors.antt =====
-- src/services/llm_runtime/exceptions.py: the hierarchy of errors, and the view of one as a dictionary.
-- Seconds (floats) are fixed-point numbers; the table of messages for status codes is a parameter.
pub mod Mapper
pub mod Retryable
use ai_financial_copilot.Common.{
  ℕ, Bool, true, false, List, [], ◌∷◌, ◌++◌, Option, none, some, String, if◌then◌else◌, string_eq,
  ◌==◌,
}
use ai_financial_copilot.Common.Dict.{Dict}

pub record RetryInfo : Type 0 where
  pub retry_after_seconds : Option ℕ
  pub attempt : ℕ
  pub max_attempts : ℕ

-- the classes, by their names after "LLM"
pub data ErrorClass : Type 0 where
  error transient_error rate_limit_error service_unavailable_error timeout_error : ErrorClass
  connection_error server_error permanent_error authentication_error permission_error : ErrorClass
  invalid_request_error reasoning_replay_error feature_unavailable_error not_found_error :
      ErrorClass
  content_filter_error context_length_error quota_exceeded_error : ErrorClass

abbrev pub class_name : ErrorClass → String
class_name error = "LLMError"
class_name transient_error = "LLMTransientError"
class_name rate_limit_error = "LLMRateLimitError"
class_name service_unavailable_error = "LLMServiceUnavailableError"
class_name timeout_error = "LLMTimeoutError"
class_name connection_error = "LLMConnectionError"
class_name server_error = "LLMServerError"
class_name permanent_error = "LLMPermanentError"
class_name authentication_error = "LLMAuthenticationError"
class_name permission_error = "LLMPermissionError"
class_name invalid_request_error = "LLMInvalidRequestError"
class_name reasoning_replay_error = "LLMReasoningReplayError"
class_name feature_unavailable_error = "LLMFeatureUnavailableError"
class_name not_found_error = "LLMNotFoundError"
class_name content_filter_error = "LLMContentFilterError"
class_name context_length_error = "LLMContextLengthError"
class_name quota_exceeded_error = "LLMQuotaExceededError"

-- the class that each one extends
abbrev pub base : ErrorClass → Option ErrorClass
base error = none
base transient_error = some error
base rate_limit_error = some transient_error
base service_unavailable_error = some transient_error
base timeout_error = some transient_error
base connection_error = some transient_error
base server_error = some transient_error
base permanent_error = some error
base authentication_error = some permanent_error
base permission_error = some permanent_error
base invalid_request_error = some permanent_error
base reasoning_replay_error = some invalid_request_error
base feature_unavailable_error = some permission_error
base not_found_error = some permanent_error
base content_filter_error = some permanent_error
base context_length_error = some permanent_error
base quota_exceeded_error = some permanent_error

-- `is_retryable`, as a class states or inherits it: by the bases that stand between it and the root
abbrev pub retryable_by : Option ErrorClass → Bool
retryable_by none = false
retryable_by (some transient_error) = true
retryable_by (some c) = false

abbrev pub is_retryable : ErrorClass → Bool
is_retryable transient_error = true
is_retryable c = retryable_by (base c)

pub record LlmError : Type 0 where
  pub error_class : ErrorClass
  pub message : String
  pub provider : Option String
  pub model : Option String
  -- the name of the original error's type
  pub original_error : Option String
  pub retry_info : Option RetryInfo
  pub details : Dict String String
  pub error_code : Option String
  pub status_code : Option ℕ

-- an entry of `error_maps.yaml`
pub record ErrorMessages : Type 0 where
  pub internal : Option String
  pub user : Option String

pub data Field : Type 0 where
  text_field : String → Field
  flag_field : Bool → Field
  number_field : ℕ → Field
  details_field : Dict String String → Field
  retry_field : RetryInfo → Field

-- a field that is set where its text is truthy
abbrev pub text_entry : String → Option String → Dict String Field
text_entry key none = []
text_entry key (some s) = if s == "" then [] else (key, text_field s) ∷ []

abbrev pub some_entry : String → Option String → Dict String Field
some_entry key none = []
some_entry key (some s) = (key, text_field s) ∷ []

abbrev pub message_entries : Option ErrorMessages → Dict String Field
message_entries none = []
message_entries (some m) =
    some_entry "internal_message" m.internal ++ some_entry "user_message" m.user

abbrev pub status_entries : (ℕ → Option ErrorMessages) → Option ℕ → Dict String Field
status_entries error_maps none = []
status_entries error_maps (some code) =
    ("status_code", number_field code) ∷ message_entries (error_maps code)

abbrev pub details_entry : Dict String String → Dict String Field
details_entry [] = []
details_entry (d ∷ details) = ("details", details_field (d ∷ details)) ∷ []

abbrev pub retry_entry : Option RetryInfo → Dict String Field
retry_entry none = []
retry_entry (some info) = ("retry_info", retry_field info) ∷ []

-- `LLMError.to_dict`, as a dictionary
unfoldable pub to_dict : (ℕ → Option ErrorMessages) → LlmError → Dict String Field
to_dict error_maps e =
    ("error_type", text_field (class_name e.error_class))
      ∷ ("message", text_field e.message)
      ∷ ("is_retryable", flag_field (is_retryable e.error_class))
      ∷ text_entry "provider" e.provider
    ++ text_entry "model" e.model
    ++ text_entry "error_code" e.error_code
    ++ status_entries error_maps e.status_code
    ++ details_entry e.details
    ++ retry_entry e.retry_info
    ++ some_entry "original_error_type" e.original_error
