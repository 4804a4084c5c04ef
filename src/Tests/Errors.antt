-- ===== src/Tests/Errors.antt =====
-- A provider's errors: a rate limit with its delay, and a request that is too long.
use ai_financial_copilot.Common.{
  ℕ, ◌≡◌, refl, Bool, true, false, ◌||◌, [], ◌∷◌, none, some, String, nat_beq, leb, string_eq, ◌==◌,
}
use ai_financial_copilot.Common.Dict.{get}
use ai_financial_copilot.Common.Decimal.{read}
use ai_financial_copilot.Llm.Errors.{ErrorClass, is_retryable, to_dict, flag_field}
use ai_financial_copilot.Llm.Errors.Mapper.{
  OpenaiClass, GoogleClass, ProviderError, no_code, TextSearch, map_openai_error,
  map_openai_response_error, map_google_error,
}
use ai_financial_copilot.Llm.Errors.Retryable.{map_openai_error-retryable}

abbrev plain_search : TextSearch
plain_search = record {
  lower = λ s. s;
  is_in = λ part text. part == text;
  parse_float = λ s. some (read 0 s);
}

-- the class that the package raises for a status
abbrev is_raised : ℕ → OpenaiClass → Bool
is_raised status OpenaiClass.rate_limit_error = nat_beq status 429
is_raised status OpenaiClass.authentication_error = nat_beq status 401
is_raised status OpenaiClass.permission_denied_error = nat_beq status 403
is_raised status OpenaiClass.not_found_error = nat_beq status 404
is_raised status OpenaiClass.bad_request_error = nat_beq status 400
is_raised status OpenaiClass.internal_server_error = leb 500 status
is_raised status OpenaiClass.api_timeout_error = false
is_raised status OpenaiClass.api_connection_error = false
is_raised status OpenaiClass.api_status_error = true

abbrev raised : ℕ → String → ProviderError OpenaiClass
raised status message = record {
  is_instance = is_raised status;
  message = message;
  type_name = "APIStatusError";
  status_code = some status;
  code = no_code;
  param = none;
  headers = some (("retry-after", "7") ∷ []);
}

map_openai_error-retryable_example :
    ((map_openai_error plain_search (raised 429 "slow down") "openai" none).status_code ≡ some 429)
    × (is_retryable
          (map_openai_error plain_search (raised 429 "slow down") "openai" none).error_class
        ≡ (nat_beq 429 429 || leb 500 429))
map_openai_error-retryable_example =
    map_openai_error-retryable plain_search (raised 429 "slow down") "openai" none 428 (record {
      has_status = refl;
      rate_limit = refl;
      authentication = refl;
      permission_denied = refl;
      not_found = refl;
      bad_request = refl;
      internal_server = refl;
      timeout = refl;
      connection = refl;
      status_error = refl;
    })

too_long_is_said :
    (map_openai_error plain_search (raised 400 "too long") "openai" none).error_class
    ≡ ErrorClass.context_length_error
unfolding map_openai_error
too_long_is_said = refl

request_timeout_is_final :
    get "is_retryable"
      (to_dict (λ code. none) (map_openai_error plain_search (raised 408 "timeout") "openai" none))
    ≡ some (flag_field false)
unfolding map_openai_error to_dict get
request_timeout_is_final = refl

invalid_prompt_is_final :
    is_retryable (map_openai_response_error (some "invalid_prompt") "no" "openai" none).error_class
    ≡ false
unfolding map_openai_response_error
invalid_prompt_is_final = refl

exhausted_resource : ProviderError GoogleClass
exhausted_resource = record {
  is_instance = λ c. elim c [ GoogleClass.resource_exhausted ↦ true | _ ↦ false ];
  message = "quota";
  type_name = "ResourceExhausted";
  status_code = none;
  code = no_code;
  param = none;
  headers = none;
}

exhausted_resource_is_retried :
    (map_google_error plain_search exhausted_resource "google" none).status_code ≡ some 429
unfolding map_google_error exhausted_resource
exhausted_resource_is_retried = refl
