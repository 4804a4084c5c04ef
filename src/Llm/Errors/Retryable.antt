-- ===== src/Llm/Errors/Retryable.antt =====
-- src/services/llm_runtime/exception_mapper.py: which errors may be tried again.
use ai_financial_copilot.Common.{
  ℕ, suc, ◌≡◌, true, false, ◌||◌, Option, some, String, nat_beq, leb, arith,
}
use ai_financial_copilot.Llm.Errors.{is_retryable}
use ai_financial_copilot.Llm.Errors.Mapper.{
  OpenaiClass, ProviderError, TextSearch, map_openai_error, bad_request_class,
}

-- What the openai package documents of an error that a response with a status raises: the class that
-- stands for the status, and the attribute `status_code`.
pub record IsStatusError (e : ProviderError OpenaiClass) (status : ℕ) : Type 0 where
  pub has_status : e.status_code ≡ some status
  pub rate_limit : e.is_instance OpenaiClass.rate_limit_error ≡ nat_beq status 429
  pub authentication : e.is_instance OpenaiClass.authentication_error ≡ nat_beq status 401
  pub permission_denied : e.is_instance OpenaiClass.permission_denied_error ≡ nat_beq status 403
  pub not_found : e.is_instance OpenaiClass.not_found_error ≡ nat_beq status 404
  pub bad_request : e.is_instance OpenaiClass.bad_request_error ≡ nat_beq status 400
  pub internal_server : e.is_instance OpenaiClass.internal_server_error ≡ leb 500 status
  pub timeout : e.is_instance OpenaiClass.api_timeout_error ≡ false
  pub connection : e.is_instance OpenaiClass.api_connection_error ≡ false
  pub status_error : e.is_instance OpenaiClass.api_status_error ≡ true

bad_request_class-permanent :
    (texts : TextSearch) (e : ProviderError OpenaiClass)
    → is_retryable (bad_request_class texts e) ≡ false
bad_request_class-permanent texts e = ground arith

-- An error that a response with some HTTP status raises keeps that status, and it may be tried again
-- exactly where the status is 429 or at least 500.
pub map_openai_error-retryable :
    (texts : TextSearch) (e : ProviderError OpenaiClass) (provider : String) (model : Option String)
    (status : ℕ)
    → IsStatusError e (suc status)
    → ((map_openai_error texts e provider model).status_code ≡ some (suc status))
      × (is_retryable (map_openai_error texts e provider model).error_class
          ≡ (nat_beq (suc status) 429 || leb 500 (suc status)))
unfolding map_openai_error
map_openai_error-retryable texts e provider model status h =
    ground (arith, bad_request_class-permanent texts e)
