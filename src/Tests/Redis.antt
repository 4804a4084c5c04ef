-- ===== src/Tests/Redis.antt =====
-- The sliding window on four requests, and the cached tail of a short conversation.
use ai_financial_copilot.Common.{
  ℕ, ◌≤◌, ◌≡◌, refl, false, List, [], ◌∷◌, ◌++◌, Option, none, some, String, length, arith,
  string_eq,
}
use ai_financial_copilot.Common.Dict.{put}
use ai_financial_copilot.Redis.RateLimit.{no_key, check_rate_limit, verdicts}
use ai_financial_copilot.Redis.RateLimit.Reference.{reference, verdicts-reference}
use ai_financial_copilot.Redis.RateLimit.Bounds.{within, accepted_times, verdicts-within}
use ai_financial_copilot.Redis.ChatTail.{TailValue, MessageRow, MessageJson, append_to_tail, load}

-- two requests in a window of 1000 ms; the third waits, the fourth finds the first one gone
abbrev four_requests : List (ℕ × String)
four_requests = (100, "a") ∷ (200, "b") ∷ (900, "c") ∷ (1100, "d") ∷ []

verdicts-reference_example :
    verdicts 1000 2 no_key four_requests ≡ reference 1000 2 [] four_requests
verdicts-reference_example = verdicts-reference 1000 2 four_requests (omega arith) (ground arith)

verdicts-within_example :
    length (within 1000 1100 (accepted_times four_requests (verdicts 1000 2 no_key four_requests)))
    ≤ 2
verdicts-within_example = verdicts-within 1000 2 four_requests (omega arith) (ground arith) 1100

third_waits :
    accepted_times four_requests (verdicts 1000 2 no_key four_requests) ≡ 100 ∷ 200 ∷ 1100 ∷ []
unfolding verdicts check_rate_limit put
third_waits = refl

abbrev text_json : MessageJson String String
text_json = record { model_dump = λ m. m; model_validate = λ j. some j; recode = λ j. j }

abbrev row : ℕ → String → MessageRow String
row seq text = record { seq = seq; message = text; is_clarification = false }

abbrev three_rows : List (MessageRow String)
three_rows = row 1 "question" ∷ row 2 "answer" ∷ row 3 "another" ∷ []

abbrev first_rows : List (MessageRow String)
first_rows = row 1 "question" ∷ row 2 "answer" ∷ []

abbrev filled : Option (TailValue String)
filled = (load text_json 2 none 2 first_rows none).0

-- the append of a fourth row has failed, and the third one comes again
abbrev four_rows : List (MessageRow String)
four_rows = three_rows ++ row 4 "lost" ∷ []

tail_is_trimmed :
    (load text_json 2 (some 4) 3 three_rows (append_to_tail text_json 2 "another" 3 filled)).1
    ≡ "answer" ∷ "another" ∷ []
unfolding load append_to_tail
tail_is_trimmed = refl
