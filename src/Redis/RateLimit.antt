-- ===== src/Redis/RateLimit.antt =====
-- src/redis_client.py: the sliding window that limits a user's requests. The key holds a sorted set, here
-- in the order of insertion, from the member of a request to its time in milliseconds; the clock
-- is the one of the server. The key itself expires.
pub mod Reference
pub mod Bounds
use ai_financial_copilot.Common.{
  ℕ, ◌+◌, Bool, true, false, List, [], ◌∷◌, String, length, if◌then◌else◌, ltb, leb, filter_by,
  string_eq,
}
use ai_financial_copilot.Common.Dict.{Dict, put}

pub record RateKey : Type 0 where
  pub entries : Dict String ℕ
  pub expires_at : ℕ

abbrev pub no_key : RateKey
no_key = record { entries = []; expires_at = 0 }

-- whether a time is above `now - window`
abbrev pub is_recent : ℕ → ℕ → ℕ → Bool
is_recent window now time = ltb now (time + window)

-- what is left of an expired key
abbrev pub present : ℕ → RateKey → Dict String ℕ
present now key = if leb key.expires_at now then [] else key.entries

-- ZREMRANGEBYSCORE from -inf to `now - window`
abbrev pub remove_old : ℕ → ℕ → Dict String ℕ → Dict String ℕ
remove_old window now d = filter_by (λ e. is_recent window now e.1) d

pub record Verdict : Type 0 where
  pub allowed : Bool
  pub count : ℕ

-- the script `_SLIDING_WINDOW_LUA`, as `check_chat_rate_limit` calls it
unfoldable pub check_rate_limit : ℕ → ℕ → ℕ → String → RateKey → RateKey × Verdict
check_rate_limit window limit now member key =
    let entries = remove_old window now (present now key) in
    let count = length entries in
    if leb limit count
    then (record key { entries = entries }, record { allowed = false; count = count })
    else (
      record { entries = put member now entries; expires_at = now + (window + 60000) },
      record { allowed = true; count = count + 1 },
    )

-- the verdicts on a sequence of requests: their times and their members
unfoldable pub verdicts : ℕ → ℕ → RateKey → List (ℕ × String) → List Verdict
verdicts window limit key [] = []
verdicts window limit key ((now, member) ∷ requests) =
    let (key', v) = check_rate_limit window limit now member key in
    v ∷ verdicts window limit key' requests
