-- ===== src/Redis/ChatTail.antt =====
-- src/redis_client.py and src/services/context/conversation_history.py: the last messages of a
-- conversation, kept in Redis beside the rows of PostgreSQL. `M` is a message, `J` its JSON. The
-- key's lifetime is left out: a key may be gone at any moment.
pub mod History
pub mod Tails
pub mod Coherent
use ai_financial_copilot.Common.{
  ℕ, ◌-◌, Bool, true, false, not, List, [], ◌∷◌, ◌++◌, Option, none, some, map, length, drop,
  if◌then◌else◌, leb, ltb, filter_by,
}

-- what is stored: a JSON table with `messages`, where it is an array, and `latest_seq`; or anything else
pub data TailValue (J : Type 0) : Type 0 where
  malformed : TailValue J
  tail_value : Option (List J) → Option ℕ → TailValue J

abbrev pub or_zero : Option ℕ → ℕ
or_zero none = 0
or_zero (some n) = n

abbrev pub is_newer : Option ℕ → ℕ → Bool
is_newer none new_seq = false
is_newer (some cur_seq) new_seq = leb new_seq cur_seq

-- xs[-n:], for a positive n
abbrev pub last_n {ℓ} : {A : Type ℓ} → ℕ → List A → List A
last_n n xs = drop (length xs - n) xs

module _ {J : Type 0} where
  -- `get_chat_tail`
  abbrev pub get_chat_tail : Option (TailValue J) → Option (List J × ℕ)
  get_chat_tail none = none
  get_chat_tail (some malformed) = none
  get_chat_tail (some (tail_value none seq)) = none
  get_chat_tail (some (tail_value (some msgs) seq)) = some (msgs, or_zero seq)

  -- `_CAS_POPULATE_LUA`, as `cas_populate_chat_tail` calls it
  abbrev pub cas_populate : List J → ℕ → Option (TailValue J) → Option (TailValue J) × Bool
  cas_populate msgs new_seq none = (some (tail_value (some msgs) (some new_seq)), true)
  cas_populate msgs new_seq (some malformed) = (some (tail_value (some msgs) (some new_seq)), true)
  cas_populate msgs new_seq (some (tail_value old seq)) =
      if is_newer seq new_seq
      then (some (tail_value old seq), false)
      else (some (tail_value (some msgs) (some new_seq)), true)

  -- An empty table is encoded as an object, which is no array.
  abbrev pub encoded : List J → Option (List J)
  encoded [] = none
  encoded (m ∷ msgs) = some (m ∷ msgs)

  -- what cjson encodes of what it has decoded: an empty array within a message becomes an object
  module _ (recode : J → J) where
    abbrev pub append_to : ℕ → J → ℕ → Option (List J) → Option (TailValue J) × Bool
    append_to max_messages msg new_seq none = (none, false)
    append_to max_messages msg new_seq (some msgs) = (
      some (
          tail_value (encoded (map recode (last_n max_messages (msgs ++ msg ∷ []))))
            (some new_seq)),
      true,
    )

    -- `_APPEND_TRIM_LUA`, as `append_chat_tail` calls it
    abbrev pub append_trim : ℕ → J → ℕ → Option (TailValue J) → Option (TailValue J) × Bool
    append_trim max_messages msg new_seq none = (none, false)
    append_trim max_messages msg new_seq (some malformed) = (none, false)
    append_trim max_messages msg new_seq (some (tail_value msgs seq)) =
        if leb new_seq (or_zero seq)
        then (some (tail_value msgs seq), false)
        else append_to max_messages msg new_seq msgs

-- a row of the table of messages; the kind "clarification" is a flag
pub record MessageRow (M : Type 0) : Type 0 where
  pub seq : ℕ
  pub message : M
  pub is_clarification : Bool

-- `ChatMessage.model_dump` and `ChatMessage.model_validate`, where `none` is a ValidationError, and a
-- message's JSON after cjson has decoded and encoded it
pub record MessageJson (M J : Type 0) : Type 0 where
  pub model_dump : M → J
  pub model_validate : J → Option M
  pub recode : J → J

module _ {M : Type 0} where
  abbrev pub rows_before : Option ℕ → List (MessageRow M) → List (MessageRow M)
  rows_before none rows = rows
  rows_before (some seq) rows = filter_by (λ r. ltb r.seq seq) rows

  -- `MessageRepository.get_recent`, on the rows in ascending order
  abbrev pub get_recent : ℕ → Option ℕ → List (MessageRow M) → List (MessageRow M)
  get_recent limit before_seq rows = last_n limit (rows_before before_seq rows)

  -- clarification cards are never history
  abbrev pub chat_messages : List (MessageRow M) → List M
  chat_messages rows =
      map (λ (r : MessageRow M). r.message) (filter_by (λ r. not r.is_clarification) rows)

  abbrev pub last_seq : List (MessageRow M) → ℕ
  last_seq [] = 0
  last_seq (r ∷ []) = r.seq
  last_seq (r ∷ s ∷ rows) = last_seq (s ∷ rows)

  -- `_fetch_from_db`
  abbrev pub fetch_from_db : ℕ → Option ℕ → List (MessageRow M) → List M × ℕ
  fetch_from_db max_messages before_seq rows =
      let recent = get_recent max_messages before_seq rows in
      (chat_messages recent, last_seq recent)

  abbrev pub cons_valid : Option M → Option (List M) → Option (List M)
  cons_valid none rest = none
  cons_valid (some m) none = none
  cons_valid (some m) (some ms) = some (m ∷ ms)

module _ {M J : Type 0} where
  abbrev pub validate_all : MessageJson M J → List J → Option (List M)
  validate_all json [] = some []
  validate_all json (j ∷ js) = cons_valid (json.model_validate j) (validate_all json js)

  -- the messages of a cached tail that is new enough and valid
  abbrev pub cached_messages : MessageJson M J → ℕ → Option (List J × ℕ) → Option (List M)
  cached_messages json snapshot_seq none = none
  cached_messages json snapshot_seq (some (msgs, seq)) =
      if leb snapshot_seq seq then validate_all json msgs else none

  abbrev pub load_from :
      MessageJson M J
      → Option (TailValue J)
      → List M × ℕ
      → Option (List M)
      → Option (TailValue J) × List M
  load_from json key fetched (some messages) = (key, messages)
  load_from json key (messages, latest_seq) none =
      ((cas_populate (map json.model_dump messages) latest_seq key).0, messages)

  -- `ConversationHistory.load`
  unfoldable pub load :
      MessageJson M J
      → ℕ
      → Option ℕ
      → ℕ
      → List (MessageRow M)
      → Option (TailValue J)
      → Option (TailValue J) × List M
  load json max_messages before_seq snapshot_seq rows key =
      load_from json key (fetch_from_db max_messages before_seq rows)
        (cached_messages json snapshot_seq (get_chat_tail key))

  -- `append_user`, `append_assistant`, where Redis does not fail. The maximum is the configured one, as
  -- it is for a ConversationHistory that is given none of its own.
  unfoldable pub append_to_tail :
      MessageJson M J → ℕ → M → ℕ → Option (TailValue J) → Option (TailValue J)
  append_to_tail json max_messages message seq key =
      (append_trim json.recode max_messages (json.model_dump message) seq key).0
