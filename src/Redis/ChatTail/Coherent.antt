-- ===== src/Redis/ChatTail/Coherent.antt =====
-- src/services/context/conversation_history.py: whichever way it comes, a history is the conversation's.
use ai_financial_copilot.Common.{
  ℕ, ◌⊎◌, All, ◌≤◌, ◌<◌, ◌≡◌, false, List, [], ◌∷◌, ◌++◌, Option, none, some, map,
}
use ai_financial_copilot.Redis.ChatTail.{
  TailValue, cas_populate, MessageRow, MessageJson, rows_before, last_seq, fetch_from_db, load,
  append_to_tail,
}
use ai_financial_copilot.Redis.ChatTail.History.{IsHistory}
use ai_financial_copilot.Redis.ChatTail.Tails.{Recoded, IsUpToDate, latest}

module _ {M J : Type 0} (json : MessageJson M J) (max_messages : ℕ) where
  -- A conversation and its key. A row is written; where it is a message, its append may follow at once,
  -- to a tail that has missed no message, or it may fail, or not be there yet. An append may come
  -- again, or late, to a tail that covers it. A load may fill the tail, also late, with rows it
  -- read before others were written. The key may expire, or be invalidated.
  pub data Run : List (MessageRow M) → Option (TailValue J) → Type 0 where
    start : Run [] none
    posted :
        {rows : List (MessageRow M)} {key : Option (TailValue J)} (r : MessageRow M)
        → r.is_clarification ≡ false
        → last_seq rows < r.seq
        → IsUpToDate rows key
        → Run rows key
        → Run (rows ++ r ∷ []) (append_to_tail json max_messages r.message r.seq key)
    written :
        {rows : List (MessageRow M)} {key : Option (TailValue J)} (r : MessageRow M)
        → last_seq rows < r.seq
        → Run rows key
        → Run (rows ++ r ∷ []) key
    appended_again :
        {rows : List (MessageRow M)} {key : Option (TailValue J)} (r : MessageRow M)
        → r.seq ≤ latest key
        → Run rows key
        → Run rows (append_to_tail json max_messages r.message r.seq key)
    loaded :
        {rows : List (MessageRow M)} {key : Option (TailValue J)} (before_seq : Option ℕ)
        (snapshot_seq : ℕ)
        → rows_before before_seq rows ≡ rows
        → Run rows key
        → Run rows (load json max_messages before_seq snapshot_seq rows key).0
    filled :
        {rows : List (MessageRow M)} {key : Option (TailValue J)}
        (earlier later : List (MessageRow M)) (before_seq : Option ℕ)
        → rows ≡ earlier ++ later
        → rows_before before_seq earlier ≡ earlier
        → All (λ r. last_seq earlier < r.seq) later
        → last_seq earlier ≤ last_seq rows
        → Run rows key
        → Run rows
            (cas_populate
              (map json.model_dump (fetch_from_db max_messages before_seq earlier).0)
              (fetch_from_db max_messages before_seq earlier).1
              key).0
    lapsed :
        {rows : List (MessageRow M)} {key : Option (TailValue J)} → Run rows key → Run rows none

  -- what a load serves from the tail is a history of the rows
  abbrev Serves : List (MessageRow M) → Option (List M) → Type 0
  Serves rows none = Unit
  Serves rows (some msgs) = IsHistory max_messages rows msgs

  -- a message's JSON is read as that message, or refused
  abbrev pub IsReadable : Type 0
  IsReadable =
      (m : M) (j : J)
      → Recoded json m j
      → (json.model_validate j ≡ none) ⊎ (json.model_validate j ≡ some m)
