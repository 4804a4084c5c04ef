-- ===== src/Redis/ChatTail/Tails.antt =====
-- src/services/context/conversation_history.py: what a cached tail holds, and what appending and filling make
-- of it.
use ai_financial_copilot.Common.{
  ℕ, zero, suc, ◌-◌, All, All-append, All-weaken, Each, append-nil, append_assoc, Bool-cases, inl,
  inr, ◌≤◌, ◌<◌, ◌≡◌, refl, sym, ap, subst, ◌∙◌, Bool, true, false, List, [], ◌∷◌, ◌++◌, Option,
  none, some, map, length, drop, if-cases, leb, arith, leb→le,
}
use ai_financial_copilot.Redis.ChatTail.{
  TailValue, malformed, tail_value, or_zero, is_newer, cas_populate, last_n, encoded, MessageRow,
  MessageJson, chat_messages, rows_before, last_seq, fetch_from_db, append_to_tail,
}
use ai_financial_copilot.Redis.ChatTail.History.{
  last_seq-drop, last_seq-append, IsHistory, fetched-IsHistory, card-IsHistory, append-IsHistory,
}

-- A message's JSON: as it is dumped, and after any number of appends, each of which recodes the tail.
module _ {M J : Type 0} (json : MessageJson M J) where
  pub data Recoded (m : M) : J → Type 0 where
    dumped : Recoded m (json.model_dump m)
    again : {j : J} → Recoded m j → Recoded m (json.recode j)

module _ {M : Type 0} where
  -- the messages among some rows are no later than a row
  abbrev pub CoversAll : ℕ → List (MessageRow M) → Type 0
  CoversAll seq rows = All (λ r. r.is_clarification ≡ false → r.seq ≤ seq) rows

module _ {M J : Type 0} where
  -- a tail that is there covers the messages among some rows
  abbrev pub IsUpToDate : List (MessageRow M) → Option (TailValue J) → Type 0
  IsUpToDate rows none = Unit
  IsUpToDate rows (some malformed) = Unit
  IsUpToDate rows (some (tail_value js seq)) = CoversAll (or_zero seq) rows

module _ {J : Type 0} where
  -- the row that a tail has come to
  abbrev pub latest : Option (TailValue J) → ℕ
  latest none = 0
  latest (some malformed) = 0
  latest (some (tail_value js seq)) = or_zero seq

All-after : {A : Type 0} (P : A → Type 0) (xs ys : List A) → All P (xs ++ ys) → All P ys
All-after P [] ys h = h
All-after P (x ∷ xs) ys h = All-after P xs ys h.1

module _ {M J : Type 0} (json : MessageJson M J) (max_messages : ℕ) where
  -- A tail is a history in JSON of the rows up to some point; the rows it misses are later.
  pub record Tail (rows : List (MessageRow M)) (js : List J) (seq : ℕ) : Type 0 where
    pub shown : List (MessageRow M)
    pub missing : List (MessageRow M)
    pub split : rows ≡ shown ++ missing
    pub msgs : List M
    pub coded : Each (Recoded json) msgs js
    pub history : IsHistory max_messages shown msgs
    pub later : All (λ r. seq < r.seq) missing
    pub past : seq ≤ last_seq rows

  abbrev pub Holds : List (MessageRow M) → Option (TailValue J) → Type 0
  Holds rows none = Unit
  Holds rows (some malformed) = Unit
  Holds rows (some (tail_value none seq)) = Unit
  Holds rows (some (tail_value (some js) seq)) = Tail rows js (or_zero seq)

  encoded-Holds :
      (rows : List (MessageRow M)) (js : List J) (seq : ℕ)
      → Tail rows js seq
      → Holds rows (some (tail_value (encoded js) (some seq)))
  encoded-Holds rows [] seq h = tt
  encoded-Holds rows (j ∷ js) seq h = h

  dump-coded : (msgs : List M) → Each (Recoded json) msgs (map json.model_dump msgs)
  dump-coded [] = tt
  dump-coded (m ∷ msgs) = (dumped, dump-coded msgs)

  coded-recode :
      (msgs : List M) (js : List J)
      → Each (Recoded json) msgs js
      → Each (Recoded json) msgs (map json.recode js)
  coded-recode [] [] h = tt
  coded-recode [] (j ∷ js) h = elim h [ ]
  coded-recode (m ∷ msgs) [] h = elim h [ ]
  coded-recode (m ∷ msgs) (j ∷ js) h = (again h.0, coded-recode msgs js h.1)

  coded-snoc :
      (msgs : List M) (js : List J) (m : M)
      → Each (Recoded json) msgs js
      → Each (Recoded json) (msgs ++ m ∷ []) (js ++ json.model_dump m ∷ [])
  coded-snoc [] [] m h = (dumped, tt)
  coded-snoc [] (j ∷ js) m h = elim h [ ]
  coded-snoc (n ∷ msgs) [] m h = elim h [ ]
  coded-snoc (n ∷ msgs) (j ∷ js) m h = (h.0, coded-snoc msgs js m h.1)

  coded-drop :
      (n : ℕ) (msgs : List M) (js : List J)
      → Each (Recoded json) msgs js
      → Each (Recoded json) (drop n msgs) (drop n js)
  coded-drop zero msgs js h = h
  coded-drop (suc n) [] [] h = tt
  coded-drop (suc n) [] (j ∷ js) h = elim h [ ]
  coded-drop (suc n) (m ∷ msgs) [] h = elim h [ ]
  coded-drop (suc n) (m ∷ msgs) (j ∷ js) h = coded-drop n msgs js h.1

  coded-length :
      (msgs : List M) (js : List J) → Each (Recoded json) msgs js → length js ≡ length msgs
  coded-length [] [] h = refl
  coded-length [] (j ∷ js) h = elim h [ ]
  coded-length (m ∷ msgs) [] h = elim h [ ]
  coded-length (m ∷ msgs) (j ∷ js) h = ap suc (coded-length msgs js h.1)

  coded-last_n :
      (msgs : List M) (js : List J)
      → Each (Recoded json) msgs js
      → Each (Recoded json) (last_n max_messages msgs) (last_n max_messages js)
  coded-last_n msgs js h =
      subst (λ (n : ℕ). Each (Recoded json) (last_n max_messages msgs) (drop (n - max_messages) js))
        (sym (coded-length msgs js h)) (coded-drop (length msgs - max_messages) msgs js h)

  -- a tail that covers every message is a history of all the rows
  cards-IsHistory :
      (shown missing : List (MessageRow M)) (msgs : List M) (seq covered : ℕ)
      → IsHistory max_messages shown msgs
      → All (λ r. seq < r.seq) missing
      → CoversAll covered missing
      → covered ≤ seq
      → IsHistory max_messages (shown ++ missing) msgs
  cards-IsHistory shown [] msgs seq covered h later covers le =
      subst (λ l. IsHistory max_messages l msgs) (sym (append-nil shown)) h
  cards-IsHistory shown (r ∷ missing) msgs seq covered h later covers le =
      subst (λ l. IsHistory max_messages l msgs) (append_assoc shown (r ∷ []) missing)
        (cards-IsHistory (shown ++ r ∷ []) missing msgs seq covered
          (card-IsHistory max_messages shown r msgs is_card h) later.1 covers.1 le)
    where
      is_card : r.is_clarification ≡ true
      is_card = elim (Bool-cases r.is_clarification) [
        | inl e ↦ e
        | inr e ↦ absurd (omega (arith, later.0, covers.0 e, le))
      ]

  pub whole-IsHistory :
      (rows : List (MessageRow M)) (js : List J) (seq covered : ℕ) (t : Tail rows js seq)
      → CoversAll covered rows
      → covered ≤ seq
      → IsHistory max_messages rows t.msgs
  whole-IsHistory rows js seq covered t covers le =
      subst (λ l. IsHistory max_messages l t.msgs) (sym t.split)
        (cards-IsHistory t.shown t.missing t.msgs seq covered t.history t.later
          (All-after (λ r. r.is_clarification ≡ false → r.seq ≤ covered) t.shown t.missing
            (subst (CoversAll covered) t.split covers))
          le)

  pub append-Holds :
      (rows : List (MessageRow M)) (r : MessageRow M) (key : Option (TailValue J))
      → r.is_clarification ≡ false
      → last_seq rows < r.seq
      → IsUpToDate rows key
      → Holds rows key
      → Holds (rows ++ r ∷ []) (append_to_tail json max_messages r.message r.seq key)
  unfolding append_to_tail
  append-Holds rows r none spoken later upto h = tt
  append-Holds rows r (some malformed) spoken later upto h = tt
  append-Holds rows r (some (tail_value none seq)) spoken later upto h =
      if-cases (λ (p : Option (TailValue J) × Bool). Holds (rows ++ r ∷ []) p.0)
        (leb r.seq (or_zero seq)) (some (tail_value none seq), false) (none, false) (λ _. tt)
        (λ _. tt)
  append-Holds rows r (some (tail_value (some js) seq)) spoken later upto h =
      if-cases (λ (p : Option (TailValue J) × Bool). Holds (rows ++ r ∷ []) p.0)
        (leb r.seq (or_zero seq)) _ _
        (λ old. absurd (omega (arith, later, h.past, leb→le r.seq (or_zero seq) old)))
        (λ _.
          encoded-Holds (rows ++ r ∷ [])
            (map json.recode (last_n max_messages (js ++ json.model_dump r.message ∷ []))) r.seq
            (record {
              shown = rows ++ r ∷ [];
              missing = [];
              split = sym (append-nil (rows ++ r ∷ []));
              msgs = last_n max_messages (h.msgs ++ r.message ∷ []);
              coded = coded-recode _ _ (
                  coded-last_n (h.msgs ++ r.message ∷ []) (js ++ json.model_dump r.message ∷ [])
                    (coded-snoc h.msgs js r.message h.coded));
              history =
                  append-IsHistory max_messages rows r h.msgs spoken
                    (whole-IsHistory rows js (or_zero seq) (or_zero seq) h upto (omega arith));
              later = tt;
              past = omega (arith, last_seq-append rows r);
            }))

  pub write-Holds :
      (rows : List (MessageRow M)) (r : MessageRow M) (key : Option (TailValue J))
      → last_seq rows < r.seq
      → Holds rows key
      → Holds (rows ++ r ∷ []) key
  write-Holds rows r none later h = tt
  write-Holds rows r (some malformed) later h = tt
  write-Holds rows r (some (tail_value none seq)) later h = tt
  write-Holds rows r (some (tail_value (some js) seq)) later h = record {
    shown = h.shown;
    missing = h.missing ++ r ∷ [];
    split =
        ap (λ (l : List (MessageRow M)). l ++ r ∷ []) h.split
        ∙ append_assoc h.shown h.missing (r ∷ []);
    msgs = h.msgs;
    coded = h.coded;
    history = h.history;
    later =
        All-append (λ (s : MessageRow M). or_zero seq < s.seq) h.missing (r ∷ []) h.later
          (omega (arith, later, h.past), tt);
    past = omega (arith, last_seq-append rows r, later, h.past);
  }

  pub again-Holds :
      (rows : List (MessageRow M)) (r : MessageRow M) (key : Option (TailValue J))
      → r.seq ≤ latest key
      → Holds rows key
      → Holds rows (append_to_tail json max_messages r.message r.seq key)
  unfolding append_to_tail
  again-Holds rows r none old h = tt
  again-Holds rows r (some malformed) old h = tt
  again-Holds rows r (some (tail_value js seq)) old h =
      if-cases (λ (p : Option (TailValue J) × Bool). Holds rows p.0) (leb r.seq (or_zero seq))
        (some (tail_value js seq), false) _ (λ _. h) (λ new. absurd (ground (arith, old, new)))

  pub populate-Holds :
      (rows : List (MessageRow M)) (js : List J) (new_seq : ℕ) (key : Option (TailValue J))
      → Tail rows js new_seq
      → Holds rows key
      → Holds rows (cas_populate js new_seq key).0
  populate-Holds rows js new_seq none t h = t
  populate-Holds rows js new_seq (some malformed) t h = t
  populate-Holds rows js new_seq (some (tail_value old seq)) t h =
      if-cases (λ (p : Option (TailValue J) × Bool). Holds rows p.0) (is_newer seq new_seq)
        (some (tail_value old seq), false) (some (tail_value (some js) (some new_seq)), true)
        (λ _. h) (λ _. t)

  -- filling never takes a tail back
  pub latest-populate :
      (js : List J) (new_seq : ℕ) (key : Option (TailValue J))
      → latest key ≤ latest (cas_populate js new_seq key).0
  latest-populate js new_seq none = omega arith
  latest-populate js new_seq (some malformed) = omega arith
  latest-populate js new_seq (some (tail_value old none)) = omega arith
  latest-populate js new_seq (some (tail_value old (some seq))) = ground arith

  pub fetched-Tail :
      (rows earlier later : List (MessageRow M)) (before_seq : Option ℕ)
      → rows ≡ earlier ++ later
      → rows_before before_seq earlier ≡ earlier
      → All (λ r. last_seq earlier < r.seq) later
      → last_seq earlier ≤ last_seq rows
      → Tail rows
          (map json.model_dump (fetch_from_db max_messages before_seq earlier).0)
          (fetch_from_db max_messages before_seq earlier).1
  fetched-Tail rows earlier later before_seq parts all after grown =
      let low = last_seq-drop (length earlier - max_messages) earlier in
      rw all (record {
        shown = earlier;
        missing = later;
        split = parts;
        msgs = chat_messages (last_n max_messages earlier);
        coded = dump-coded (chat_messages (last_n max_messages earlier));
        history = fetched-IsHistory max_messages earlier;
        later =
            All-weaken (λ (r : MessageRow M) (h : last_seq earlier < r.seq). omega (arith, h, low))
              later after;
        past = omega (arith, low, grown);
      })

  pub full-Tail :
      (before_seq : Option ℕ) (rows : List (MessageRow M))
      → rows_before before_seq rows ≡ rows
      → Tail rows
          (map json.model_dump (fetch_from_db max_messages before_seq rows).0)
          (fetch_from_db max_messages before_seq rows).1
  full-Tail before_seq rows all =
      fetched-Tail rows rows [] before_seq (sym (append-nil rows)) all tt (omega arith)
