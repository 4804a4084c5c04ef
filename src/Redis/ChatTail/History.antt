-- ===== src/Redis/ChatTail/History.antt =====
-- src/services/context/conversation_history.py: what is a history of a conversation.
use ai_financial_copilot.Common.{
  ℕ, zero, suc, ◌+◌, ◌-◌, ◌≤◌, ◌≡◌, refl, sym, ap, ◌∙◌, true, false, List, [], ◌∷◌, ◌++◌, map,
  length, length-append, length-drop, append_assoc, append-nil, take, drop, take-append-drop, arith,
}
use ai_financial_copilot.Redis.ChatTail.{last_n, MessageRow, chat_messages, last_seq}

module _ {ℓ κ} {A : Type ℓ} {B : Type κ} (f : A → B) where
  pub map-append : (xs ys : List A) → map f (xs ++ ys) ≡ map f xs ++ map f ys
  map-append [] ys = refl
  map-append (x ∷ xs) ys = ap (◌∷◌ (f x)) (map-append xs ys)

  pub map-drop : (n : ℕ) (xs : List A) → map f (drop n xs) ≡ drop n (map f xs)
  map-drop zero xs = refl
  map-drop (suc n) [] = refl
  map-drop (suc n) (x ∷ xs) = map-drop n xs

module _ {M : Type 0} where
  -- how many of some rows are history
  abbrev pub chats : List (MessageRow M) → ℕ
  chats rows = length (chat_messages rows)

  chat_messages-append :
      (xs ys : List (MessageRow M))
      → chat_messages (xs ++ ys) ≡ chat_messages xs ++ chat_messages ys
  chat_messages-append [] ys = refl
  chat_messages-append (x ∷ xs) ys = ground (arith, chat_messages-append xs ys)

  chats-le : (rows : List (MessageRow M)) → chats rows ≤ length rows
  chats-le [] = omega arith
  chats-le (r ∷ rows) = ground (arith, chats-le rows)

  chats-drop :
      (m n : ℕ) (rows : List (MessageRow M)) → m ≤ n → chats (drop n rows) ≤ chats (drop m rows)
  chats-drop zero zero rows h = omega arith
  chats-drop (suc m) zero rows h = absurd (omega (arith, h))
  chats-drop m (suc n) [] h = ground arith
  chats-drop zero (suc n) (r ∷ rows) h = ground (arith, chats-drop zero n rows)
  chats-drop (suc m) (suc n) (r ∷ rows) h = chats-drop m n rows (omega (arith, h))

  chats-drop-append :
      (n : ℕ) (xs ys : List (MessageRow M))
      → chats (drop n (xs ++ ys)) ≤ chats (drop n xs) + chats ys
  chats-drop-append zero xs ys = omega (
    arith,
    ap length (chat_messages-append xs ys),
    length-append (chat_messages xs) (chat_messages ys),
  )
  chats-drop-append (suc n) [] ys = ground (arith, chats-drop zero (suc n) ys)
  chats-drop-append (suc n) (x ∷ xs) ys = chats-drop-append n xs ys

  pub last_seq-drop : (n : ℕ) (rows : List (MessageRow M)) → last_seq (drop n rows) ≤ last_seq rows
  last_seq-drop zero rows = omega arith
  last_seq-drop (suc n) [] = omega arith
  last_seq-drop (suc zero) (r ∷ []) = omega arith
  last_seq-drop (suc (suc n)) (r ∷ []) = omega arith
  last_seq-drop (suc n) (r ∷ s ∷ rows) = last_seq-drop n (s ∷ rows)

  pub last_seq-append :
      (rows : List (MessageRow M)) (r : MessageRow M) → last_seq (rows ++ r ∷ []) ≡ r.seq
  last_seq-append [] r = refl
  last_seq-append (s ∷ []) r = refl
  last_seq-append (s ∷ t ∷ rows) r = last_seq-append (t ∷ rows) r

  card_lem :
      (r : MessageRow M) → r.is_clarification ≡ true → ◌≡◌ {A = List M} [] (chat_messages (r ∷ []))
  card_lem r card = rw card refl

  spoken_lem :
      (r : MessageRow M) → r.is_clarification ≡ false → r.message ∷ [] ≡ chat_messages (r ∷ [])
  spoken_lem r spoken = rw spoken refl

  -- What a history is: the end of the messages of the conversation, no more than the maximum, which
  -- leaves out none of the last rows.
  pub record IsHistory (max_messages : ℕ) (rows : List (MessageRow M)) (msgs : List M)
      : Type 0 where
    pub older : List M
    pub whole : older ++ msgs ≡ chat_messages rows
    pub bounded : length msgs ≤ max_messages
    pub recent : chats (last_n max_messages rows) ≤ length msgs

  module _ (max_messages : ℕ) where
    chats-last_n-append :
        (rows : List (MessageRow M)) (r : MessageRow M)
        → chats (last_n max_messages (rows ++ r ∷ []))
          ≤ chats (last_n max_messages rows) + chats (r ∷ [])
    chats-last_n-append rows r = omega (
      arith,
      chats-drop-append (length (rows ++ r ∷ []) - max_messages) rows (r ∷ []),
      chats-drop (length rows - max_messages) (length (rows ++ r ∷ []) - max_messages) rows
          (omega (arith, length-append rows (r ∷ []))),
    )

    chats-last_n : (rows : List (MessageRow M)) → chats (last_n max_messages rows) ≤ max_messages
    chats-last_n rows =
        omega (
          arith,
          chats-le (last_n max_messages rows),
          length-drop (length rows - max_messages) rows,
        )

    pub fetched-IsHistory :
        (rows : List (MessageRow M))
        → IsHistory max_messages rows (chat_messages (last_n max_messages rows))
    fetched-IsHistory rows = record {
      older = chat_messages (take (length rows - max_messages) rows);
      whole =
          sym (chat_messages-append (take (length rows - max_messages) rows) _)
          ∙ ap chat_messages (take-append-drop (length rows - max_messages) rows);
      bounded = chats-last_n rows;
      recent = omega arith;
    }

    -- a clarification card changes nothing
    pub card-IsHistory :
        (rows : List (MessageRow M)) (r : MessageRow M) (msgs : List M)
        → r.is_clarification ≡ true
        → IsHistory max_messages rows msgs
        → IsHistory max_messages (rows ++ r ∷ []) msgs
    card-IsHistory rows r msgs card h = record {
      older = h.older;
      whole =
          h.whole
          ∙ sym (append-nil (chat_messages rows))
          ∙ ap (λ (l : List M). chat_messages rows ++ l) (card_lem r card)
          ∙ sym (chat_messages-append rows (r ∷ []));
      bounded = h.bounded;
      recent = ground (arith, card, h.recent, chats-last_n-append rows r);
    }

    pub append-IsHistory :
        (rows : List (MessageRow M)) (r : MessageRow M) (msgs : List M)
        → r.is_clarification ≡ false
        → IsHistory max_messages rows msgs
        → IsHistory max_messages (rows ++ r ∷ []) (last_n max_messages (msgs ++ r.message ∷ []))
    append-IsHistory rows r msgs spoken h =
        let grown = msgs ++ r.message ∷ [] in
        let cut = length grown - max_messages in
        record {
          older = h.older ++ take cut grown;
          whole =
              append_assoc h.older (take cut grown) (drop cut grown)
              ∙ ap (◌++◌ h.older) (take-append-drop cut grown)
              ∙ sym (append_assoc h.older msgs (r.message ∷ []))
              ∙ ap (λ (l : List M). l ++ r.message ∷ []) h.whole
              ∙ ap (◌++◌ (chat_messages rows)) (spoken_lem r spoken)
              ∙ sym (chat_messages-append rows (r ∷ []));
          bounded = omega (arith, length-drop cut grown);
          recent = omega (
            arith,
            length-drop cut grown,
            length-append msgs (r.message ∷ []),
            chats-last_n (rows ++ r ∷ []),
            chats-last_n-append rows r,
            chats-le (r ∷ []),
            h.recent,
          );
        }
