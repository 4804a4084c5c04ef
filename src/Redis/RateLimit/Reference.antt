-- ===== src/Redis/RateLimit/Reference.antt =====
-- src/redis_client.py: the sliding window does what counting the accepted requests does.
use ai_financial_copilot.Common.{
  ℕ, ◌+◌, ◌≤◌, ◌≡◌, refl, sym, ap, ◌∙◌, Bool, true, false, List, [], ◌∷◌, ◌++◌, String, length,
  if◌then◌else◌, leb, filter_by, All, All-append, elem, string_eq, Distinct, arith, Bool-cases, inl,
  inr, if-cases, leb→le, suc, All-weaken, subst,
}
use ai_financial_copilot.Common.Dict.{Dict, put, keys, values, has, put_of_not_has, put-All}
use ai_financial_copilot.Redis.RateLimit.{
  RateKey, no_key, is_recent, present, remove_old, Verdict, check_rate_limit, verdicts,
}

-- the times that count at some moment
abbrev pub recent : ℕ → ℕ → List ℕ → List ℕ
recent window now times = filter_by (is_recent window now) times

-- a request on a log of the accepted ones
abbrev pub judge : ℕ → ℕ → ℕ → List ℕ → Verdict
judge window limit now accepted =
    let count = length (recent window now accepted) in
    if leb limit count
    then record { allowed = false; count = count }
    else record { allowed = true; count = count + 1 }

abbrev pub logged : Bool → ℕ → List ℕ → List ℕ
logged true now accepted = accepted ++ now ∷ []
logged false now accepted = accepted

-- The reference: a request is allowed where fewer than the limit have been accepted within the
-- window before it.
unfoldable pub reference : ℕ → ℕ → List ℕ → List (ℕ × String) → List Verdict
reference window limit accepted [] = []
reference window limit accepted ((now, member) ∷ requests) =
    let v = judge window limit now accepted in
    v ∷ reference window limit (logged v.allowed now accepted) requests

-- the requests come in the order of their times
abbrev pub IsChronological : ℕ → List (ℕ × String) → Type 0
IsChronological last [] = Unit
IsChronological last ((now, member) ∷ requests) = (last ≤ now) × IsChronological now requests

abbrev pub members : List (ℕ × String) → List String
members [] = []
members ((now, member) ∷ requests) = member ∷ members requests

module _ (window limit : ℕ) where
  recent-append :
      (now : ℕ) (xs ys : List ℕ)
      → recent window now (xs ++ ys) ≡ recent window now xs ++ recent window now ys
  recent-append now [] ys = refl
  recent-append now (x ∷ xs) ys = ground (arith, recent-append now xs ys)

  recent-recent :
      (now later : ℕ) (xs : List ℕ)
      → now ≤ later
      → recent window later (recent window now xs) ≡ recent window later xs
  recent-recent now later [] h = refl
  recent-recent now later (x ∷ xs) h = ground (arith, h, recent-recent now later xs h)

  values-remove_old :
      (now : ℕ) (d : Dict String ℕ)
      → values (remove_old window now d) ≡ recent window now (values d)
  values-remove_old now [] = refl
  values-remove_old now ((m, t) ∷ d) = ground (arith, values-remove_old now d)

  recent_of_old :
      (now end : ℕ) (times : List ℕ)
      → All (λ t. t + window ≤ end) times
      → end ≤ now
      → recent window now times ≡ []
  recent_of_old now end [] h e = refl
  recent_of_old now end (t ∷ times) h e = ground (arith, h.0, e, recent_of_old now end times h.1 e)

  -- The key holds what counts of the log, its times are over when it expires, and none of its
  -- members comes again.
  record Holds (key : RateKey) (accepted : List ℕ) (last : ℕ) (later : List String) : Type 0 where
    counts :
        (now : ℕ) → last ≤ now → recent window now (values key.entries) ≡ recent window now accepted
    expires : All (λ t. t + window ≤ key.expires_at) (values key.entries)
    past : All (λ t. t ≤ last) (values key.entries)
    fresh : All (λ m. elem m later ≡ false) (keys key.entries)

  module _ {κ} (P : ℕ → Type κ) where
    remove_old-values :
        (now : ℕ) (d : Dict String ℕ) → All P (values d) → All P (values (remove_old window now d))
    remove_old-values now [] h = tt
    remove_old-values now ((m, t) ∷ d) h =
        if-cases (λ (e : Dict String ℕ). All P (values e)) (is_recent window now t) _ _
          (λ _. (h.0, remove_old-values now d h.1)) (λ _. remove_old-values now d h.1)

  module _ {κ} (P : String → Type κ) where
    remove_old-keys :
        (now : ℕ) (d : Dict String ℕ) → All P (keys d) → All P (keys (remove_old window now d))
    remove_old-keys now [] h = tt
    remove_old-keys now ((m, t) ∷ d) h =
        if-cases (λ (e : Dict String ℕ). All P (keys e)) (is_recent window now t) _ _
          (λ _. (h.0, remove_old-keys now d h.1)) (λ _. remove_old-keys now d h.1)

  not_has :
      (m : String) (later : List String) (d : Dict String ℕ)
      → All (λ k. elem k (m ∷ later) ≡ false) (keys d)
      → has m d ≡ false
  unfolding has
  not_has m later [] h = refl
  not_has m later ((k, t) ∷ d) h = ground (arith, h.0, not_has m later d h.1)

  fresh-rest :
      (m : String) (later ks : List String)
      → All (λ k. elem k (m ∷ later) ≡ false) ks
      → All (λ k. elem k later ≡ false) ks
  fresh-rest m later [] h = tt
  fresh-rest m later (k ∷ ks) h = (ground (arith, h.0), fresh-rest m later ks h.1)

  values-append : (d e : Dict String ℕ) → values (d ++ e) ≡ values d ++ values e
  values-append [] e = refl
  values-append ((k, v) ∷ d) e = ap (◌∷◌ v) (values-append d e)

  keys-append : (d e : Dict String ℕ) → keys (d ++ e) ≡ keys d ++ keys e
  keys-append [] e = refl
  keys-append ((k, v) ∷ d) e = ap (◌∷◌ k) (keys-append d e)

  length-values : (d : Dict String ℕ) → length (values d) ≡ length d
  length-values [] = refl
  length-values ((k, v) ∷ d) = ap suc (length-values d)

  abbrev left : ℕ → RateKey → Dict String ℕ
  left now key = remove_old window now (present now key)

  module _ {key : RateKey} {accepted : List ℕ} {last : ℕ} {later : List String} (m : String)
      (now : ℕ) (holds : Holds key accepted last (m ∷ later)) (order : last ≤ now) where
    values-left : values (left now key) ≡ recent window now accepted
    values-left = elim (Bool-cases (leb key.expires_at now)) [
      | inl over ↦ rw over (
          sym (
            recent_of_old now key.expires_at (values key.entries) holds.expires
              (leb→le key.expires_at now over))
          ∙ holds.counts now order)
      | inr alive ↦ rw alive (values-remove_old now key.entries ∙ holds.counts now order)
    ]

    left-past : All (λ t. t ≤ now) (values (left now key))
    left-past =
        remove_old-values (λ t. t ≤ now) now (present now key)
          (if-cases (λ (e : Dict String ℕ). All (λ t. t ≤ now) (values e)) (leb key.expires_at now)
            [] key.entries (λ _. tt)
            (λ _.
              All-weaken (λ (t : ℕ) (h : t ≤ last). omega (arith, h, order)) (values key.entries)
                holds.past))

    left-fresh : All (λ k. elem k (m ∷ later) ≡ false) (keys (left now key))
    left-fresh =
        remove_old-keys (λ k. elem k (m ∷ later) ≡ false) now (present now key)
          (if-cases (λ (e : Dict String ℕ). All (λ k. elem k (m ∷ later) ≡ false) (keys e))
            (leb key.expires_at now) [] key.entries (λ _. tt) (λ _. holds.fresh))

    length-left : length (left now key) ≡ length (recent window now accepted)
    length-left = sym (length-values (left now key)) ∙ ap length values-left

    left-Holds : Holds (record key { entries = left now key }) accepted now later
    left-Holds = record {
      counts = λ n h. ap (recent window n) values-left ∙ recent-recent now n accepted h;
      expires =
          remove_old-values (λ t. t + window ≤ key.expires_at) now (present now key)
            (if-cases (λ (e : Dict String ℕ). All (λ t. t + window ≤ key.expires_at) (values e))
              (leb key.expires_at now) [] key.entries (λ _. tt) (λ _. holds.expires));
      past = left-past;
      fresh = fresh-rest m later (keys (left now key)) left-fresh;
    }

    abbrev put_key : RateKey
    put_key = record { entries = put m now (left now key); expires_at = now + (window + 60000) }

    put-left : put m now (left now key) ≡ left now key ++ (m, now) ∷ []
    put-left = put_of_not_has m now (left now key) (not_has m later (left now key) left-fresh)

    values-put : values (put m now (left now key)) ≡ recent window now accepted ++ now ∷ []
    values-put =
        ap values put-left
        ∙ values-append (left now key) ((m, now) ∷ [])
        ∙ ap (λ (l : List ℕ). l ++ now ∷ []) values-left

    put-past : All (λ t. t ≤ now) (values (put m now (left now key)))
    put-past = put-All (λ t. t ≤ now) m now (left now key) (omega arith) left-past

    put-Holds : elem m later ≡ false → Holds put_key (accepted ++ now ∷ []) now later
    put-Holds single = record {
      counts = λ n h.
          ap (recent window n) values-put
          ∙ recent-append n (recent window now accepted) (now ∷ [])
          ∙ ap (λ (l : List ℕ). l ++ recent window n (now ∷ [])) (recent-recent now n accepted h)
          ∙ sym (recent-append n accepted (now ∷ []));
      expires =
          All-weaken (λ (t : ℕ) (h : t ≤ now). omega (arith, h)) (values (put m now (left now key)))
            put-past;
      past = put-past;
      fresh =
          subst (All (λ k. elem k later ≡ false))
            (sym (ap keys put-left ∙ keys-append (left now key) ((m, now) ∷ [])))
            (All-append (λ k. elem k later ≡ false) (keys (left now key)) (m ∷ [])
              (fresh-rest m later (keys (left now key)) left-fresh) (single, tt));
    }

    -- one request: the verdict of the reference, on a key that goes on holding its log
    check_rate_limit-judge :
        elem m later ≡ false
        → ((check_rate_limit window limit now m key).1 ≡ judge window limit now accepted)
          × Holds
              (check_rate_limit window limit now m key).0
              (logged (judge window limit now accepted).allowed now accepted)
              now
              later
    unfolding check_rate_limit
    check_rate_limit-judge single = elim (Bool-cases (leb limit (length (left now key)))) [
      | inl full ↦
          let same : leb limit (length (recent window now accepted)) ≡ true =
            rw (← length-left) full in
          rw (full, same) (rw length-left refl, left-Holds)
      | inr room ↦
          let same : leb limit (length (recent window now accepted)) ≡ false =
            rw (← length-left) room in
          rw (room, same) (rw length-left refl, put-Holds single)
    ]

  verdicts_from-reference :
      (requests : List (ℕ × String)) (key : RateKey) (accepted : List ℕ) (last : ℕ)
      → Holds key accepted last (members requests)
      → IsChronological last requests
      → Distinct (members requests)
      → verdicts window limit key requests ≡ reference window limit accepted requests
  unfolding verdicts reference
  verdicts_from-reference [] key accepted last holds order once = refl
  verdicts_from-reference ((now, m) ∷ requests) key accepted last holds order once =
      let (same, kept) = check_rate_limit-judge m now holds order.0 once.0 in
      rw same (
        ap (◌∷◌ (judge window limit now accepted)) (
          verdicts_from-reference requests (check_rate_limit window limit now m key).0
            (logged (judge window limit now accepted).allowed now accepted) now kept order.1
            once.1))

-- Where each request comes with a member of its own, in the order of time, the sliding window gives
-- each the verdict, and the count, of the reference that logs the accepted requests: the removal of
-- old entries, the expiry of the key and the rejected requests change nothing.
pub verdicts-reference :
    (window limit : ℕ) (requests : List (ℕ × String))
    → IsChronological 0 requests
    → Distinct (members requests)
    → verdicts window limit no_key requests ≡ reference window limit [] requests
verdicts-reference window limit requests order once =
    verdicts_from-reference window limit requests no_key [] 0
      (record { counts = λ now h. refl; expires = tt; past = tt; fresh = tt }) order once
