-- ===== src/Ingestion/Recovery/Attempts.antt =====
-- src/services/ingestion/recovery.py: what one attempt to enqueue a document does.
use ai_financial_copilot.Common.{
  ℕ, ◌+◌, ◌≡◌, refl, sym, ◌∙◌, ap, Bool, true, false, [], ◌∷◌, ◌++◌, none, some, if-cases,
  Bool-cases, inl, inr, nat_eq, string_eq, ◌==◌, ==_iff, arith,
}
use ai_financial_copilot.Common.Dict.{Dict, get, put, get-put}
use ai_financial_copilot.Ingestion.Recovery.{
  ReapState, ReapEnv, live_until, is_live, delete, Attempt, raised, done, enqueue_once,
}

get-delete : (id j : ℕ) (d : Dict ℕ ℕ) → (j == id) ≡ false → get j (delete id d) ≡ get j d
unfolding get
get-delete id j [] h = refl
get-delete id j ((k, v) ∷ d) h =
    ground (arith, h, ==_iff k id, ==_iff k j, ==_iff j id, get-delete id j d)

get-delete_self : (id : ℕ) (d : Dict ℕ ℕ) → get id (delete id d) ≡ none
unfolding get
get-delete_self id [] = refl
get-delete_self id ((k, v) ∷ d) = ground (arith, ==_iff k id, ==_iff id k, get-delete_self id d)

module _ (env : ReapEnv) where
  -- the keys that are live stay as they are
  abbrev pub Keeps : ReapState → ReapState → Type 0
  Keeps st st' = (j : ℕ) → is_live env.now j st ≡ true → get j st'.reap_keys ≡ get j st.reap_keys

  -- why a document may be enqueued: nobody works on it, and it has not been enqueued lately
  abbrev pub IsAbandoned : ReapState → ℕ → Type 0
  IsAbandoned st id = (env.has_lease id ≡ false) × (is_live env.now id st ≡ false)

  abbrev pub IsDebounced : ReapState → ℕ → Type 0
  IsDebounced st id = get id st.reap_keys ≡ some (env.now + env.debounce_seconds)

  -- the broker has failed on a document, and it has no live key, so that the next read tries it
  abbrev pub IsReleased : ReapState → ℕ → Type 0
  IsReleased st id = (env.delay_fails id ≡ true) × (is_live env.now id st ≡ false)

  -- the other documents without a live key do not get one
  abbrev pub LeavesDead : ReapState → ℕ → Bool → ReapState → Type 0
  LeavesDead st id sent st' =
      (j : ℕ)
      → is_live env.now j st ≡ false
      → (sent ≡ true → (j == id) ≡ false)
      → is_live env.now j st' ≡ false

  -- one attempt, from a state on
  abbrev pub Attempted : ReapState → ℕ → Attempt → Type 0
  Attempted st id raised = ⊥
  Attempted st id (done st' true) =
      Keeps st st'
      × (st'.queue ≡ st.queue ++ id ∷ [])
      × LeavesDead st id true st'
      × (is_live env.now id st ≡ false)
      × IsDebounced st' id
      × (env.delay_fails id ≡ false)
  Attempted st id (done st' false) =
      Keeps st st'
      × (st'.queue ≡ st.queue)
      × LeavesDead st id false st'
      × (env.claim_fails id ≡ false → is_live env.now id st ≡ false → IsReleased st' id)

  is_live_other :
      (id j : ℕ) (st : ReapState)
      → is_live env.now id st ≡ false
      → is_live env.now j st ≡ true
      → (j == id) ≡ false
  is_live_other id j st dead alive = elim (Bool-cases (j == id)) [
    | inr e ↦ e
    | inl e ↦ absurd (
        ground
          (arith, dead, sym (ap (λ (i : ℕ). is_live env.now i st) ((==_iff j id).0 e)) ∙ alive))
  ]

  get-put_other :
      (id v j : ℕ) (st : ReapState)
      → (j == id) ≡ false
      → get j (put id v st.reap_keys) ≡ get j st.reap_keys
  get-put_other id v j st other =
      ground (arith, get-put id j v st.reap_keys, other, ==_iff j id, ==_iff id j)

  get-delete-put :
      (id v j : ℕ) (st : ReapState)
      → (j == id) ≡ false
      → get j (delete id (put id v st.reap_keys)) ≡ get j st.reap_keys
  get-delete-put id v j st other =
      get-delete id j (put id v st.reap_keys) other ∙ get-put_other id v j st other

  delete-LeavesDead :
      (id v : ℕ) (st : ReapState)
      → LeavesDead st id false (record st { reap_keys = delete id (put id v st.reap_keys) })
  delete-LeavesDead id v st j dead apart = elim (Bool-cases (j == id)) [
    | inr other ↦ ap (live_until env.now) (get-delete-put id v j st other) ∙ dead
    | inl same ↦
        ap (λ (i : ℕ). live_until env.now (get i (delete id (put id v st.reap_keys))))
          ((==_iff j id).0 same)
        ∙ ap (live_until env.now) (get-delete_self id (put id v st.reap_keys))
  ]

  pub enqueue_once-Attempted :
      (id : ℕ) (st : ReapState)
      → env.delete_fails id ≡ false
      → Attempted st id (enqueue_once env id st)
  unfolding enqueue_once
  enqueue_once-Attempted id st sure =
      let until = env.now + env.debounce_seconds in
      if-cases (Attempted st id) (env.claim_fails id) (done st false) _
        (λ fails.
          (λ j h. refl, refl, λ j dead apart. dead, λ holds. absurd (ground (arith, fails, holds))))
        (λ _.
          if-cases (Attempted st id) (is_live env.now id st) (done st false) _
            (λ live. (
              λ j h. refl,
              refl,
              λ j dead apart. dead,
              λ holds dead. absurd (ground (arith, live, dead)),
            ))
            (λ dead.
              if-cases (Attempted st id) (env.delay_fails id) _ _
                (λ broken. rw sure (
                  λ j alive. get-delete-put id until j st (is_live_other id j st dead alive),
                  refl,
                  delete-LeavesDead id until st,
                  λ holds was. (
                    broken,
                    ap (live_until env.now) (get-delete_self id (put id until st.reap_keys)),
                  ),
                ))
                (λ works. (
                  λ j alive. get-put_other id until j st (is_live_other id j st dead alive),
                  refl,
                  λ j was apart.
                      ap (live_until env.now) (get-put_other id until j st (apart refl)) ∙ was,
                  dead,
                  ground (arith, get-put id id until st.reap_keys, ==_iff id id),
                  works,
                ))))

  pub dead-before :
      (st st' : ReapState) (j : ℕ)
      → Keeps st st'
      → is_live env.now j st' ≡ false
      → is_live env.now j st ≡ false
  dead-before st st' j keeps dead = elim (Bool-cases (is_live env.now j st)) [
    | inr e ↦ e
    | inl e ↦ absurd (ground (arith, dead, ap (live_until env.now) (keeps j e), e))
  ]
