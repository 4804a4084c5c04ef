-- ===== src/Ingestion/Recovery.antt =====
-- src/services/ingestion/recovery.py: documents whose worker is gone are enqueued again. Redis holds a lease
-- for each running worker and, for a while, a key for each document enqueued here. Whether a call of
-- Redis or of the broker raises is a parameter; metrics and logs are left out.
pub mod Attempts
pub mod Once
use ai_financial_copilot.Common.{
  ℕ, ◌+◌, Bool, true, false, not, List, [], ◌∷◌, ◌++◌, Option, none, some, String, if◌then◌else◌,
  ltb, filter_by, nat_eq, string_eq, ◌==◌,
}
use ai_financial_copilot.Common.Dict.{Dict, get, put}

pub record Document : Type 0 where
  pub id : ℕ
  pub status : String

-- the reap keys with the time when each expires, and the tasks sent to the broker
pub record ReapState : Type 0 where
  pub reap_keys : Dict ℕ ℕ
  pub queue : List ℕ

pub record ReapEnv : Type 0 where
  -- the pipeline of EXISTS raises
  pub check_fails : Bool
  -- whether a document has a lease
  pub has_lease : ℕ → Bool
  -- SET of the reap key, `delay` of the task and DEL of the reap key raise
  pub claim_fails : ℕ → Bool
  pub delay_fails : ℕ → Bool
  pub delete_fails : ℕ → Bool
  pub debounce_seconds : ℕ
  pub now : ℕ

abbrev pub live_until : ℕ → Option ℕ → Bool
live_until now none = false
live_until now (some expires_at) = ltb now expires_at

-- whether the reap key of a document is there
abbrev pub is_live : ℕ → ℕ → ReapState → Bool
is_live now id st = live_until now (get id st.reap_keys)

abbrev pub delete : ℕ → Dict ℕ ℕ → Dict ℕ ℕ
delete id d = filter_by (λ e. not (e.0 == id)) d

-- an exception that is not caught, or a state and whether the document is enqueued
pub data Attempt : Type 0 where
  raised : Attempt
  done : ReapState → Bool → Attempt

-- `_enqueue_once`
unfoldable pub enqueue_once : ReapEnv → ℕ → ReapState → Attempt
enqueue_once env id st =
    let claimed = record st { reap_keys = put id (env.now + env.debounce_seconds) st.reap_keys } in
    if env.claim_fails id
    then done st false
    else if is_live env.now id st
    then done st false
    else if env.delay_fails id
    then (if env.delete_fails id
        then raised
        else done (record st { reap_keys = delete id claimed.reap_keys }) false)
    else done (record claimed { queue = st.queue ++ id ∷ [] }) true

pub data Reaped : Type 0 where
  failed : Reaped
  reaped : ReapState → List ℕ → Reaped

abbrev pub add_reaped : ℕ → Reaped → Reaped
add_reaped id failed = failed
add_reaped id (reaped st ids) = reaped st (id ∷ ids)

abbrev pub after_attempt : ℕ → Attempt → (ReapState → Reaped) → Reaped
after_attempt id raised more = failed
after_attempt id (done st true) more = add_reaped id (more st)
after_attempt id (done st false) more = more st

-- the loop over the candidates
abbrev pub reap : ReapEnv → List Document → ReapState → Reaped
reap env [] st = reaped st []
reap env (d ∷ docs) st =
    let rest = reap env docs in
    if env.has_lease d.id then rest st else after_attempt d.id (enqueue_once env d.id st) rest

-- `reap_abandoned`
unfoldable pub reap_abandoned : ReapEnv → List Document → ReapState → Reaped
reap_abandoned env docs st =
    if env.check_fails
    then reaped st []
    else reap env (filter_by (λ d. d.status == "processing") docs) st
