-- ===== src/Llm/Fallback.antt =====
-- src/services/llm_router.py: the stream over a chain of models, and the merge of parameters. A model's
-- stream is what it yields and how it ends; adapters and traces are left out.
use ai_financial_copilot.Common.{
  ◌≡◌, ◌⊎◌, refl, true, false, List, [], ◌∷◌, Option, none, some, String, if◌then◌else◌, is_empty,
  string_eq, ◌==◌, arith, inl, inr, if-cases, Option-cases,
}
use ai_financial_copilot.Common.Dict.{Dict, get, put, get-put}

-- the end of a stream: it is exhausted, or a provider error (an LLMError) is raised; an exception of
-- another class, which ends the iteration for the caller too, is left out
pub data StreamEnd : Type 0 where
  exhausted stream_error : StreamEnd

pub record ModelStream : Type 0 where
  pub model_id : String
  pub chunks : List String
  pub end : StreamEnd

-- What the caller has seen when the iteration is over.
pub record Streamed : Type 0 where
  pub served : String
  pub yielded : List String
  pub end : StreamEnd

abbrev streamed : ModelStream → Streamed
streamed m = record { served = m.model_id; yielded = m.chunks; end = m.end }

-- after one model's stream; `rest` is what the rest of the chain gives, if there is one
abbrev pub after_stream : ModelStream → StreamEnd → Option Streamed → Streamed
after_stream m exhausted rest = streamed m
after_stream m stream_error none = streamed m
after_stream m stream_error (some rest) = if is_empty m.chunks then rest else streamed m

-- `FallbackStream.__aiter__`; `none` is the iteration over an empty chain
unfoldable pub fallback_stream : List ModelStream → Option Streamed
fallback_stream [] = none
fallback_stream (m ∷ chain) = some (after_stream m m.end (fallback_stream chain))

-- Which model's stream the caller has seen: the first one that is exhausted, that has yielded
-- something, or that is the last; each one before it has raised with nothing yielded.
pub data Serves : List ModelStream → Streamed → Type 0 where
  first :
      {m : ModelStream} {chain : List ModelStream}
      → (m.end ≡ exhausted) ⊎ ((is_empty m.chunks ≡ false) ⊎ (is_empty chain ≡ true))
      → Serves (m ∷ chain) (streamed m)
  next :
      {m : ModelStream} {chain : List ModelStream} {s : Streamed}
      → m.end ≡ stream_error
      → is_empty m.chunks ≡ true
      → Serves chain s
      → Serves (m ∷ chain) s

-- what an iteration gives is what a chain serves; only an empty one gives nothing
abbrev Given : List ModelStream → Option Streamed → Type 0
Given chain none = is_empty chain ≡ true
Given chain (some s) = Serves chain s

after_stream-Serves :
    (m : ModelStream) (chain : List ModelStream) (end : StreamEnd) (rest : Option Streamed)
    → m.end ≡ end
    → Given chain rest
    → Serves (m ∷ chain) (after_stream m end rest)
after_stream-Serves m chain exhausted rest e h = first (inl e)
after_stream-Serves m chain stream_error none e h = first (inr (inr h))
after_stream-Serves m chain stream_error (some rest) e h =
    if-cases (Serves (m ∷ chain)) (is_empty m.chunks) rest (streamed m) (λ silent. next e silent h)
      (λ heard. first (inr (inl heard)))

fallback_stream-Given : (chain : List ModelStream) → Given chain (fallback_stream chain)
unfolding fallback_stream
fallback_stream-Given [] = refl
fallback_stream-Given (m ∷ chain) =
    after_stream-Serves m chain m.end (fallback_stream chain) refl (fallback_stream-Given chain)

-- A chain of at least one model ends with the whole output of one of them, which is the one reported
-- as having served: no output is lost, repeated or mixed. A model before it has raised with
-- nothing yielded, and its own error shows only if it has yielded something or is the last.
pub fallback_stream-Serves :
    (m : ModelStream) (chain : List ModelStream)
    → (s : Streamed) × (fallback_stream (m ∷ chain) ≡ some s) × Serves (m ∷ chain) s
unfolding fallback_stream
fallback_stream-Serves m chain = (
  after_stream m m.end (fallback_stream chain),
  refl,
  after_stream-Serves m chain m.end (fallback_stream chain) refl (fallback_stream-Given chain),
)

module _ {ℓ} {V : Type ℓ} where
  abbrev put_some : String → Option V → Dict String V → Dict String V
  put_some k none d = d
  put_some k (some v) d = put k v d

  -- `_merge_params`: the overrides in order, those that are None left out
  unfoldable pub merge_params : Dict String V → Dict String (Option V) → Dict String V
  merge_params merged [] = merged
  merge_params merged ((k, v) ∷ overrides) = merge_params (put_some k v merged) overrides

  -- what an override says, over what stands
  abbrev pub set_over : Option V → Option V → Option V
  set_over none old = old
  set_over (some v) old = some v

  -- the last override of a key that is not None
  abbrev pub override_of : String → Dict String (Option V) → Option V
  override_of k [] = none
  override_of k ((j, v) ∷ overrides) =
      let rest = override_of k overrides in if j == k then set_over rest v else rest

  get-put_some :
      (k j : String) (v : Option V) (d : Dict String V)
      → get j (put_some k v d) ≡ (if k == j then set_over v (get j d) else get j d)
  get-put_some k j none d = ground arith
  get-put_some k j (some v) d = get-put k j v d

  -- A merged parameter is the last override of its key that is not None, and the default where
  -- there is none.
  pub get-merge_params :
      (k : String) (d : Dict String V) (overrides : Dict String (Option V))
      → get k (merge_params d overrides) ≡ set_over (override_of k overrides) (get k d)
  unfolding merge_params
  get-merge_params k d [] = refl
  get-merge_params k d ((j, v) ∷ overrides) = elim (Option-cases (override_of k overrides)) [
    | inl absent ↦ elim (Option-cases v) [
      | inl blank ↦
          ground (arith, get-merge_params k (put_some j v d) overrides, get-put_some j k v d)
      | inr (w, e) ↦
          ground (arith, get-merge_params k (put_some j v d) overrides, get-put_some j k v d)
    ]
    | inr (u, found) ↦ ground (arith, get-merge_params k (put_some j v d) overrides)
  ]
