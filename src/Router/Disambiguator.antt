-- ===== src/Router/Disambiguator.antt =====
-- src/services/router/disambiguator.py: one call of a model maps the entities of a question to
-- companies. The call with its prompt is a parameter, and so is the validation of its text.
use Prim.Native.Nat.{ℕ, suc}
use Prim.Native.String.{String, ◌++◌}
use ai_financial_copilot.Common.{
  ◌+◌, ◌≡◌, ◌≤◌, ◌⊎◌, inl, inr, All, refl, ap, Bool, true, false, List, [], ◌∷◌, Option, none, some,
  length, is_empty, dedup, string_eq, arith,
}
use ai_financial_copilot.Common.Decimal.{show}
use ai_financial_copilot.Common.Dict.{Dict, get, put}
use ai_financial_copilot.Schemas.Routing.{ExtractedEntity, CompanyCandidate}

-- `unmatched` is "none"
pub data Decision : Type 0 where
  resolved ambiguous unmatched : Decision

abbrev pub is_unmatched : Decision → Bool
is_unmatched resolved = false
is_unmatched ambiguous = false
is_unmatched unmatched = true

pub record Disambiguation : Type 0 where
  pub decision : Decision
  pub candidates : List CompanyCandidate

-- `_Pick`; `_Picks` is a list of them
pub record Pick : Type 0 where
  pub entity : String
  pub decision : Decision
  pub candidates : List String

-- the short id of each candidate: a letter and its number
abbrev pub by_id : ℕ → List CompanyCandidate → Dict String CompanyCandidate
by_id i [] = []
by_id i (c ∷ cs) = ("C" ++ show i, c) ∷ by_id (i + 1) cs

-- the pick of each entity: the last one counts
abbrev pub by_entity : List Pick → Dict String Pick → Dict String Pick
by_entity [] d = d
by_entity (p ∷ picks) d = by_entity picks (put p.entity p d)

abbrev pub push_some {ℓ} : {A : Type ℓ} → Option A → List A → List A
push_some none xs = xs
push_some (some x) xs = x ∷ xs

abbrev pub look_up : Dict String CompanyCandidate → List String → List CompanyCandidate
look_up ids [] = []
look_up ids (c ∷ cs) = push_some (get c ids) (look_up ids cs)

abbrev pub chosen : Dict String CompanyCandidate → Option Pick → List CompanyCandidate
chosen ids none = []
chosen ids (some pick) = look_up ids (dedup pick.candidates)

abbrev pub picked_decision : Option Pick → Decision
picked_decision none = unmatched
picked_decision (some pick) = pick.decision

-- what an entity's pick comes to
abbrev pub answer : Decision → List CompanyCandidate → Disambiguation
answer unmatched cs = record { decision = unmatched; candidates = [] }
answer d [] = record { decision = unmatched; candidates = [] }
answer d (c ∷ cs) = record { decision = d; candidates = c ∷ cs }

-- the loop of `_map`, from the i-th entity on
abbrev pub answers :
    Dict String CompanyCandidate → Dict String Pick → ℕ → List ExtractedEntity → List Disambiguation
answers ids picks i [] = []
answers ids picks i (e ∷ entities) =
    answer (picked_decision (get ("E" ++ show i) picks)) (chosen ids (get ("E" ++ show i) picks))
    ∷ answers ids picks (i + 1) entities

-- `_map`
unfoldable pub map_picks :
    List Pick → List ExtractedEntity → List CompanyCandidate → List Disambiguation
map_picks picks entities candidates = answers (by_id 1 candidates) (by_entity picks []) 1 entities

pub record Disambiguator : Type 0 where
  -- the text that the model answers; `none` where it is unavailable, fails or times out
  pub complete : String → List ExtractedEntity → List CompanyCandidate → Option String
  -- `_Picks.model_validate_json`; `none` is a ValidationError
  pub validate_picks : String → Option (List Pick)

abbrev pub validated : Disambiguator → Option String → Option (List Pick)
validated llm none = none
validated llm (some text) = llm.validate_picks text

abbrev pub mapped :
    List ExtractedEntity → List CompanyCandidate → Option (List Pick) → Option (List Disambiguation)
mapped entities candidates none = none
mapped entities candidates (some picks) = some (map_picks picks entities candidates)

-- `disambiguate`; its log of sub-requests is left out
unfoldable pub disambiguate :
    Disambiguator
    → String
    → List ExtractedEntity
    → List CompanyCandidate
    → Option (List Disambiguation)
disambiguate llm query entities candidates =
    mapped entities candidates (validated llm (llm.complete query entities candidates))

length-answers :
    (ids : Dict String CompanyCandidate) (picks : Dict String Pick) (i : ℕ)
    (entities : List ExtractedEntity)
    → length (answers ids picks i entities) ≡ length entities
length-answers ids picks i [] = refl
length-answers ids picks i (e ∷ entities) = ap suc (length-answers ids picks (i + 1) entities)

-- An answer that names companies matches something.
abbrev pub IsAnswer : Disambiguation → Type 0
IsAnswer d = (is_unmatched d.decision ≡ false) ⊎ (is_empty d.candidates ≡ true)

answer-IsAnswer : (d : Decision) (cs : List CompanyCandidate) → IsAnswer (answer d cs)
answer-IsAnswer unmatched cs = inr refl
answer-IsAnswer resolved [] = inr refl
answer-IsAnswer ambiguous [] = inr refl
answer-IsAnswer resolved (c ∷ cs) = inl refl
answer-IsAnswer ambiguous (c ∷ cs) = inl refl

answers-IsAnswer :
    (ids : Dict String CompanyCandidate) (picks : Dict String Pick) (i : ℕ)
    (entities : List ExtractedEntity)
    → All IsAnswer (answers ids picks i entities)
answers-IsAnswer ids picks i [] = tt
answers-IsAnswer ids picks i (e ∷ entities) =
    (answer-IsAnswer _ _, answers-IsAnswer ids picks (i + 1) entities)

-- at least n answers, or none at all where the call has failed
abbrev pub Serves : Option (List Disambiguation) → ℕ → Type 0
Serves none n = Unit
Serves (some ds) n = All IsAnswer ds × (n ≤ length ds)

mapped-Serves :
    (entities : List ExtractedEntity) (candidates : List CompanyCandidate)
    (picks : Option (List Pick))
    → Serves (mapped entities candidates picks) (length entities)
unfolding map_picks
mapped-Serves entities candidates none = tt
mapped-Serves entities candidates (some picks) = (
  answers-IsAnswer (by_id 1 candidates) (by_entity picks []) 1 entities,
  omega (arith, length-answers (by_id 1 candidates) (by_entity picks []) 1 entities),
)

-- the model answers for each entity, in order, or its call counts as failed
pub disambiguate-Serves :
    (llm : Disambiguator) (query : String) (entities : List ExtractedEntity)
    (candidates : List CompanyCandidate)
    → Serves (disambiguate llm query entities candidates) (length entities)
unfolding disambiguate
disambiguate-Serves llm query entities candidates =
    mapped-Serves entities candidates (validated llm (llm.complete query entities candidates))
