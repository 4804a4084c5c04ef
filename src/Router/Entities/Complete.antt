-- ===== src/Router/Entities/Complete.antt =====
-- src/services/router/entity_resolver.py: there is a resolution for each entity.
use ai_financial_copilot.Common.{
  ℕ, suc, ◌+◌, ◌≤◌, ◌≡◌, inl, inr, refl, List, [], ◌∷◌, Option, none, some, String, map, length,
  length-map, concat, string_eq, All, All-weaken, Each, arith, Option-cases,
}
use ai_financial_copilot.Schemas.Routing.{ExtractedEntity, CompanyCandidate}
use ai_financial_copilot.Router.Disambiguator.{Disambiguation}
use ai_financial_copilot.Router.Disambiguator.{Serves, disambiguate-Serves}
use ai_financial_copilot.Router.Entities.{
  EntityResolution, Binding, Slot, Resolver, keys_of, merge_candidates, bound_to, slot_of, pending,
  decisions_for, past, cons_some, fill_slots, resolve_entities,
}
use ai_financial_copilot.Router.Entities.Candidates.{
  Own, Resolves, merge_candidates-All, Among, Among-self,
}
use ai_financial_copilot.Router.Entities.Answers.{answer_for-Resolves, decide_entity-Settles}

Serves-of_le : (ds : Option (List Disambiguation)) (m n : ℕ) → m ≤ n → Serves ds n → Serves ds m
Serves-of_le none m n h s = tt
Serves-of_le (some ds) m n h s = (s.0, omega (arith, h, s.1))

found-Own :
    (found : String → List CompanyCandidate) (ks : List String) (b : Option Binding)
    → All (Own found ks b) (merge_candidates (map found ks))
found-Own found ks b = merge_candidates-All (Own found ks b) (map found ks) (
    All-weaken (λ (c : CompanyCandidate) (h : Among (concat (map found ks)) c). inl h)
      (concat (map found ks)) (Among-self (concat (map found ks))))

module _ (r : Resolver) where
  abbrev pub IsResolution : ExtractedEntity → EntityResolution → Type 0
  IsResolution e res =
      Resolves r.found (keys_of r.names e) (bound_to r.bindings (keys_of r.names e)) res

  -- what the results come to, where n pending entities stand before
  abbrev Filled : List ExtractedEntity → Option (List EntityResolution) → Type 0
  Filled entities none = ⊥
  Filled entities (some rs) = Each IsResolution entities rs

  cons_some-Filled :
      (e : ExtractedEntity) (entities : List ExtractedEntity) (res : EntityResolution)
      (rest : Option (List EntityResolution))
      → IsResolution e res
      → Filled entities rest
      → Filled (e ∷ entities) (cons_some (some res) rest)
  cons_some-Filled e entities res none h hs = hs
  cons_some-Filled e entities res (some rs) h hs = (h, hs)

  length-pending :
      (s : Slot) (slots : List Slot) (n : ℕ)
      → n + length (pending (s ∷ slots)) ≡ past n s.result + length (pending slots)
  length-pending s slots n = elim (Option-cases s.result) [
    | inl e ↦ rw e (omega arith)
    | inr (a, e) ↦ rw e refl
  ]

  fill_slots-Filled :
      (ds : Option (List Disambiguation)) (n : ℕ) (entities : List ExtractedEntity)
      → Serves ds (n + length (pending (map (slot_of r) entities)))
      → Filled entities (fill_slots ds n (map (slot_of r) entities))
  fill_slots-Filled ds n [] enough = tt
  fill_slots-Filled ds n (e ∷ entities) enough =
      let s : Slot = slot_of r e in
      let ks = keys_of r.names e in
      let b = bound_to r.bindings ks in
      let left = length (pending (map (slot_of r) entities)) in
      let later : Serves ds (past n s.result + left) =
        rw (← (length-pending s (map (slot_of r) entities) n)) enough in
      let (res, given, good) =
        answer_for-Resolves r.found ks b s.trigram (found-Own r.found ks b) ds n s.result
          (Serves-of_le ds (past n s.result) (past n s.result + left) (omega arith) later)
          (decide_entity-Settles r.found ks b s.trigram (found-Own r.found ks b)) in
      rw given (
        cons_some-Filled e entities res _ good
          (fill_slots-Filled ds (past n s.result) entities later))

  decisions_for-Serves :
      (query : String) (slots : List Slot) → Serves (decisions_for r query slots) (length slots)
  decisions_for-Serves query [] = tt
  decisions_for-Serves query (s ∷ slots) =
      Serves-of_le _ (suc (length slots)) _
        (omega (arith, length-map (s ∷ slots) (λ (t : Slot). t.entity)))
        (disambiguate-Serves r.llm query (map (λ (t : Slot). t.entity) (s ∷ slots))
          (merge_candidates (map (λ (t : Slot). t.trigram) (s ∷ slots))))

  Filled-resolutions :
      (entities : List ExtractedEntity) (rs : Option (List EntityResolution))
      → Filled entities rs
      → (l : List EntityResolution) × (rs ≡ some l) × Each IsResolution entities l
  Filled-resolutions entities none h = elim h [ ]
  Filled-resolutions entities (some l) h = (l, refl, h)

  -- Whatever the search finds and the model answers, each entity gets a resolution, in order: it
  -- has candidates just where it matches something, and each candidate is a company that the search
  -- found for a key of that very entity, or the one that the user bound a key to.
  pub resolve_entities-Each :
      (query : String) (entities : List ExtractedEntity)
      → (rs : List EntityResolution) × (resolve_entities r query entities ≡ some rs)
        × Each IsResolution entities rs
  unfolding resolve_entities
  resolve_entities-Each query entities =
      Filled-resolutions entities (resolve_entities r query entities) (
        fill_slots-Filled (decisions_for r query waiting) 0 entities (
          Serves-of_le (decisions_for r query waiting) (0 + length waiting) (length waiting)
            (omega arith) (decisions_for-Serves query waiting)))
    where
      waiting : List Slot
      waiting = pending (map (slot_of r) entities)
