-- ===== src/Agent/Loop/Results.antt =====
-- One tool result for each call of a turn.
use ai_financial_copilot.Common.{
  ℕ, ◌≡◌, refl, ap, sym, ◌∙◌, Bool, true, false, ◌&&◌, not, List, [], ◌∷◌, ◌++◌, Option, none, some,
  String, map, string_eq, option_eq, ◌==◌, ==_self, elem, filter_by, arith, if-cases, of_if,
  append_assoc, append-nil, All, Bool-cases, inl, inr,
}
use ai_financial_copilot.Common.Dict.{Dict, get, has, has-put}
use ai_financial_copilot.Schemas.Findings.{FindingsReport}
use ai_financial_copilot.Llm.Messages.{ToolCallRef, AssistantTurnResult}
use ai_financial_copilot.Agent.Transcript.{Transcript, append_message, append_turn}
use ai_financial_copilot.Agent.State.{AgentRunState, ShapeConfig}
use ai_financial_copilot.Agent.Loop.{RunDeps, SearchDocumentsArgs, SearchResult}
use ai_financial_copilot.Agent.Loop.Search.{
  key_of_args, search_key, search_keys, settle_missing, admit_result, show_result, fold_search,
  fold_searches, flat_key,
}
use ai_financial_copilot.Agent.Loop.Report.{
  apply_parsed, apply_if_parsed, apply_report, count_report, fold_report_calls, fold_reports,
}
use ai_financial_copilot.Agent.Loop.Turn.{
  report_tool_name, reports_of, searches_of, refuse_calls, tool_result, append_results, begin_calls,
  with_results, dispatch,
}

append_results-map :
    (texts : Dict String String) (tcs : List ToolCallRef) (t : Transcript)
    → append_results texts tcs t ≡ t ++ map (tool_result texts) tcs
unfolding append_results append_message
append_results-map texts [] t = sym (append-nil t)
append_results-map texts (tc ∷ tcs) t =
    append_results-map texts tcs (t ++ tool_result texts tc ∷ [])
    ∙ append_assoc t (tool_result texts tc ∷ []) (map (tool_result texts) tcs)

module _ (deps : RunDeps) where
  key_of_args-transcript :
      (args : Option SearchDocumentsArgs) (shape : ShapeConfig) (s : AgentRunState)
      → (key_of_args deps args shape s).1.transcript ≡ s.transcript
  key_of_args-transcript none shape s = refl
  key_of_args-transcript (some args) shape s =
      if-cases (λ (r : Option String × AgentRunState). r.1.transcript ≡ s.transcript)
        shape.search_takes_sub_question _ _ (λ _. refl) (λ _. refl)

  search_keys-transcript :
      (tcs : List ToolCallRef) (shape : ShapeConfig) (s : AgentRunState)
      (d : Dict String (Option String))
      → (search_keys deps tcs shape s d).1.transcript ≡ s.transcript
  unfolding search_keys search_key
  search_keys-transcript [] shape s d = refl
  search_keys-transcript (tc ∷ tcs) shape s d =
      search_keys-transcript tcs shape _ _
      ∙ key_of_args-transcript (deps.parse_search tc.arguments) shape s

  apply_if_parsed-transcript :
      (report : Option FindingsReport) (name : String) (s : AgentRunState)
      → (apply_if_parsed deps report name s).2.transcript ≡ s.transcript
  unfolding apply_parsed
  apply_if_parsed-transcript none name s = refl
  apply_if_parsed-transcript (some report) name s = refl

  fold_report_calls-transcript :
      (tcs : List ToolCallRef) (s : AgentRunState) (texts : Dict String String)
      → (fold_report_calls deps tcs s texts).1.transcript ≡ s.transcript
  unfolding fold_report_calls apply_report count_report
  fold_report_calls-transcript [] s texts = refl
  fold_report_calls-transcript (tc ∷ tcs) s texts =
      fold_report_calls-transcript tcs _ _
      ∙ apply_if_parsed-transcript (deps.parse_report tc.arguments) tc.name (count_report s)

  settle_missing-transcript :
      (aspect : Option String) (result : SearchResult) (s : AgentRunState)
      → (settle_missing deps aspect result s).transcript ≡ s.transcript
  settle_missing-transcript none result s = refl
  settle_missing-transcript (some aspect) result s =
      if-cases (λ (r : AgentRunState). r.transcript ≡ s.transcript)
        (result.not_found && aspect == result.entity) _ _ (λ _. refl) (λ _. refl)

  show_result-transcript :
      (result : SearchResult) (aspect : Option String) (s : AgentRunState) (error : Option String)
      → (show_result deps result aspect s error).2.transcript ≡ s.transcript
  unfolding show_result
  show_result-transcript result aspect s (some error) = refl
  show_result-transcript result aspect s none = refl

  fold_searches-transcript :
      (results : List (ToolCallRef × SearchResult)) (ks : Dict String (Option String))
      (s : AgentRunState) (texts : Dict String String)
      → (fold_searches deps results ks s texts).2.transcript ≡ s.transcript
  unfolding fold_searches fold_search admit_result
  fold_searches-transcript [] ks s texts = refl
  fold_searches-transcript ((tc, result) ∷ rest) ks s texts =
      fold_searches-transcript rest ks _ _
      ∙ show_result-transcript result (flat_key (get tc.id ks)) _ result.error_str
      ∙ settle_missing-transcript (flat_key (get tc.id ks)) result _

  -- the results' texts only grow, and each list of calls gets its texts
  refuse_calls-keeps :
      (offered : List String) (tcs : List ToolCallRef) (texts : Dict String String) (id : String)
      → has id texts ≡ true
      → has id (refuse_calls deps offered tcs texts) ≡ true
  unfolding refuse_calls
  refuse_calls-keeps offered [] texts id h = h
  refuse_calls-keeps offered (tc ∷ tcs) texts id h = refuse_calls-keeps offered tcs _ id (
      if-cases (λ (d : Dict String String). has id d ≡ true) (elem tc.name offered) _ _ (λ _. h)
        (λ _. has-put tc.id id _ texts ∙ ground arith))

  fold_report_calls-keeps :
      (tcs : List ToolCallRef) (s : AgentRunState) (texts : Dict String String) (id : String)
      → has id texts ≡ true
      → has id (fold_report_calls deps tcs s texts).0 ≡ true
  unfolding fold_report_calls
  fold_report_calls-keeps [] s texts id h = h
  fold_report_calls-keeps (tc ∷ tcs) s texts id h =
      fold_report_calls-keeps tcs _ _ id (has-put tc.id id _ texts ∙ ground arith)

  fold_searches-keeps :
      (results : List (ToolCallRef × SearchResult)) (ks : Dict String (Option String))
      (s : AgentRunState) (texts : Dict String String) (id : String)
      → has id texts ≡ true
      → has id (fold_searches deps results ks s texts).0 ≡ true
  unfolding fold_searches
  fold_searches-keeps [] ks s texts id h = h
  fold_searches-keeps ((tc, result) ∷ rest) ks s texts id h =
      fold_searches-keeps rest ks _ _ id (has-put tc.id id _ texts ∙ ground arith)

  refuse_calls-covers :
      (offered : List String) (tcs : List ToolCallRef) (texts : Dict String String)
      → All
          (λ tc.
            elem tc.name offered ≡ false → has tc.id (refuse_calls deps offered tcs texts) ≡ true)
          tcs
  unfolding refuse_calls
  refuse_calls-covers offered [] texts = tt
  refuse_calls-covers offered (tc ∷ tcs) texts = (
    λ out. refuse_calls-keeps offered tcs _ tc.id (
        if-cases (λ (d : Dict String String). has tc.id d ≡ true) (elem tc.name offered) _ _
          (λ in_pool. ground arith)
          (λ _. has-put tc.id tc.id _ texts ∙ ground (arith, ==_self tc.id))),
    refuse_calls-covers offered tcs _,
  )

  fold_report_calls-covers :
      (tcs : List ToolCallRef) (s : AgentRunState) (texts : Dict String String)
      → All (λ tc. has tc.id (fold_report_calls deps tcs s texts).0 ≡ true) tcs
  unfolding fold_report_calls
  fold_report_calls-covers [] s texts = tt
  fold_report_calls-covers (tc ∷ tcs) s texts = (
    fold_report_calls-keeps tcs _ _ tc.id
        (has-put tc.id tc.id _ texts ∙ ground (arith, ==_self tc.id)),
    fold_report_calls-covers tcs _ _,
  )

  fold_searches-covers :
      (tcs : List ToolCallRef) (iteration : ℕ) (ks : Dict String (Option String))
      (s : AgentRunState) (texts : Dict String String)
      → All
          (λ tc.
            has tc.id (fold_searches deps (with_results deps tcs iteration) ks s texts).0 ≡ true)
          tcs
  unfolding fold_searches
  fold_searches-covers [] iteration ks s texts = tt
  fold_searches-covers (tc ∷ tcs) iteration ks s texts = (
    fold_searches-keeps (with_results deps tcs iteration) ks _ _ tc.id
        (has-put tc.id tc.id _ texts ∙ ground (arith, ==_self tc.id)),
    fold_searches-covers tcs iteration ks _ _,
  )

All-of-filter :
    (P : ToolCallRef → Type 0) (q : ToolCallRef → Bool) (tcs : List ToolCallRef)
    → All P (filter_by q tcs)
    → All (λ tc. q tc ≡ true → P tc) tcs
All-of-filter P q [] h = tt
All-of-filter P q (tc ∷ tcs) h =
    let rest = filter_by q tcs in
    let (first, second) = of_if (All P) (q tc) (tc ∷ rest) rest h in
    elim (Bool-cases (q tc)) [
      | inl kept ↦ (λ _. (first kept).0, All-of-filter P q tcs (first kept).1)
      | inr out ↦ (λ e. ground arith, All-of-filter P q tcs (second out))
    ]

All-combine :
    (P Q R S : ToolCallRef → Type 0) (tcs : List ToolCallRef)
    → ((tc : ToolCallRef) → P tc → Q tc → R tc → S tc)
    → All P tcs
    → All Q tcs
    → All R tcs
    → All S tcs
All-combine P Q R S [] f p q r = tt
All-combine P Q R S (tc ∷ tcs) f p q r = (f tc p.0 q.0 r.0, All-combine P Q R S tcs f p.1 q.1 r.1)

module _ (deps : RunDeps) (shape : ShapeConfig) (offered : List String) (turn : AssistantTurnResult)
    (s : AgentRunState) where
  -- the texts of a turn's calls: those of the refused ones, of the reports and of the searches
  abbrev pub turn_texts : Dict String String
  turn_texts =
      let searches = searches_of offered turn in
      let (ks, s1) = search_keys deps searches shape (begin_calls turn s) [] in
      let (texts1, closed, s2) =
        fold_reports deps (reports_of turn) s1 (refuse_calls deps offered turn.tool_calls []) in
      (fold_searches deps (with_results deps searches s2.iteration) ks s2 texts1).0

  -- What a turn's calls leave in the transcript: the assistant's message, then one message for each
  -- call, in their order; and the refusals, the reports and the searches give each call a text.
  pub record IsAnswered (after : Transcript) : Type 0 where
    pub ordered :
        after ≡ append_turn turn s.transcript ++ map (tool_result turn_texts) turn.tool_calls
    pub covers : All (λ tc. has tc.id turn_texts ≡ true) turn.tool_calls

  -- A turn's calls, to whatever tools, leave the transcript with the assistant's message and after it
  -- one tool message for each call, in the order of the calls. Its text is the one under the call's id
  -- among the texts that refusing, reporting and searching have given, and each call has one there,
  -- so that "(no result)" is never filled in.
  pub dispatch-IsAnswered : IsAnswered (dispatch deps shape offered turn s).1.transcript
  unfolding dispatch fold_reports begin_calls
  dispatch-IsAnswered =
      let calls = turn.tool_calls in
      let searches = searches_of offered turn in
      let s0 = begin_calls turn s in
      let (ks, s1) = search_keys deps searches shape s0 [] in
      let texts0 = refuse_calls deps offered calls [] in
      let (texts1, s2) = fold_report_calls deps (reports_of turn) s1 texts0 in
      let results = with_results deps searches s2.iteration in
      let texts2 = (fold_searches deps results ks s2 texts1).0 in
      record {
        ordered =
            append_results-map texts2 calls _
            ∙ ap (λ t. t ++ map (tool_result texts2) calls)
                (fold_searches-transcript deps results ks s2 texts1
                  ∙ fold_report_calls-transcript deps (reports_of turn) s1 texts0
                  ∙ search_keys-transcript deps searches shape s0 []);
        covers =
            All-combine (λ tc. elem tc.name offered ≡ false → has tc.id texts0 ≡ true)
              (λ tc. (tc.name == report_tool_name) ≡ true → has tc.id texts1 ≡ true)
              (λ tc.
                (elem tc.name offered && not (tc.name == report_tool_name)) ≡ true
                → has tc.id texts2 ≡ true)
              (λ tc. has tc.id texts2 ≡ true) calls
              (λ tc refused reported found. ground (
                arith,
                refused,
                reported,
                found,
                fold_searches-keeps deps results ks s2 texts1 tc.id,
                fold_report_calls-keeps deps (reports_of turn) s1 texts0 tc.id,
              ))
              (refuse_calls-covers deps offered calls [])
              (All-of-filter (λ tc. has tc.id texts1 ≡ true) (λ tc. tc.name == report_tool_name)
                calls (fold_report_calls-covers deps (reports_of turn) s1 texts0))
              (All-of-filter (λ tc. has tc.id texts2 ≡ true)
                (λ tc. elem tc.name offered && not (tc.name == report_tool_name)) calls
                (fold_searches-covers deps searches s2.iteration ks s2 texts1));
      }
