-- ===== src/Agent/Transcript.antt =====
-- src/services/chat/agent/transcript.py: the model's view of the run, a list of messages.
use Prim.Native.String.{◌++◌ as ◌+++◌}
use ai_financial_copilot.Common.{
  Bool, true, false, List, [], ◌∷◌, ◌++◌, Option, none, some, String, if◌then◌else◌, nat_beq,
}
use ai_financial_copilot.Common.Text.{chars}
use ai_financial_copilot.Llm.Messages.{
  Role, user, assistant, tool, ChatMessage, AssistantTurnResult,
}

abbrev pub Transcript : Type 0
Transcript = List ChatMessage

abbrev pub plain_message : Role → String → ChatMessage
plain_message role content = record {
  role = role;
  content = some content;
  tool_call_id = none;
  tool_calls = [];
  opaque = [];
}

abbrev is_tool : Role → Bool
is_tool tool = true
is_tool _ = false

abbrev text_of : Option String → String
text_of none = ""
text_of (some s) = s

abbrev status_block : String → String
status_block status = "<run_status>\n" +++ status +++ "\n</run_status>"

-- the last message, where the status goes
unfoldable pub with_block : List ChatMessage → String → List ChatMessage
with_block [] block = plain_message user block ∷ []
with_block (m ∷ []) block =
    if is_tool m.role
    then record m { content = some (text_of m.content +++ "\n\n" +++ block) } ∷ []
    else m ∷ plain_message user block ∷ []
with_block (m ∷ n ∷ messages) block = m ∷ with_block (n ∷ messages) block

abbrev with_status_text : Bool → List ChatMessage → String → List ChatMessage
with_status_text true messages status = messages
with_status_text false messages status = with_block messages (status_block status)

-- `with_status`
unfoldable pub with_status : List ChatMessage → Option String → List ChatMessage
with_status messages none = messages
with_status messages (some status) = with_status_text (nat_beq (chars status) 0) messages status

-- `append` and `append_turn`
unfoldable pub append_message : ChatMessage → Transcript → Transcript
append_message m t = t ++ m ∷ []

unfoldable pub append_turn : AssistantTurnResult → Transcript → Transcript
append_turn turn t =
    append_message
      (record {
        role = assistant;
        content = none;
        tool_call_id = none;
        tool_calls = turn.tool_calls;
        opaque = turn.opaque;
      })
      t
