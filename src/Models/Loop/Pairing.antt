-- ===== src/Models/Loop/Pairing.antt =====
-- The messages that answer the tool calls of a response.
use purrcept_core.Base.{
  ◌≡◌, refl, sym, ◌∙◌, some, List, [], ◌∷◌, ◌++◌, append-nil, append_assoc, Result, ok, err,
  ok_with,
}
use purrcept_core.Models.Messages.{Message, tool, tool_result_block, ToolCall, Error}
use purrcept_core.Models.Prompt.Session.{TurnPromptSession}
use purrcept_core.Models.Loop.{
  ToolResult, TurnServices, Working, tool_message, invoke_tools, resume_turn,
}
use purrcept_core.Models.Loop.Commit.{with_result}

-- A message of the tool to the model: it carries the call's identifier and the tool's name, and the
-- result's content and error flag.
pub record IsAnswer (call : ToolCall) (result : ToolResult) (m : Message) : Type 0 where
  pub of_tool : m.role ≡ tool
  pub one_block : m.content ≡ tool_result_block call.id result.content result.is_error ∷ []
  pub tool_named : m.name ≡ some call.name

-- One message for each call, with its result.
abbrev pub Answers : List ToolCall → List ToolResult → List Message → Type 0
Answers [] [] [] = Unit
Answers (call ∷ calls) (result ∷ results) (m ∷ ms) =
    IsAnswer call result m × Answers calls results ms
Answers _ _ _ = ⊥

-- From `w` to `w'` the calls are invoked one after the other, on the tools of their names, and give
-- these results.
abbrev pub Invoked :
    {W : Type 0} → TurnServices W → List ToolCall → W → List ToolResult → W → Type 0
Invoked services [] w [] w' = w ≡ w'
Invoked {W} services (call ∷ calls) w (result ∷ results) w' =
    (w₁ : W) × (services.invoke (services.get_tool call.name) call w ≡ (ok result, w₁))
    × Invoked services calls w₁ results w'
Invoked services _ w _ w' = ⊥

-- The working copy has gained the result of each call and its message, in the order of the calls.
pub record Answered {W : Type 0} (services : TurnServices W) (calls : List ToolCall)
    (k k' : Working) (w w' : W) : Type 0 where
  pub results : List ToolResult
  pub added : List Message
  pub invoked : Invoked services calls w results w'
  pub paired : Answers calls results added
  pub messages_added : k'.messages ≡ k.messages ++ added
  pub results_added : k'.tool_results ≡ k.tool_results ++ results
  pub continuation_kept : k'.continuation ≡ k.continuation

module _ {W : Type 0} (services : TurnServices W) where
  Answered-first :
      (call : ToolCall) (calls : List ToolCall) (result : ToolResult) (k k' : Working) (w w₁ w' : W)
      → services.invoke (services.get_tool call.name) call w ≡ (ok result, w₁)
      → Answered services calls (with_result k call result) k' w₁ w'
      → Answered services (call ∷ calls) k k' w w'
  Answered-first call calls result k k' w w₁ w' first h = record {
    results = result ∷ h.results;
    added = tool_message call result ∷ h.added;
    invoked = (w₁, first, h.invoked);
    paired = (record { of_tool = refl; one_block = refl; tool_named = refl }, h.paired);
    messages_added =
        h.messages_added ∙ append_assoc k.messages (tool_message call result ∷ []) h.added;
    results_added = h.results_added ∙ append_assoc k.tool_results (result ∷ []) h.results;
    continuation_kept = h.continuation_kept;
  }

  after_first :
      (call : ToolCall) (calls : List ToolCall) (k k' : Working) (s : TurnPromptSession W) (w : W)
      (t : Result Error ToolResult × W)
      → services.invoke (services.get_tool call.name) call w ≡ t
      → ((result : ToolResult) (w₁ : W)
          → (invoke_tools services calls (with_result k call result) s w₁).0 ≡ ok k'
          → Answered services calls
              (with_result k call result)
              k'
              w₁
              (invoke_tools services calls (with_result k call result) s w₁).2)
      → let ended =
          resume_turn
            (λ result. invoke_tools services calls (with_result k call result))
            (t.0, s, t.1) in
        ended.0 ≡ ok k' → Answered services (call ∷ calls) k k' w ended.2
  after_first call calls k k' s w (ok result, w₁) first rest h =
      Answered-first call calls result k k' w w₁ _ first (rest result w₁ h)
  after_first call calls k k' s w (err e, w₁) first rest h = absurd (cc)

  -- Where every tool call of a response is performed, the calls were invoked one after the other, each
  -- on the tool of its name, and the turn has gained the result of each and one message of the tool,
  -- which carries the call's identifier, the tool's name and the result's content and error flag, in
  -- the order of the calls.
  pub invoke_tools-Answered :
      (calls : List ToolCall) (k k' : Working) (s : TurnPromptSession W) (w : W)
      → (invoke_tools services calls k s w).0 ≡ ok k'
      → Answered services calls k k' w (invoke_tools services calls k s w).2
  unfolding invoke_tools
  invoke_tools-Answered [] k k' s w h =
      ok_with (λ k'. Answered services [] k k' w w) k k' (ok k) refl h
        (record {
          results = [];
          added = [];
          invoked = refl;
          paired = tt;
          messages_added = sym (append-nil k.messages);
          results_added = sym (append-nil k.tool_results);
          continuation_kept = refl;
        })
  invoke_tools-Answered (call ∷ calls) k k' s w h =
      after_first call calls k k' s w (services.invoke (services.get_tool call.name) call w) refl
        (λ result w₁ q. invoke_tools-Answered calls (with_result k call result) k' s w₁ q) h
