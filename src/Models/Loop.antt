-- ===== src/Models/Loop.antt =====
-- loop.py: one turn of user, model and tools. Performing an effect is a call of a service on the world
-- `W`, which returns what the driver sends back or raises what it throws in.
mod Step
pub mod Commit
pub mod Reminders
pub mod Pairing
pub mod Tests
pub use Step.*
use purrcept_core.Base.{
  ℕ, zero, suc, ◌+◌, ◌-◌, String, Bool, true, false, not, ◌&&◌, ◌||◌, ◌≡◌, Option, none, some, List,
  [], ◌∷◌, ◌++◌, map, Result, ok, err, length, ◌==◌, if◌then◌else◌, ⊤, raise_if, leb,
}
use purrcept_core.Runtime.Exceptions.{Obj}
use purrcept_core.Models.Messages.{
  Block, Blocks, Message, MessageRole, user, tool, same_role, tool_result_block, ToolCall, Model,
  ModelResponse, tool_calls, Continuation, Error, type_error, value_error, assertion_error,
  out_of_fuel, tool_loop_limit,
}
use purrcept_core.Models.Context.{ConversationState, PreparedContext, make_state}
use purrcept_core.Models.Prompt.Request.{SystemInstruction, ToolSpec, ModelSettings, ModelRequest}
use purrcept_core.Models.Prompt.Compiler.{PromptDraft, CompiledPrompt, Hashes}
use purrcept_core.Models.Prompt.Session.{
  TurnPromptSession, RequestTokenBudget, Compiled, session_compile,
}

-- `ToolResult`
pub record ToolResult : Type 0 where
  pub content : Blocks
  pub is_error : Bool

pub record ModelTurnResult : Type 0 where
  pub response : ModelResponse
  pub state : ConversationState
  pub model_rounds : ℕ
  pub tool_results : List ToolResult

-- What polling for input comes to; `none` in the tuple is a value that is no message.
pub data PollReply : Type 0 where
  polled : List (Option Message) → PollReply
  polled_other : PollReply
  poll_raised : Error → PollReply

pub data PolicyReply : Type 0 where
  prepared : PreparedContext → PolicyReply
  prepared_awaitable prepared_other : PolicyReply
  prepare_raised : Error → PolicyReply

-- The effects and callbacks of a turn. `get_tool` is `ToolSet.get`, and `invoke` performs
-- `InvokeTool`.
pub record TurnServices (W : Type 0) : Type 0 where
  pub poll : Option (W → PollReply × W)
  pub prepare : ConversationState → Model → W → PolicyReply × W
  pub generate : ModelRequest → W → Result Error ModelResponse × W
  pub get_tool : String → Option Obj
  pub invoke : Option Obj → ToolCall → W → Result Error ToolResult × W

-- The configuration of a conversation, which a turn reads.
pub record TurnConfig (W : Type 0) : Type 0 where
  pub model : Model
  pub instructions : List SystemInstruction
  pub tools : List ToolSpec
  pub settings : ModelSettings
  pub cache : Obj
  pub client_managed : Bool
  pub metadata : Obj
  pub provider_options : Obj
  pub request_budget : Option (RequestTokenBudget W)
  pub hashes : Hashes

-- `working_messages`, `working_continuation` and `tool_results`.
pub record Working : Type 0 where
  pub messages : List Message
  pub continuation : Option Continuation
  pub tool_results : List ToolResult

abbrev pub extend : Working → List Message → Working
extend k more = record k { messages = k.messages ++ more }

abbrev add_user : Message → Result Error (List Message) → Result Error (List Message)
add_user m (ok ms) = ok (m ∷ ms)
add_user m (err e) = err e

-- The check of `_poll_input`: every value is a message of the user.
abbrev pub require_users : List (Option Message) → Result Error (List Message)
require_users [] = ok []
require_users (none ∷ items) = err type_error
require_users (some m ∷ items) =
    let rest = require_users items in
    if same_role m.role user then add_user m rest else err type_error

abbrev pub poll_value : PollReply → Result Error (List Message)
poll_value (polled items) = require_users items
poll_value polled_other = err type_error
poll_value (poll_raised e) = err e

abbrev pub policy_value : PolicyReply → Result Error PreparedContext
policy_value (prepared p) = ok p
policy_value prepared_awaitable = err type_error
policy_value prepared_other = err type_error
policy_value (prepare_raised e) = err e

-- `_request_continuation`
abbrev pub request_continuation : Bool → Option Continuation → Option Continuation
request_continuation true c = none
request_continuation false c = c

-- `validate_max_model_rounds`
abbrev pub validate_max_model_rounds : ℕ → Result Error ⊤
validate_max_model_rounds n = raise_if (leb n 0) value_error

-- The message that carries the result of a call.
abbrev pub tool_message : ToolCall → ToolResult → Message
tool_message call result = record {
  role = tool;
  content = tool_result_block call.id result.content result.is_error ∷ [];
  name = some call.name;
  metadata = 0;
}

abbrev pub new_draft : {W : Type 0} → TurnConfig W → PreparedContext → PromptDraft
new_draft config p = record {
  history = p;
  instructions = config.instructions;
  tools = config.tools;
  settings = config.settings;
  cache = config.cache;
  continuation = request_continuation config.client_managed p.continuation;
  metadata = config.metadata;
  provider_options = config.provider_options;
}

-- The session's `none`, which Prompt/Ending shows not to occur, as an error of its own.
abbrev pub compiled_or :
    {W : Type 0}
    → TurnPromptSession W
    → W
    → Option (Compiled W)
    → Result Error CompiledPrompt × TurnPromptSession W × W
compiled_or s w none = (err out_of_fuel, s, w)
compiled_or s w (some r) = r

abbrev pub is_nil {ℓ} : {A : Type ℓ} → List A → Bool
is_nil [] = true
is_nil (x ∷ xs) = false

abbrev pub turn_result :
    ModelResponse → ℕ → Working → Result Error ConversationState → Result Error ModelTurnResult
turn_result response model_round k (err e) = err e
turn_result response model_round k (ok committed) = ok (record {
  response = response;
  state = committed;
  model_rounds = model_round;
  tool_results = k.tool_results;
})

-- The commit: the state that closes the turn.
abbrev pub commit : ConversationState → ModelResponse → ℕ → Working → Result Error ModelTurnResult
commit state response model_round k = turn_result response model_round k (
    make_state k.messages k.continuation (suc state.turn_index)
      (state.turn_boundaries ++ length k.messages ∷ []))

abbrev pub answered : Working → ModelResponse → Working
answered k response = record {
  messages = k.messages ++ response.message ∷ [];
  continuation = response.continuation;
  tool_results = k.tool_results;
}

-- A new turn's working copy.
abbrev pub begin_working : ConversationState → Message → Working
begin_working state user_message = record {
  messages = state.messages ++ user_message ∷ [];
  continuation = state.continuation;
  tool_results = [];
}

abbrev pub poll_with : {W : Type 0} → Option (W → PollReply × W) → TurnStep W (List Message)
poll_with none s w = (ok [], s, w)
poll_with (some f) s w = let (reply, w') = f w in (poll_value reply, s, w')

module _ {W : Type 0} where
  -- `_poll_input`
  unfoldable pub poll_input : TurnServices W → TurnStep W (List Message)
  poll_input services = poll_with services.poll

  -- From the working copy to the model's response: the provisional state, the policy, the prompt, and
  -- the generation.
  unfoldable pub ask_model :
      TurnServices W → TurnConfig W → ConversationState → ℕ → Working → TurnStep W ModelResponse
  ask_model services config state model_round k =
      lift (make_state k.messages k.continuation state.turn_index state.turn_boundaries)
      after_turn λ provisional.
          (λ s w.
            let (reply, w') = services.prepare provisional config.model w in
            (policy_value reply, s, w'))
          after_turn λ p.
              (λ s w. compiled_or s w (
                session_compile config.hashes s (new_draft config p) config.model model_round
                  config.request_budget w))
              after_turn λ compiled.
                  (λ s w. let (r, w') = services.generate compiled.request w in (r, s, w'))

  -- The loop over the calls of a response.
  unfoldable pub invoke_tools : TurnServices W → List ToolCall → Working → TurnStep W Working
  invoke_tools services [] k = lift (ok k)
  invoke_tools services (call ∷ calls) k =
      (λ s w. let (r, w') = services.invoke (services.get_tool call.name) call w in (r, s, w'))
      after_turn λ result. invoke_tools services calls (record {
        messages = k.messages ++ tool_message call result ∷ [];
        continuation = k.continuation;
        tool_results = k.tool_results ++ result ∷ [];
      })

  -- After a response: commit, or stop at the limit, or invoke the tools and go on with `again`.
  abbrev pub settle_round :
      TurnServices W
      → ConversationState
      → (limit model_round : ℕ) → (Working → TurnStep W ModelTurnResult)
      → Working
      → ModelResponse
      → List Message
      → TurnStep W ModelTurnResult
  settle_round services state limit model_round again k response incoming =
      if is_nil (tool_calls response) && is_nil incoming
      then lift (commit state response model_round k)
      else (if model_round == limit
          then lift (err (tool_loop_limit limit response))
          else (invoke_tools services (tool_calls response) k after_turn λ k'.
              again (extend k' incoming)))

  -- The loop of `run_model_turn`, with `left` rounds to go.
  unfoldable pub model_rounds :
      TurnServices W
      → TurnConfig W
      → ConversationState
      → ℕ
      → ℕ
      → Working
      → TurnStep W ModelTurnResult
  model_rounds services config state limit zero k = lift (err assertion_error)
  model_rounds services config state limit (suc left) k =
      let again = model_rounds services config state limit left in
      let model_round = limit - left in
      poll_input services after_turn λ arrived.
      ask_model services config state model_round (extend k arrived) after_turn λ response.
      poll_input services after_turn λ incoming.
      settle_round services state limit model_round again (answered (extend k arrived) response)
        response incoming

  unfoldable pub run_model_turn :
      TurnServices W → TurnConfig W → ConversationState → Message → ℕ → TurnStep W ModelTurnResult
  run_model_turn services config state user_message limit =
      lift (raise_if (not (same_role user_message.role user)) value_error) after_turn λ _.
      lift (validate_max_model_rounds limit) after_turn λ _.
      model_rounds services config state limit limit (begin_working state user_message)
