-- ===== src/Models/Messages.antt =====
-- messages.py, content.py, responses.py and continuation.py: the values that a conversation is made
-- of, and the errors of the model layer. What the code only passes on (JSON metadata, arguments,
-- media, settings) is an opaque object.
use purrcept_core.Base.{ℕ, String, Bool, true, false, Option, List, [], ◌∷◌}
use purrcept_core.Runtime.Exceptions.{Obj, Exc}

pub data MessageRole : Type 0 where
  user assistant tool : MessageRole

abbrev pub same_role : MessageRole → MessageRole → Bool
same_role user user = true
same_role assistant assistant = true
same_role tool tool = true
same_role _ _ = false

-- `ToolCallBlock`
pub record ToolCall : Type 0 where
  pub id : String
  pub name : String
  pub arguments : Obj

-- The content blocks; `media` is an image or an audio block, or an application's own. The content of
-- a tool result nests.
mutual
  pub data Block : Type 0 where
    text_block reasoning_block : String → Block
    media_block : Obj → Block
    tool_call_block : ToolCall → Block
    tool_result_block : String → Blocks → Bool → Block

  pub data Blocks : Type 0 where
    no_blocks : Blocks
    one_block : Block → Blocks → Blocks

abbrev pub to_blocks : List Block → Blocks
to_blocks [] = no_blocks
to_blocks (b ∷ bs) = one_block b (to_blocks bs)

pub record Message : Type 0 where
  pub role : MessageRole
  pub content : List Block
  pub name : Option String
  pub metadata : Obj

-- `ModelContinuation` and `Model`, of which the code reads nothing here.
abbrev pub Continuation : Type 0
Continuation = Obj

abbrev pub Model : Type 0
Model = Obj

pub record ModelResponse : Type 0 where
  pub message : Message
  pub continuation : Option Continuation

-- `ModelResponse.tool_calls`: the calls at the top level of the content.
unfoldable pub calls_in : List Block → List ToolCall
calls_in [] = []
calls_in (tool_call_block c ∷ bs) = c ∷ calls_in bs
calls_in (b ∷ bs) = calls_in bs

abbrev pub tool_calls : ModelResponse → List ToolCall
tool_calls r = calls_in r.message.content

-- The exceptions of the model layer; `raised` is one of the application or of Python.
pub data Error : Type 0 where
  type_error value_error : Error
  budget_exceeded : ℕ → ℕ → Error
  prompt_compile : String → Error
  conversation_busy : Error
  tool_loop_limit : ℕ → ModelResponse → Error
  assertion_error : Error
  -- No exception: a loop of the model has used up its fuel.
  out_of_fuel : Error
  raised : Exc → Error
