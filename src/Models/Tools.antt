-- ===== src/Models/Tools.antt =====
-- tools/: the tools of a conversation, their registry, and the invocation of one for a call of the
-- model. Functions, argument adapters and the text form of JSON are the application's and Python's.
mod Define
pub mod Registry
pub mod Invoke
pub mod Tests
pub use Define.*
use purrcept_core.Base.{
  ℕ, String, str_eq, Bool, true, false, Option, none, some, List, [], ◌∷◌, ◌++◌, map, Result, ok,
  err, ◌>>=◌, if◌then◌else◌,
}
use purrcept_core.Runtime.Exceptions.{Obj, Exc, is_exception}
use purrcept_core.Models.Messages.{Block, Blocks, to_blocks, text_block, ToolCall, Error}
use purrcept_core.Models.Loop.{ToolResult}
use purrcept_core.Models.Prompt.Request.{ToolSpec}
use purrcept_core.Models.Json.{Json, Store, to_json_value}
use purrcept_core.Models.Json as Json

-- `ToolSet`: the dict of the tools, in the order of their registration, and their specifications.
pub record ToolSet : Type 0 where
  pub tools : List (String × FunctionTool)
  pub specs : List ToolSpec

-- What a tool set is made of: a tool, a callable, or another value.
pub data ToolLike : Type 0 where
  a_tool : FunctionTool → ToolLike
  a_callable : Obj → ToolLike
  neither : ToolLike

abbrev pub find_tool : String → List (String × FunctionTool) → Option FunctionTool
find_tool name [] = none
find_tool name ((key, t) ∷ tools) =
    let rest = find_tool name tools in if str_eq key name then some t else rest

abbrev pub resolve_tool :
    (Obj → Result ToolError FunctionTool) → ToolLike → Result ToolError FunctionTool
resolve_tool wrap (a_tool t) = ok t
resolve_tool wrap (a_callable function) = wrap function
resolve_tool wrap neither = err tool_type_error

abbrev pub add_tool :
    List (String × FunctionTool) → FunctionTool → Result ToolError (List (String × FunctionTool))
add_tool by_name t = elim (find_tool t.name by_name) [
  | some old ↦ err tool_definition
  | none ↦ ok (by_name ++ (t.name, t) ∷ [])
]

-- The loop of the constructor; `wrap` is `FunctionTool` with its defaults.
unfoldable pub register :
    (Obj → Result ToolError FunctionTool)
    → List (String × FunctionTool)
    → List ToolLike
    → Result ToolError (List (String × FunctionTool))
register wrap by_name [] = ok by_name
register wrap by_name (value ∷ values) =
    resolve_tool wrap value >>= λ t. add_tool by_name t >>= λ more. register wrap more values

abbrev pub with_specs : List (String × FunctionTool) → ToolSet
with_specs by_name = record { tools = by_name; specs = map (λ p. p.1.spec) by_name }

-- `ToolSet.__init__`, on an iterable.
unfoldable pub tool_set :
    (Obj → Result ToolError FunctionTool) → List ToolLike → Result ToolError ToolSet
tool_set wrap values = register wrap [] values >>= λ by_name. ok (with_specs by_name)

-- `ToolSet.get` and `resolve`, for a string.
unfoldable pub get : ToolSet → String → Option FunctionTool
get tools name = find_tool name tools.tools

abbrev pub found_or : Option FunctionTool → Result ToolError FunctionTool
found_or none = err unknown_tool
found_or (some t) = ok t

unfoldable pub resolve : ToolSet → String → Result ToolError FunctionTool
resolve tools name = found_or (get tools name)

-- `error_tool_result`; `message` is `str` of an error, of an application whose errors can be shown.
abbrev pub error_tool_result : (ToolError → String) → ToolError → ToolResult
error_tool_result message e = record {
  content = to_blocks (text_block (message e) ∷ []);
  is_error = true;
}

-- What a tool's function returns: content, a text, `None`, or another object with what it refers to.
pub data Returned : Type 0 where
  returned_result : ToolResult → Returned
  returned_block : Block → Returned
  returned_text : String → Returned
  returned_none : Returned
  returned_object : Store → Json.Value → Returned

abbrev pub text_result : String → ToolResult
text_result text = record { content = to_blocks (text_block text ∷ []); is_error = false }

abbrev pub dumped : Option String → Result ToolError ToolResult
dumped (some text) = ok (text_result text)
dumped none = err encoding_error

abbrev pub encode_json : (Json → Option String) → Result Error Json → Result ToolError ToolResult
encode_json dumps (ok j) = dumped (dumps j)
encode_json dumps (err e) = err encoding_error

-- `encode_tool_result`; `dumps` is `json.dumps`, which may raise a `ValueError`.
unfoldable pub encode_tool_result : (Json → Option String) → Returned → Result ToolError ToolResult
encode_tool_result dumps (returned_result result) = ok result
encode_tool_result dumps (returned_block block) =
    ok (record { content = to_blocks (block ∷ []); is_error = false })
encode_tool_result dumps (returned_text text) = ok (text_result text)
encode_tool_result dumps returned_none = ok (record { content = to_blocks []; is_error = false })
encode_tool_result dumps (returned_object store v) = encode_json dumps (to_json_value store v)

-- What an invocation uses of the application and of Python, on the world `W`: an adapter's validation
-- of arguments, the call of a function with them, in a thread or not, with what it awaits, the text
-- of an error, and `json.dumps`.
pub record ToolServices (W : Type 0) : Type 0 where
  pub validate : Obj → ToolCall → Result ToolError Obj
  pub call : Obj → Bool → Obj → W → Result ToolError Returned × W
  pub message : ToolError → String
  pub dumps : Json → Option String

module _ {W : Type 0} (services : ToolServices W) where
  -- `except Exception`, by the policy.
  abbrev pub raised_result : ToolErrorPolicy → Bool → ToolError → Result ToolError ToolResult
  raised_result return_to_model true e = ok (error_tool_result services.message e)
  raised_result _ _ e = err e

  abbrev pub after_call :
      FunctionTool → Result ToolError Returned × W → Result ToolError ToolResult × W
  after_call t (ok value, w) = (encode_tool_result services.dumps value, w)
  after_call t (err e, w) = (raised_result t.error_policy (is_tool_exception e) e, w)

  abbrev pub call_validated :
      FunctionTool → Result ToolError Obj → W → Result ToolError ToolResult × W
  call_validated t (err e) w = (err e, w)
  call_validated t (ok arguments) w =
      after_call t (services.call t.function (runs_in_thread t.sync_policy) arguments w)

  abbrev pub invoke_named : Bool → FunctionTool → ToolCall → W → Result ToolError ToolResult × W
  invoke_named false t c w = (err unknown_tool, w)
  invoke_named true t c w = call_validated t (services.validate t.adapter c) w

  -- `FunctionTool.invoke`
  unfoldable pub invoke : FunctionTool → ToolCall → W → Result ToolError ToolResult × W
  invoke t c w = invoke_named (str_eq c.name t.name) t c w

  -- `except ToolInputValidationError`
  abbrev pub validation_result : Result ToolError ToolResult × W → Result ToolError ToolResult × W
  validation_result (err input_validation, w) =
      (ok (error_tool_result services.message input_validation), w)
  validation_result t = t

  abbrev pub invoke_found : Bool → FunctionTool → ToolCall → W → Result ToolError ToolResult × W
  invoke_found false t c w = (ok (error_tool_result services.message unknown_tool), w)
  invoke_found true t c w = validation_result (invoke t c w)

  -- `InvokeTool.execute`
  unfoldable pub invoke_tool : Option FunctionTool → ToolCall → W → Result ToolError ToolResult × W
  invoke_tool none c w = (ok (error_tool_result services.message unknown_tool), w)
  invoke_tool (some t) c w = invoke_found (str_eq t.name c.name) t c w
