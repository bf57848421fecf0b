-- ===== src/Models/Tools/Tests.antt =====
-- Tests of the tools: one that adds to the world, and one whose function fails.
use purrcept_core.Base.{
  ℕ, zero, suc, ◌+◌, String, Bool, ◌≡◌, ◌≢◌, refl, none, some, [], ◌∷◌, ok, err, Result,
}
use purrcept_core.Base.Sets.{Distinct}
use purrcept_core.Runtime.Exceptions.{Obj, ordinary}
use purrcept_core.Models.Messages.{ToolCall}
use purrcept_core.Models.Tools.{
  ToolError, tool_definition, input_validation, tool_raised, ToolErrorPolicy, propagate,
  return_to_model, inline, FunctionTool, ToolSet, a_tool, Returned, returned_text, text_result,
  ToolServices, register, tool_set, invoke, invoke_tool, encode_tool_result,
}
use purrcept_core.Models.Tools.Registry.{names, Registered, tool_set_registers}
use purrcept_core.Models.Tools.Invoke.{Raises, invoke_tool-Raises}

abbrev tool_named : String → Obj → ToolErrorPolicy → FunctionTool
tool_named name function policy = record {
  function = function;
  name = name;
  description = none;
  error_policy = policy;
  sync_policy = inline;
  spec = record { name = name; description = none; parameters = 0 };
  adapter = 0;
}

-- The function 1 fails, the others return a text. A call without arguments is invalid.
abbrev call_function : Obj → Bool → Obj → ℕ → Result ToolError Returned × ℕ
call_function (suc zero) threaded arguments w = (err (tool_raised (ordinary 3)), w + 1)
call_function function threaded arguments w = (ok (returned_text "done"), w + 1)

abbrev validated : Obj → Result ToolError Obj
validated zero = err input_validation
validated (suc n) = ok (suc n)

abbrev services : ToolServices ℕ
services = record {
  validate = λ adapter c. validated c.arguments;
  call = call_function;
  message = λ e. "failed";
  dumps = λ j. none;
}

abbrev add : FunctionTool
add = tool_named "add" 0 propagate

abbrev fail : FunctionTool
fail = tool_named "fail" 1 propagate

abbrev soft_fail : FunctionTool
soft_fail = tool_named "fail" 1 return_to_model

abbrev to_call : String → Obj → ToolCall
to_call name arguments = record { id = "c"; name = name; arguments = arguments }

added : invoke_tool services (some add) (to_call "add" 1) 0 ≡ (ok (text_result "done"), 1)
unfolding invoke_tool invoke encode_tool_result
added = refl

failed : (invoke_tool services (some fail) (to_call "fail" 1) 0).0 ≡ err (tool_raised (ordinary 3))
unfolding invoke_tool invoke
failed = refl

invoke_tool-Raises_example :
    (t : FunctionTool) × (some fail ≡ some t)
    × (t.name ≡ "fail")
    × (tool_raised (ordinary 3) ≢ input_validation)
    × Raises services t (to_call "fail" 1) 0 (tool_raised (ordinary 3))
invoke_tool-Raises_example =
    invoke_tool-Raises services (some fail) (to_call "fail" 1) 0 (tool_raised (ordinary 3)) failed

abbrev failing : ToolCall
failing = to_call "fail" 1

abbrev wrap : Obj → Result ToolError FunctionTool
wrap function = err tool_definition

two_named : tool_set wrap (a_tool add ∷ a_tool fail ∷ a_tool add ∷ []) ≡ err tool_definition
unfolding tool_set register
two_named = refl

tool_set_registers_example :
    (Distinct (names (add ∷ fail ∷ []))
      → (tools : ToolSet) × (tool_set wrap (a_tool add ∷ a_tool fail ∷ []) ≡ ok tools)
        × Registered tools (add ∷ fail ∷ []))
    × (¬ Distinct (names (add ∷ fail ∷ []))
        → tool_set wrap (a_tool add ∷ a_tool fail ∷ []) ≡ err tool_definition)
tool_set_registers_example =
    tool_set_registers wrap (a_tool add ∷ a_tool fail ∷ []) (add ∷ fail ∷ []) refl
