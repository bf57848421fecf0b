-- ===== src/Models/Tools/Define.antt =====
-- tools/function.py, values.py and errors.py: the tool of a callable, and its policies.
use purrcept_core.Base.{
  String, str_eq, Bool, true, false, not, Option, none, some, Result, ok, err, ◌>>=◌, ◌>>◌,
  raise_if, if◌then◌else◌, ⊤,
}
use purrcept_core.Runtime.Exceptions.{Obj, Exc, is_exception}
use purrcept_core.Models.Prompt.Request.{ToolSpec}

-- `tool_raised` is an error of the application. `input_validation` is `ToolInputValidationError`.
pub data ToolError : Type 0 where
  tool_type_error tool_value_error unknown_tool input_validation tool_definition : ToolError
  encoding_error : ToolError
  tool_raised : Exc → ToolError

-- `isinstance(error, Exception)`
abbrev pub is_tool_exception : ToolError → Bool
is_tool_exception (tool_raised e) = is_exception e
is_tool_exception _ = true

pub data ToolErrorPolicy : Type 0 where
  propagate return_to_model : ToolErrorPolicy

pub data SyncToolPolicy : Type 0 where
  inline thread : SyncToolPolicy

abbrev pub runs_in_thread : SyncToolPolicy → Bool
runs_in_thread inline = false
runs_in_thread thread = true

-- `FunctionTool`
pub record FunctionTool : Type 0 where
  pub function : Obj
  pub name : String
  pub description : Option String
  pub error_policy : ToolErrorPolicy
  pub sync_policy : SyncToolPolicy
  pub spec : ToolSpec
  pub adapter : Obj

-- A policy is given as one, by its value, or as something else.
pub data PolicyOr (P : Type 0) : Type 0 where
  policy : P → PolicyOr P
  policy_value : String → PolicyOr P
  no_policy : PolicyOr P

-- `_resolve_error_policy` and `_resolve_sync_policy`
unfoldable pub resolve_error_policy : PolicyOr ToolErrorPolicy → Result ToolError ToolErrorPolicy
resolve_error_policy (policy p) = ok p
resolve_error_policy no_policy = err tool_type_error
resolve_error_policy (policy_value s) =
    if str_eq s "propagate"
    then ok propagate
    else (if str_eq s "return_to_model" then ok return_to_model else err tool_value_error)

unfoldable pub resolve_sync_policy : PolicyOr SyncToolPolicy → Result ToolError SyncToolPolicy
resolve_sync_policy (policy p) = ok p
resolve_sync_policy no_policy = err tool_type_error
resolve_sync_policy (policy_value s) =
    if str_eq s "inline"
    then ok inline
    else (if str_eq s "thread" then ok thread else err tool_value_error)

-- A name is given or not, as a string or not; `inferred` is the callable's `__name__`.
pub data NameArg : Type 0 where
  no_name : NameArg
  string_name : String → NameArg
  other_name : NameArg

-- `_resolve_name`
unfoldable pub resolve_name : Option String → NameArg → Result ToolError String
resolve_name inferred (string_name s) = raise_if (str_eq s "") tool_value_error >> ok s
resolve_name inferred other_name = err tool_type_error
resolve_name none no_name = err tool_definition
resolve_name (some s) no_name = raise_if (str_eq s "") tool_definition >> ok s

-- What Python's introspection, docstrings and the schema library say of a callable: whether it can be
-- called, its name, its description with those of its parameters, the argument adapter with its
-- schema, and the check of a specification.
pub record Inspection : Type 0 where
  pub callable : Obj → Bool
  pub name_of : Obj → Option String
  pub documentation : Obj → String → Option String → Result ToolError (Option String × Obj)
  pub make_adapter : Obj → String → Obj → Result ToolError (Obj × Obj)
  pub check_spec : ToolSpec → Result ToolError ⊤

-- `except (TypeError, ValueError)`: a definition error names the tool.
abbrev pub as_definition : ToolError → ToolError
as_definition tool_type_error = tool_definition
as_definition tool_value_error = tool_definition
as_definition e = e

abbrev pub defined : {A : Type 0} → Result ToolError A → Result ToolError A
defined (ok a) = ok a
defined (err e) = err (as_definition e)

abbrev pub spec_of : String → Option String → Obj → ToolSpec
spec_of name description schema = record {
  name = name;
  description = description;
  parameters = schema;
}

-- `FunctionTool.__init__`
unfoldable pub function_tool :
    Inspection
    → Obj
    → NameArg
    → Option String
    → PolicyOr ToolErrorPolicy
    → PolicyOr SyncToolPolicy
    → Result ToolError FunctionTool
function_tool inspect function name description error_policy sync_policy =
    raise_if (not (inspect.callable function)) tool_type_error
    >> resolve_error_policy error_policy
    >>= λ errors. resolve_sync_policy sync_policy >>= λ sync.
        resolve_name (inspect.name_of function) name >>= λ n.
        inspect.documentation function n description >>= λ doc.
        defined (
          inspect.make_adapter function n doc.1 >>= λ made.
          inspect.check_spec (spec_of n doc.0 made.1) >> ok made)
        >>= λ made. ok (record {
          function = function;
          name = n;
          description = doc.0;
          error_policy = errors;
          sync_policy = sync;
          spec = spec_of n doc.0 made.1;
          adapter = made.0;
        })

-- `FunctionTool(function)`, with the defaults.
abbrev pub default_tool : Inspection → Obj → Result ToolError FunctionTool
default_tool inspect function =
    function_tool inspect function no_name none (policy propagate) (policy inline)
