-- ===== src/Models/Conversation/Setup.antt =====
-- conversation.py: the constructor of a conversation, which accepts texts, templates and values. The
-- arguments that are only checked for their type, and the cache policy, are given as they are kept.
pub mod Ready
mod Tests
use purrcept_core.Base.{
  ℕ, ◌≤◌, String, Bool, true, false, not, ◌&&◌, ◌≡◌, refl, sym, ap, Option, none, some, List, [],
  ◌∷◌, map, Result, ok, err, ◌>>=◌, ◌>>◌, bind_ok, ok_with, raise_if, raise_if-ok, leb, leb→gt, ⊤,
}
use purrcept_core.Base.Int.{pos}
use purrcept_core.Runtime.Exceptions.{Obj}
use purrcept_core.Runtime.Events.{Reply}
use purrcept_core.Models.Messages.{Model, Error, text_block}
use purrcept_core.Models.Json.{Store, Value, Json, object, no_fields, freeze_json_object}
use purrcept_core.Models.Context.{ConversationState}
use purrcept_core.Models.Reminders.{
  SystemReminder, ReminderState, next_request, auto, make_reminders,
}
use purrcept_core.Models.Reminders.Keys.{UniqueKeys, reminder_state_keys}
use purrcept_core.Models.Prompt.Request.{
  SystemInstruction, ToolSpec, ModelSettings, given_keys, has_duplicates,
}
use purrcept_core.Models.Prompt.Compiler.{Hashes}
use purrcept_core.Models.Prompt.Session.{
  Source, PromptTraceEvent, RequestTokenBudget, normalize_reminder_sources,
}
use purrcept_core.Models.Prompt.Template.{PromptError, PromptTemplate, Str, render}
use purrcept_core.Models.Tools.{ToolError, FunctionTool, ToolSet, ToolLike, tool_set}
use purrcept_core.Models.Loop.{TurnConfig, is_nil, validate_max_model_rounds}
use purrcept_core.Models.Conversation.{Conversation, empty_state}

pub data SetupError : Type 0 where
  setup_type_error setup_value_error : SetupError
  setup_prompt : PromptError → SetupError
  setup_tool : ToolError → SetupError
  setup_error : Error → SetupError

-- A member of an iterable of templates and values.
pub data AuthoredItem (A : Type 0) : Type 0 where
  item_template : PromptTemplate → AuthoredItem A
  item_value : A → AuthoredItem A
  item_other : AuthoredItem A

-- A text, a template, a value, an iterable, or something else.
pub data Authored (A : Type 0) : Type 0 where
  one_text : String → Authored A
  one_template : PromptTemplate → Authored A
  one_value : A → Authored A
  many : List (AuthoredItem A) → Authored A
  not_authored : Authored A

-- `SystemInstruction.from_text` and `SystemReminder` of a text, with the defaults.
abbrev pub text_instruction : String → SystemInstruction
text_instruction text = record { content = text_block text ∷ []; key = none; stability = 0 }

abbrev pub default_reminder : String → SystemReminder
default_reminder text = record {
  content = text_block text ∷ [];
  key = none;
  scope = next_request;
  placement = auto;
  priority = pos 0;
}

abbrev pub of_prompt : {A : Type 0} → (String → A) → Result PromptError String → Result SetupError A
of_prompt f (ok text) = ok (f text)
of_prompt f (err e) = err (setup_prompt e)

abbrev pub all_authored : {A : Type 0} → List (AuthoredItem A) → Result SetupError ⊤
all_authored [] = ok tt
all_authored (item_other ∷ items) = err setup_type_error
all_authored (item ∷ items) = all_authored items

module _ (str : Str) where
  -- `template.instruction()` and `template.reminder()`: a strict rendering without values.
  abbrev pub rendered : {A : Type 0} → (String → A) → PromptTemplate → Result SetupError A
  rendered f t = of_prompt f (render str t true none [])

  abbrev pub authored_item : {A : Type 0} → (String → A) → AuthoredItem A → Result SetupError A
  authored_item f (item_template t) = rendered f t
  authored_item f (item_value a) = ok a
  authored_item f item_other = err setup_type_error

  abbrev pub authored_items :
      {A : Type 0} → (String → A) → List (AuthoredItem A) → Result SetupError (List A)
  authored_items f [] = ok []
  authored_items f (item ∷ items) =
      authored_item f item >>= λ a. authored_items f items >>= λ rest. ok (a ∷ rest)

  abbrev pub authored : {A : Type 0} → (String → A) → Authored A → Result SetupError (List A)
  authored f (one_text text) = ok (f text ∷ [])
  authored f (one_template t) = rendered f t >>= λ a. ok (a ∷ [])
  authored f (one_value a) = ok (a ∷ [])
  authored f (many items) = all_authored items >> authored_items f items
  authored f not_authored = err setup_type_error

  -- `_normalize_instructions`
  unfoldable pub normalize_instructions :
      Authored SystemInstruction → Result SetupError (List SystemInstruction)
  normalize_instructions value = authored text_instruction value >>= λ instructions.
      raise_if (has_duplicates (given_keys (map (λ i. i.key) instructions))) setup_value_error
      >> ok instructions

  -- `_normalize_reminders`
  unfoldable pub normalize_reminders : Authored SystemReminder → Result SetupError ReminderState
  normalize_reminders value =
      authored default_reminder value >>= λ reminders. ok (make_reminders reminders)

-- A tool set, an iterable, or something else.
pub data ToolsArg : Type 0 where
  given_set : ToolSet → ToolsArg
  given_tools : List ToolLike → ToolsArg
  not_tools : ToolsArg

abbrev pub of_tools : Result ToolError ToolSet → Result SetupError ToolSet
of_tools (ok tools) = ok tools
of_tools (err e) = err (setup_tool e)

-- `_normalize_tools`
unfoldable pub normalize_tools :
    (Obj → Result ToolError FunctionTool) → ToolsArg → Result SetupError ToolSet
normalize_tools wrap (given_set tools) = ok tools
normalize_tools wrap (given_tools values) = of_tools (tool_set wrap values)
normalize_tools wrap not_tools = err setup_type_error

-- The arguments of the constructor.
pub record Setup (W : Type 0) : Type 0 where
  pub model : Model
  pub instructions : Authored SystemInstruction
  pub reminders : Authored SystemReminder
  pub tools : ToolsArg
  pub settings : ModelSettings
  pub cache : Obj
  pub client_managed : Bool
  pub reminder_sources : List (Source W)
  pub hashes : Hashes
  pub request_budget : Option (RequestTokenBudget W)
  pub trace_sink : Option (PromptTraceEvent → W → Reply × W)
  pub max_model_rounds : ℕ
  pub metadata : Option Value
  pub provider_options : Option Value
  pub state : Option ConversationState

abbrev pub of_model : {A : Type 0} → Result Error A → Result SetupError A
of_model (ok a) = ok a
of_model (err e) = err (setup_error e)

-- `freeze_json_object({} if value is None else value, …)`, over the store of the containers.
abbrev pub freeze_option : Store → Option Value → Result SetupError Json
freeze_option store none = ok (object no_fields)
freeze_option store (some value) = of_model (freeze_json_object store value)

abbrev pub state_or : Option ConversationState → ConversationState
state_or none = empty_state
state_or (some state) = state

module _ {W : Type 0} where
  abbrev pub config_of : Setup W → List SystemInstruction → ToolSet → Obj → Obj → TurnConfig W
  config_of a instructions tools metadata provider_options = record {
    model = a.model;
    instructions = instructions;
    tools = tools.specs;
    settings = a.settings;
    cache = a.cache;
    client_managed = a.client_managed;
    metadata = metadata;
    provider_options = provider_options;
    request_budget = a.request_budget;
    hashes = a.hashes;
  }

  -- `Conversation.__init__`; `frozen` is the read-only object of a JSON value, which requests carry.
  unfoldable pub new_conversation :
      Str
      → (Obj → Result ToolError FunctionTool)
      → (Json → Obj)
      → Store
      → Setup W
      → Result SetupError (Conversation W)
  new_conversation str wrap frozen store a =
      normalize_instructions str a.instructions >>= λ instructions.
      normalize_reminders str a.reminders >>= λ reminders. normalize_tools wrap a.tools >>= λ tools.
      raise_if (a.settings.requires_tool && is_nil tools.specs) setup_value_error
      >> (of_model (normalize_reminder_sources a.reminder_sources) >>= λ sources.
          of_model (validate_max_model_rounds a.max_model_rounds)
          >> (freeze_option store a.metadata >>= λ metadata.
              freeze_option store a.provider_options >>= λ provider_options. ok (record {
                config = config_of a instructions tools (frozen metadata) (frozen provider_options);
                reminder_sources = sources;
                trace_sink = a.trace_sink;
                max_model_rounds = a.max_model_rounds;
                state = state_or a.state;
                reminder_state = reminders;
                busy = false;
              })))
