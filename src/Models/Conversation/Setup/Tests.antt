-- ===== src/Models/Conversation/Setup/Tests.antt =====
-- Tests of the constructor of a conversation: a template as its instruction, and two reminders.
use purrcept_core.Base.{ℕ, true, false, ◌≡◌, refl, none, [], ◌∷◌, ok, err, Result}
use purrcept_core.Runtime.Exceptions.{Obj}
use purrcept_core.Models.Prompt.Template.{
  render, merge_values, reject_unknown_keys, render_parts, call_policy, optional,
  is_effectively_empty,
}
use purrcept_core.Models.Prompt.Template.Tests.{python, greeting, ann}
use purrcept_core.Models.Messages.{value_error}
use purrcept_core.Models.Json.{Json}
use purrcept_core.Models.Prompt.Session.{normalize_reminder_sources}
use purrcept_core.Models.Prompt.Request.{has_duplicates}
use purrcept_core.Models.Reminders.{make_reminders}
use purrcept_core.Models.Tools.{ToolError, FunctionTool, tool_definition, tool_set, register}
use purrcept_core.Models.Conversation.{Conversation, empty_state}
use purrcept_core.Models.Conversation.Setup.{
  Setup, setup_error, one_template, many, item_template, item_value, given_tools, text_instruction,
  default_reminder, config_of, normalize_instructions, normalize_reminders, normalize_tools,
  new_conversation,
}
use purrcept_core.Models.Conversation.Setup.Ready.{Ready, new_conversation-Ready}

abbrev wrap : Obj → Result ToolError FunctionTool
wrap function = err tool_definition

abbrev frozen : Json → Obj
frozen value = 7

abbrev setup : ℕ → Setup ℕ
setup rounds = record {
  model = 0;
  instructions = one_template (greeting ann);
  reminders = many (item_value (default_reminder "note") ∷ item_template (greeting ann) ∷ []);
  tools = given_tools [];
  settings = record { requires_tool = false; options = 0 };
  cache = 0;
  client_managed = true;
  reminder_sources = [];
  hashes = record { reminder_hash = λ content. 0; request_hash = λ request. 0 };
  request_budget = none;
  trace_sink = none;
  max_model_rounds = rounds;
  metadata = none;
  provider_options = none;
  state = none;
}

abbrev conversation : Conversation ℕ
conversation = record {
  config =
      config_of (setup 8) (text_instruction "Hi Ann!" ∷ []) (record { tools = []; specs = [] }) 7 7;
  reminder_sources = [];
  trace_sink = none;
  max_model_rounds = 8;
  state = empty_state;
  reminder_state = make_reminders (default_reminder "note" ∷ default_reminder "Hi Ann!" ∷ []);
  busy = false;
}

made : new_conversation python wrap frozen [] (setup 8) ≡ ok conversation
unfolding new_conversation normalize_instructions normalize_reminders normalize_tools tool_set
    register render merge_values reject_unknown_keys render_parts call_policy optional
    is_effectively_empty has_duplicates normalize_reminder_sources
made = refl

no_rounds : new_conversation python wrap frozen [] (setup 0) ≡ err (setup_error value_error)
unfolding new_conversation normalize_instructions normalize_reminders normalize_tools tool_set
    register render merge_values reject_unknown_keys render_parts call_policy optional
    is_effectively_empty has_duplicates normalize_reminder_sources
no_rounds = refl

new_conversation-Ready_example : Ready conversation
new_conversation-Ready_example =
    new_conversation-Ready python wrap frozen [] (setup 8) conversation made
