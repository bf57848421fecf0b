-- ===== src/Models/Loop/Tests.antt =====
-- Tests of a turn: a model that answers at once.
use purrcept_core.Base.{
  String, List, ℕ, false, ◌≡◌, refl, none, some, [], ◌∷◌, Result, ok, err, ◌+◌,
}
use purrcept_core.Models.Messages.{
  Message, ToolCall, no_blocks, MessageRole, user, assistant, text_block, ModelResponse, Error,
  type_error,
}
use purrcept_core.Models.Context.{ConversationState, PreparedContext, append_only}
use purrcept_core.Models.Reminders.{make_reminders}
use purrcept_core.Models.Prompt.Session.{TurnPromptSession, new_session}
use purrcept_core.Models.Loop.{
  Working, TurnServices, TurnConfig, PolicyReply, prepared, prepare_raised, run_model_turn,
}
use purrcept_core.Models.Loop.Commit.{IsCommit, OnOk, turn_commits, with_result}
use purrcept_core.Models.Loop.Pairing.{Answered, invoke_tools-Answered}
use purrcept_core.Models.Loop.{model_rounds, poll_input, ask_model, invoke_tools}
use purrcept_core.Models.Context.{make_state, normalize_boundaries, make_prepared}
use purrcept_core.Models.Prompt.Session.{
  session_compile, compile_loop, attempt, resolve_sources, active_reminders, accept_prompt,
  check_budget, emit_prompt_trace,
}
use purrcept_core.Models.Prompt.Compiler.{
  compile, normalize_source_ids, validate_unique_keys, insert_entry, sort_entries,
}
use purrcept_core.Models.Prompt.Request.{has_duplicates, validate_request}
use purrcept_core.Models.Messages.{calls_in}
use purrcept_core.Models.Reminders.{clear, has_key, normalize_from, replace_key, upsert_reminder}

abbrev said : MessageRole → String → Message
said role t = record { role = role; content = text_block t ∷ []; name = none; metadata = 0 }

abbrev reply : ModelResponse
reply = record { message = said assistant "hello"; continuation = some 9 }

abbrev by_result : Result Error PreparedContext → PolicyReply
by_result (ok p) = prepared p
by_result (err e) = prepare_raised e

-- The world counts the generations.
abbrev pub services : TurnServices ℕ
services = record {
  poll = none;
  prepare = λ state model w. (by_result (append_only state), w);
  generate = λ request w. (ok reply, w + 1);
  get_tool = λ name. none;
  invoke = λ found call w. (err type_error, w);
}

abbrev pub config : TurnConfig ℕ
config = record {
  model = 0;
  instructions = [];
  tools = [];
  settings = record { requires_tool = false; options = 0 };
  cache = 0;
  client_managed = false;
  metadata = 0;
  provider_options = 0;
  request_budget = none;
  hashes = record { reminder_hash = λ content. 0; request_hash = λ request. 0 };
}

abbrev pub state : ConversationState
state = record {
  messages = said user "a" ∷ said assistant "b" ∷ [];
  continuation = none;
  turn_index = 1;
  turn_boundaries = 2 ∷ [];
}

abbrev pub hello : Message
hello = said user "hi"

abbrev session : TurnPromptSession ℕ
session = new_session (make_reminders []) [] none

turn_commits_example :
    OnOk (IsCommit state hello 3) (run_model_turn services config state hello 3 session 0).0
turn_commits_example = turn_commits services state hello config 3 session 0

answered_once :
    (run_model_turn services config state hello 3 session 0).0
    ≡ ok (record {
      response = reply;
      state = record {
        messages = said user "a" ∷ said assistant "b" ∷ hello ∷ said assistant "hello" ∷ [];
        continuation = some 9;
        turn_index = 2;
        turn_boundaries = 2 ∷ 4 ∷ [];
      };
      model_rounds = 1;
      tool_results = [];
    })
unfolding run_model_turn model_rounds poll_input ask_model make_state normalize_boundaries
    append_only make_prepared session_compile compile_loop attempt resolve_sources new_session
    compile normalize_source_ids has_duplicates validate_unique_keys active_reminders invoke_tools
    calls_in insert_entry sort_entries validate_request accept_prompt check_budget emit_prompt_trace
    clear has_key make_reminders normalize_from replace_key upsert_reminder
answered_once = refl

-- Services whose tools answer with nothing.
abbrev answering : TurnServices ℕ
answering = record services {
  invoke = λ found call w. (ok (record { content = no_blocks; is_error = false }), w + 1);
}

abbrev two_calls : List ToolCall
two_calls =
    record { id = "1"; name = "a"; arguments = 0 }
    ∷ record { id = "2"; name = "b"; arguments = 0 }
    ∷ []

abbrev before_tools : Working
before_tools = record { messages = hello ∷ []; continuation = some 4; tool_results = [] }

abbrev answered_both : Working
answered_both =
    with_result
      (with_result before_tools (record { id = "1"; name = "a"; arguments = 0 })
        (record { content = no_blocks; is_error = false }))
      (record { id = "2"; name = "b"; arguments = 0 })
      (record { content = no_blocks; is_error = false })

both_invoked : (invoke_tools answering two_calls before_tools session 0).0 ≡ ok answered_both
unfolding invoke_tools
both_invoked = refl

invoke_tools-Answered_example :
    Answered answering two_calls before_tools answered_both 0
      (invoke_tools answering two_calls before_tools session 0).2
invoke_tools-Answered_example =
    invoke_tools-Answered answering two_calls before_tools answered_both session 0 both_invoked
