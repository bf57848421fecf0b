-- ===== src/Lib.antt =====
-- Purrcept Core: agents as generators of effects, a driver that runs them, and a model layer of
-- conversations, prompts and tools. This library models the runtime (package purrcept_core) and the
-- stateful core of the model layer (package purrcept_core.models), and proves what keeps them correct.
--
-- The parts. A run (src/purrcept_core/run.py) yields effects; the driver (driver.py) has an executor
-- perform each one, reports what happens to an event sink (events.py), and sends the result or throws
-- the error back. A conversation (models/conversation.py) is a facade whose turn is such a run: the
-- loop (models/loop.py) selects a part of the history by a policy (models/context_policy.py), has the
-- turn's prompt session (models/prompt/compiler.py) make a request of it with the reminders in force
-- (models/reminders.py), asks the model, invokes the tools, and returns a new history, which the
-- conversation commits. Executors (executor.py) and middlewares (middleware.py) stand between the driver
-- and what performs an effect: a generation (models/effects.py), a tool call (models/tools) or a decision
-- (models/decisions).
--
-- The files, by the code that they model (all paths below src/purrcept_core):
--   Runtime/Exceptions          errors.py: exceptions by kind and identity
--   Runtime/Run                 run.py: GeneratorRun, `start`, `send`, `throw`, `close`
--   Runtime/Events              events.py: the events, and the four sinks
--   Runtime/Driver/Monad        driver.py and context.py: the driver's services, `_emit`,
--                               `close_preserving`
--   Runtime/Driver/Channel      driver.py: `_make_progress_channel`, and the execution of an effect
--   Runtime/Driver/Loop         driver.py: `run`, its preflight, loop and handlers
--   Runtime/Executor            executor.py: inline and dispatch executors
--   Runtime/Middleware          middleware.py: the chain, timeouts and retries
--   Models/Messages             models/messages.py, content.py, responses.py: values and errors
--   Models/Context              models/context_policy.py, and `ConversationState`
--   Models/Reminders            models/reminders.py
--   Models/Prompt/Request       models/requests.py: `ModelRequest` and its checks
--   Models/Prompt/Compiler      models/prompt/compiler.py: `PromptCompiler.compile`
--   Models/Prompt/Session       models/prompt/compiler.py: `TurnPromptSession`
--   Models/Prompt/Template      models/prompt/template.py, policies.py: templates and their policies
--   Models/Loop                 models/loop.py: `run_model_turn`
--   Models/Conversation         models/conversation.py: `Conversation`
--   Models/Conversation/Setup   models/conversation.py: the constructor, with templates and tools
--   Models/Decisions            models/decisions: questions, answers, their agreement, `Decide`
--   Models/Streaming            models/streaming.py, effects.py: `Generate` and its stream forwarder
--   Models/Json                 models/_utils.py, tools/_encoding.py: objects to JSON, cycles rejected
--   Models/Tools                models/tools: `FunctionTool`, `ToolSet`, `InvokeTool`
-- Each has its theorems in child modules named for what they prove, and tests in a module Tests.
--
-- How code becomes definitions. A function that raises returns a `Result`; one that changes an object
-- takes it and returns it. What the application supplies (generators, executors, sinks, clocks, token
-- counters, reminder sources, policies, models, tools) is a parameter that acts on a world `W`, and
-- may return, raise, or return what its contract forbids. A run acts on its own state `R` too. The
-- identifier of a reminder source is stable, as its contract says. An `async` call is a call on the
-- world. Events, calls and notes are kept in lists, newest first. Values that the code only passes on
-- are numbers, `Obj`. Checks of an argument's Python type are left out where the model's type has
-- them.
--
-- Fuel. The driver's `while True` runs on fuel, since an agent need not stop: a result `none` is a run
-- that is still going, the safety theorems hold for every fuel, and one theorem says how much is
-- enough. The retries of a prompt session have fuel for one pass more than there are complete turns,
-- which is enough: each retry drops a turn. The rounds of a turn are counted down, as in the
-- code, and so are the attempts of a retry. The conversion to JSON has fuel for one step more than there
-- are containers, which is enough, since no container is on a path twice.
-- Numbers are unbounded, as Python's are.
--
-- Not modelled: the prompt library; the schemas and descriptions of tools, which introspection of
-- Python functions makes; settings and caching, which are only passed on; the texts of error messages;
-- Python's limit on the depth of recursion; the conformance and testing helpers.

pub mod Base
pub mod Runtime
pub mod Models
