-- ===== src/Models/Prompt/Session.antt =====
-- prompt/compiler.py, `TurnPromptSession`, with the parts of reminder_sources.py, prompt/tracing.py
-- and context_policy.py (`RequestTokenBudget.count`) that it calls. Sources, the token counter and the
-- trace sink are the application's: parameters, which act on the world `W`. The operations take and
-- return the session's state and the world.
mod Parts
unfoldable pub use Parts.*
use purrcept_core.Base.{
  ℕ, zero, suc, String, Bool, true, false, not, ◌||◌, Option, none, some, List, [], ◌∷◌, ◌++◌, map,
  Result, ok, err, length, any_of, keep_if, if◌then◌else◌, str_eq, raise_if, leb, ⊤, ltb,
}
use purrcept_core.Runtime.Exceptions.{is_exception}
use purrcept_core.Runtime.Events.{Reply, replied_none, replied_value, replied_awaitable}
use purrcept_core.Models.Messages.{Model, Error, value_error, type_error, raised, budget_exceeded}
use purrcept_core.Models.Context.{PreparedContext, CountReply, count_reply, drop_oldest}
use purrcept_core.Models.Reminders.{
  SystemReminder, ReminderState, next_request, turn, same_scope, make_reminders, clear, clear_one,
}
use purrcept_core.Models.Prompt.Request.{ModelRequest}
use purrcept_core.Models.Prompt.Compiler.{
  PromptDraft, PromptDiagnostics, CompiledPrompt, Hashes, compile, is_next_request,
}

module _ {W : Type 0} where
  -- `emit_prompt_trace`
  unfoldable pub emit_prompt_trace :
      Option (PromptTraceEvent → W → Reply × W) → PromptTraceEvent → Step W ⊤
  emit_prompt_trace none event w = (ok tt, w)
  emit_prompt_trace (some sink) event w = let (reply, w') = sink event w in (trace_reply reply, w')

  -- The handler of `_resolve_sources`: an exception is traced and raised again; if the sink fails,
  -- its error goes out instead.
  abbrev trace_failure :
      Option (PromptTraceEvent → W → Reply × W) → ℕ → String → Error → Step W (List SystemReminder)
  trace_failure sink model_round source_id e = elim (is_ordinary e) [
    | true ↦
        emit_prompt_trace sink (source_failed model_round source_id e) then_do λ _. give (err e)
    | false ↦ give (err e)
  ]

  -- `resolve_reminder_source`
  abbrev pub resolve_reminder_source : Source W → PreparedContext → ℕ → Step W (List SystemReminder)
  resolve_reminder_source source prepared model_round w =
      let (resolved, w') = source.resolve prepared model_round w in
      if str_eq "" source.source_id then (err value_error, w) else (resolved_reminders resolved, w')

  abbrev resolve_source :
      Option (PromptTraceEvent → W → Reply × W)
      → Source W
      → PreparedContext
      → ℕ
      → Step W (List SystemReminder)
  resolve_source sink source prepared model_round w =
      let (resolved, w') = resolve_reminder_source source prepared model_round w in
      elim resolved [
        | ok rs ↦ (ok rs, w')
        | err e ↦ trace_failure sink model_round source.source_id e w'
      ]

  -- `_resolve_sources`
  unfoldable pub resolve_sources :
      Option (PromptTraceEvent → W → Reply × W)
      → List (Source W)
      → PreparedContext
      → ℕ
      → Step W (List SystemReminder × List String)
  resolve_sources sink [] prepared model_round = give (ok ([], []))
  resolve_sources sink (source ∷ sources) prepared model_round =
      resolve_source sink source prepared model_round then_do λ rs.
      emit_prompt_trace sink (source_resolved model_round source.source_id (map (λ r. r.key) rs))
      then_do λ _. resolve_sources sink sources prepared model_round then_do λ found.
          give (ok (rs ++ found.0, source.source_id ∷ found.1))

  unfoldable pub check_budget :
      Option (RequestTokenBudget W) → Model → CompiledPrompt → PreparedContext → Step W Verdict
  check_budget none model compiled history w = (ok (accepted compiled none), w)
  check_budget (some budget) model compiled history w =
      let (reply, w') = budget.counter compiled.request model w in
      (judge budget.max_tokens compiled history (count_reply reply), w')

  -- One pass: the context, which requires a positive round, sources, compilation, budget.
  unfoldable pub attempt :
      Hashes
      → TurnPromptSession W
      → PromptDraft
      → Model
      → ℕ
      → Option (RequestTokenBudget W)
      → Step W Verdict
  attempt hashes s draft model model_round budget =
      give (raise_if (leb model_round 0) value_error) then_do λ _.
      resolve_sources s.trace_sink s.sources draft.history model_round then_do λ found.
      give (compile hashes draft (active_reminders s) [] found.0 found.1 model_round)
      then_do λ compiled. check_budget budget model compiled draft.history

  -- `self._remaining_state.clear(ReminderScope.NEXT_REQUEST)`
  abbrev pub consume : TurnPromptSession W → Result Error (TurnPromptSession W)
  consume s = elim (clear (clear_one (some next_request)) s.remaining) [
    | ok left ↦ ok (record s { remaining = left })
    | err e ↦ err e
  ]

  abbrev pub install :
      CompiledPrompt → TurnPromptSession W → W → Result Error (TurnPromptSession W) → Compiled W
  install c s w (ok s') = (ok c, s', w)
  install c s w (err e) = (err e, s, w)

  abbrev pub finish_consuming :
      CompiledPrompt → TurnPromptSession W → Result Error ⊤ × W → Compiled W
  finish_consuming c s (err e, w) = (err e, s, w)
  finish_consuming c s (ok _, w) = install c s w (consume s)

  -- `if accepted.consumed_next_request`
  abbrev pub consume_if : Bool → ℕ → CompiledPrompt → TurnPromptSession W → W → Compiled W
  consume_if true model_round c s w =
      let consumed = keep_if is_next_request s.remaining.reminders in
      finish_consuming c s (
        emit_prompt_trace s.trace_sink (reminder_consumed model_round (map (λ r. r.key) consumed))
          w)
  consume_if false model_round c s w = (ok c, s, w)

  abbrev pub finish_emitting :
      ℕ → CompiledPrompt → TurnPromptSession W → Result Error ⊤ × W → Compiled W
  finish_emitting model_round c s (err e, w) = (err e, s, w)
  finish_emitting model_round c s (ok _, w) = consume_if c.consumed_next_request model_round c s w

  -- What follows the budget check: `_emit_compiled`, and then the consumption.
  unfoldable pub accept_prompt : ℕ → CompiledPrompt → TurnPromptSession W → W → Compiled W
  accept_prompt model_round c s w =
      finish_emitting model_round c s
        (emit_prompt_trace s.trace_sink (prompt_compiled c.diagnostics) w)

  -- What a pass of the loop leads to; `again` is the next pass.
  abbrev pub follow :
      (PreparedContext → W → Option (Compiled W))
      → ℕ
      → ℕ
      → TurnPromptSession W
      → Result Error Verdict
      → W
      → Option (Compiled W)
  follow again model_round trimmed s (err e) w = some (err e, s, w)
  follow again model_round trimmed s (ok (accepted c tokens)) w =
      some (accept_prompt model_round (annotate c tokens trimmed) s w)
  follow again model_round trimmed s (ok (retry history)) w = again history w

  -- The loop of `compile`, on fuel; `none` if it runs out.
  unfoldable pub compile_loop :
      ℕ
      → Hashes
      → TurnPromptSession W
      → PromptDraft
      → Model
      → ℕ
      → Option (RequestTokenBudget W)
      → ℕ
      → W
      → Option (Compiled W)
  compile_loop zero hashes s draft model model_round budget trimmed w = none
  compile_loop (suc fuel) hashes s draft model model_round budget trimmed w =
      let (verdict, w') = attempt hashes s draft model model_round budget w in
      let again = λ (history : PreparedContext) (w'' : W).
        compile_loop fuel hashes s (with_history draft history) model model_round budget
          (suc trimmed) w'' in
      follow again model_round trimmed s verdict w'

  -- `TurnPromptSession.compile`: a turn is dropped in each further pass, so this fuel is enough (Ending).
  unfoldable pub session_compile :
      Hashes
      → TurnPromptSession W
      → PromptDraft
      → Model
      → ℕ
      → Option (RequestTokenBudget W)
      → W
      → Option (Compiled W)
  session_compile hashes s draft model model_round budget w =
      compile_loop (suc (length draft.history.turn_boundaries)) hashes s draft model model_round
        budget 0 w
