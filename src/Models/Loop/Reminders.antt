-- ===== src/Models/Loop/Reminders.antt =====
-- What a turn does to the reminders that its prompt session holds.
use purrcept_core.Base.{
  ℕ, zero, suc, ◌-◌, not, ◌&&◌, ◌≡◌, refl, sym, ap, Option, none, some, List, [], ◌∷◌, arith,
  Result, ok, err, Bool-cases, inl, inr, ◌==◌, raise_if,
}
use mathlib.Core.Path.{subst}
use purrcept_core.Models.Messages.{
  Message, user, same_role, ToolCall, ModelResponse, tool_calls, Error, value_error,
  tool_loop_limit,
}
use purrcept_core.Models.Context.{ConversationState, make_state, PreparedContext}
use purrcept_core.Models.Reminders.{SystemReminder}
use purrcept_core.Models.Reminders.Keys.{UniqueKeys}
use purrcept_core.Models.Reminders.Edits.{keep-UniqueKeys}
use purrcept_core.Models.Prompt.Compiler.{is_next_request, CompiledPrompt}
use purrcept_core.Models.Prompt.Session.{TurnPromptSession, Compiled, session_compile}
use purrcept_core.Models.Prompt.Consumption.{lasting, Consumes, Every, compile_consumes}
use purrcept_core.Models.Loop.Commit.{then_invoke, with_result}
use purrcept_core.Models.Loop.Step.{TurnStep, resume_turn, ◌after_turn◌, lift}
use purrcept_core.Models.Loop.{
  TurnServices, TurnConfig, ModelTurnResult, Working, compiled_or, new_draft, policy_value,
  PollReply, poll_with, extend, invoke_tools, ask_model, poll_input, answered, commit, is_nil,
  settle_round, model_rounds, run_model_turn, begin_working, validate_max_model_rounds, ToolResult,
}

lasting-lasting : (rs : List SystemReminder) → lasting (lasting rs) ≡ lasting rs
lasting-lasting [] = refl
lasting-lasting (r ∷ rs) = ground (arith, lasting-lasting rs)

abbrev pub consumed : {W : Type 0} → TurnPromptSession W → TurnPromptSession W
consumed s = record s { remaining = record { reminders = lasting s.remaining.reminders } }

module _ {W : Type 0} (base : TurnPromptSession W) where
  -- The session is as it began, or without its NEXT_REQUEST reminders.
  pub data Holds : TurnPromptSession W → Type 0 where
    untouched : Holds base
    without_next : Holds (consumed base)

  -- A step from such a session leaves such a session, also where it raises.
  pub record Stays {A : Type 0} (m : TurnStep W A) : Type 0 where
    pub at : (s : TurnPromptSession W) (w : W) → Holds s → Holds (m s w).1

  resume_turn-Holds :
      {A B : Type 0} (f : A → TurnStep W B) (r : Result Error A × TurnPromptSession W × W)
      → Holds r.1
      → ((a : A) → Stays (f a))
      → Holds (resume_turn f r).1
  resume_turn-Holds f (ok a, s, w) h next = (next a).at s w h
  resume_turn-Holds f (err e, s, w) h next = h

  after_turn-Stays :
      {A B : Type 0} (m : TurnStep W A) (f : A → TurnStep W B)
      → Stays m
      → ((a : A) → Stays (f a))
      → Stays (m after_turn f)
  after_turn-Stays m f h next = record {
    at = λ s w k. resume_turn-Holds f (m s w) (h.at s w k) next;
  }

  consumed-Holds : (s : TurnPromptSession W) → Holds s → Holds (consumed s)
  consumed-Holds s untouched = without_next
  consumed-Holds s without_next =
      subst Holds
        (ap (λ rs. record base { remaining = record { reminders = rs } })
          (sym (lasting-lasting base.remaining.reminders)))
        without_next

  Holds-UniqueKeys :
      (s : TurnPromptSession W)
      → UniqueKeys base.remaining.reminders
      → Holds s
      → UniqueKeys s.remaining.reminders
  Holds-UniqueKeys s u untouched = u
  Holds-UniqueKeys s u without_next =
      keep-UniqueKeys (λ r. not (is_next_request r)) base.remaining.reminders u

  Consumes-Holds : (s : TurnPromptSession W) (r : Compiled W) → Holds s → Consumes s r → Holds r.1
  Consumes-Holds s (err e, s', w) h same = subst Holds (sym same) h
  Consumes-Holds s (ok c, s', w) h (gone, kept) = elim (Bool-cases c.consumed_next_request) [
    | inl yes' ↦ subst Holds (sym (gone yes')) (consumed-Holds s h)
    | inr no' ↦ subst Holds (sym (kept no')) h
  ]

  Every-Holds :
      (s : TurnPromptSession W) (w : W) (o : Option (Compiled W))
      → Holds s
      → Every s o
      → Holds (compiled_or s w o).1
  Every-Holds s w none h e = h
  Every-Holds s w (some r) h e = Consumes-Holds s r h e

  lift-Stays : {A : Type 0} (r : Result Error A) → Stays (lift r)
  lift-Stays r = record { at = λ s w h. h }

  module _ (services : TurnServices W) (config : TurnConfig W) (state : ConversationState)
      (unique : UniqueKeys base.remaining.reminders) where
    abbrev prepare_step : ConversationState → TurnStep W PreparedContext
    prepare_step provisional s w =
        let (reply, w') = services.prepare provisional config.model w in (policy_value reply, s, w')

    abbrev compile_step : ℕ → PreparedContext → TurnStep W CompiledPrompt
    compile_step n p s w = compiled_or s w (
        session_compile config.hashes s (new_draft config p) config.model n config.request_budget w)

    abbrev generate_step : CompiledPrompt → TurnStep W ModelResponse
    generate_step c s w = let (r, w') = services.generate c.request w in (r, s, w')

    compile_step-Stays : (n : ℕ) (p : PreparedContext) → Stays (compile_step n p)
    compile_step-Stays n p = record {
      at = λ s w h.
          Every-Holds s w
            (session_compile config.hashes s (new_draft config p) config.model n
              config.request_budget w)
            h
            (compile_consumes config.hashes s (new_draft config p) config.model n
              config.request_budget w (Holds-UniqueKeys s unique h));
    }

    ask_model-Stays : (n : ℕ) (k : Working) → Stays (ask_model services config state n k)
    unfolding ask_model
    ask_model-Stays n k =
        let generated = λ (p : PreparedContext). compile_step n p after_turn generate_step in
        after_turn-Stays
          (lift (make_state k.messages k.continuation state.turn_index state.turn_boundaries))
          (λ provisional. prepare_step provisional after_turn generated)
          (lift-Stays (make_state k.messages k.continuation state.turn_index state.turn_boundaries))
          (λ provisional.
            after_turn-Stays (prepare_step provisional) generated (record { at = λ s w h. h })
              (λ p.
                after_turn-Stays (compile_step n p) generate_step (compile_step-Stays n p)
                  (λ c. record { at = λ s w h. h })))

    poll_with-Stays : (o : Option (W → PollReply × W)) → Stays (poll_with o)
    poll_with-Stays none = record { at = λ s w h. h }
    poll_with-Stays (some f) = record { at = λ s w h. h }

    poll_input-Stays : Stays (poll_input services)
    unfolding poll_input
    poll_input-Stays = poll_with-Stays services.poll

    invoke_tools-Stays :
        (calls : List ToolCall) (k : Working) → Stays (invoke_tools services calls k)
    unfolding invoke_tools
    invoke_tools-Stays [] k = lift-Stays (ok k)
    invoke_tools-Stays (call ∷ calls) k =
        let rest =
          λ (result : ToolResult). invoke_tools services calls (with_result k call result) in
        after_turn-Stays (then_invoke services call) rest (record { at = λ s w h. h })
          (λ result. invoke_tools-Stays calls (with_result k call result))

    settle_round-Stays :
        (limit n : ℕ) (again : Working → TurnStep W ModelTurnResult) (k : Working)
        (response : ModelResponse) (incoming : List Message)
        → ((k' : Working) → Stays (again k'))
        → Stays (settle_round services state limit n again k response incoming)
    settle_round-Stays limit n again k response incoming next =
        elim (Bool-cases (is_nil (tool_calls response) && is_nil incoming)) [
          | inl quiet ↦ rw (quiet, settle_round) (lift-Stays (commit state response n k))
          | inr busy ↦ elim (Bool-cases (n == limit)) [
            | inl last ↦
                rw (busy, last, settle_round) (lift-Stays (err (tool_loop_limit limit response)))
            | inr more ↦
                rw (busy, more, settle_round)
                  (after_turn-Stays (invoke_tools services (tool_calls response) k)
                    (λ k'. again (extend k' incoming)) (invoke_tools-Stays (tool_calls response) k)
                    (λ k'. next (extend k' incoming)))
          ]
        ]

    model_rounds-Stays :
        (limit left : ℕ) (k : Working) → Stays (model_rounds services config state limit left k)
    unfolding model_rounds
    model_rounds-Stays limit zero k = record { at = λ s w h. h }
    model_rounds-Stays limit (suc left) k =
        let again = model_rounds services config state limit left in
        let n : ℕ = limit - left in
        let settled =
          λ (arrived : List Message) (response : ModelResponse) (incoming : List Message).
            settle_round services state limit n again (answered (extend k arrived) response)
              response incoming in
        let replied = λ (arrived : List Message) (response : ModelResponse).
          poll_input services after_turn settled arrived response in
        after_turn-Stays (poll_input services)
          (λ arrived.
            ask_model services config state n (extend k arrived) after_turn replied arrived)
          poll_input-Stays
          (λ arrived.
            after_turn-Stays (ask_model services config state n (extend k arrived))
              (replied arrived) (ask_model-Stays n (extend k arrived))
              (λ response.
                after_turn-Stays (poll_input services) (settled arrived response) poll_input-Stays
                  (λ incoming.
                    settle_round-Stays limit n again (answered (extend k arrived) response) response
                      incoming (λ k'. model_rounds-Stays limit left k'))))

    pub run_model_turn-Stays :
        (message : Message) (limit : ℕ) → Stays (run_model_turn services config state message limit)
    unfolding run_model_turn
    run_model_turn-Stays message limit =
        let rounds = model_rounds services config state limit limit (begin_working state message) in
        after_turn-Stays (lift (raise_if (not (same_role message.role user)) value_error))
          (λ _. lift (validate_max_model_rounds limit) after_turn λ _. rounds)
          (lift-Stays (raise_if (not (same_role message.role user)) value_error))
          (λ _.
            after_turn-Stays (lift (validate_max_model_rounds limit)) (λ _. rounds)
              (lift-Stays (validate_max_model_rounds limit))
              (λ _. model_rounds-Stays limit limit (begin_working state message)))
