-- ===== src/Models/Loop/Commit.antt =====
-- What a turn that returns has committed.
use purrcept_core.Base.{
  ℕ, zero, suc, ◌-◌, ◌≤◌, Bool, true, not, ◌&&◌, ◌≡◌, refl, sym, ap, ◌∙◌, List, [], ◌∷◌, ◌++◌,
  append_assoc, arith, Result, ok, err, length, Bool-cases, inl, inr, ◌==◌, raise_if,
}
use purrcept_core.Models.Messages.{
  Message, user, same_role, ToolCall, ModelResponse, tool_calls, Error, value_error,
}
use purrcept_core.Models.Context.{ConversationState, make_state, normalize_boundaries}
use purrcept_core.Models.Prompt.Session.{TurnPromptSession}
use purrcept_core.Models.Context.Split.{make_state-ok}
use purrcept_core.Models.Loop.Step.{TurnStep, resume_turn, ◌after_turn◌, lift}
use purrcept_core.Models.Loop.{
  TurnServices, TurnConfig, ModelTurnResult, Working, extend, tool_message, invoke_tools, ask_model,
  poll_input, answered, turn_result, is_nil, settle_round, model_rounds, run_model_turn,
  begin_working, validate_max_model_rounds, ToolResult,
}

-- The working copy begins with the committed messages and the user's.
pub record Begun (state : ConversationState) (message : Message) (k : Working) : Type 0 where
  pub more : List Message
  pub grown : k.messages ≡ state.messages ++ message ∷ more

-- What a turn that returns promises; one that raises promises nothing here.
pub record IsCommit (state : ConversationState) (message : Message) (limit : ℕ)
    (r : ModelTurnResult) : Type 0 where
  pub between : List Message
  pub extended : r.state.messages ≡ state.messages ++ message ∷ (between ++ r.response.message ∷ [])
  pub continued : r.state.continuation ≡ r.response.continuation
  pub next_index : r.state.turn_index ≡ suc state.turn_index
  pub next_boundary :
      r.state.turn_boundaries ≡ state.turn_boundaries ++ length r.state.messages ∷ []
  pub counted : length r.state.turn_boundaries ≡ r.state.turn_index
  pub increasing : normalize_boundaries 0 (length r.state.messages) r.state.turn_boundaries ≡ ok tt
  pub no_calls : tool_calls r.response ≡ []
  pub some_round : 1 ≤ r.model_rounds
  pub few_rounds : r.model_rounds ≤ limit

abbrev pub OnOk : {A : Type 0} → (A → Type 0) → Result Error A → Type 0
OnOk P (ok a) = P a
OnOk P (err e) = Unit

resume_turn-OnOk :
    {W A B : Type 0} (Q : A → Type 0) (P : B → Type 0) (f : A → TurnStep W B)
    (r : Result Error A × TurnPromptSession W × W)
    → OnOk Q r.0
    → ((a : A) (s : TurnPromptSession W) (w : W) → Q a → OnOk P (f a s w).0)
    → OnOk P (resume_turn f r).0
resume_turn-OnOk Q P f (ok a, s, w) h next = next a s w h
resume_turn-OnOk Q P f (err e, s, w) h next = tt

OnOk-any : {A : Type 0} (r : Result Error A) → OnOk (λ a. Unit) r
OnOk-any (ok a) = tt
OnOk-any (err e) = tt

-- A step all of whose results have a property.
pub record Always {W A : Type 0} (P : A → Type 0) (m : TurnStep W A) : Type 0 where
  pub at : (s : TurnPromptSession W) (w : W) → OnOk P (m s w).0

after_turn-Always :
    {W A B : Type 0} (Q : A → Type 0) (P : B → Type 0) (m : TurnStep W A) (f : A → TurnStep W B)
    → Always Q m
    → ((a : A) → Q a → Always P (f a))
    → Always P (m after_turn f)
after_turn-Always Q P m f h next = record {
  at = λ s w. resume_turn-OnOk Q P f (m s w) (h.at s w) (λ a s' w' q. (next a q).at s' w');
}

any-Always : {W A : Type 0} (m : TurnStep W A) → Always (λ a. Unit) m
any-Always m = record { at = λ s w. OnOk-any (m s w).0 }

-- What follows promises the same whatever it gets.
after_any-Always :
    {W A B : Type 0} (P : B → Type 0) (m : TurnStep W A) (f : A → TurnStep W B)
    → ((a : A) → Always P (f a))
    → Always P (m after_turn f)
after_any-Always P m f next = after_turn-Always (λ a. Unit) P m f (any-Always m) (λ a u. next a)

-- More messages at the end keep the beginning.
Begun-append :
    (state : ConversationState) (message : Message) (k k' : Working) (ms : List Message)
    → Begun state message k
    → k'.messages ≡ k.messages ++ ms
    → Begun state message k'
Begun-append state message k k' ms h e = record {
  more = h.more ++ ms;
  grown = e ∙ ap (λ xs. xs ++ ms) h.grown ∙ append_assoc state.messages (message ∷ h.more) ms;
}

abbrev pub then_invoke : {W : Type 0} → TurnServices W → ToolCall → TurnStep W ToolResult
then_invoke services call s w =
    let (r, w') = services.invoke (services.get_tool call.name) call w in (r, s, w')

abbrev pub with_result : Working → ToolCall → ToolResult → Working
with_result k call result = record {
  messages = k.messages ++ tool_message call result ∷ [];
  continuation = k.continuation;
  tool_results = k.tool_results ++ result ∷ [];
}

module _ {W : Type 0} (services : TurnServices W) (state : ConversationState)
    (message : Message) where
  invoke_tools-Begun :
      (calls : List ToolCall) (k : Working)
      → Begun state message k
      → Always (Begun state message) (invoke_tools services calls k)
  unfolding invoke_tools
  invoke_tools-Begun [] k h = record { at = λ s w. h }
  invoke_tools-Begun (call ∷ calls) k h =
      after_any-Always (Begun state message) (then_invoke services call)
        (λ result. invoke_tools services calls (with_result k call result))
        (λ result. invoke_tools-Begun calls (with_result k call result) (
          Begun-append state message k (with_result k call result) (tool_message call result ∷ []) h
            refl))

  turn_result-IsCommit :
      (limit model_round : ℕ) (k : Working) (response : ModelResponse)
      (r : Result Error ConversationState)
      → Begun state message k
      → tool_calls response ≡ []
      → (1 ≤ model_round) × (model_round ≤ limit)
      → make_state
          (k.messages ++ response.message ∷ [])
          response.continuation
          (suc state.turn_index)
          (state.turn_boundaries ++ length (k.messages ++ response.message ∷ []) ∷ [])
        ≡ r
      → OnOk
          (IsCommit state message limit)
          (turn_result response model_round (answered k response) r)
  turn_result-IsCommit limit model_round k response (err e) h quiet within made = tt
  turn_result-IsCommit limit model_round k response (ok committed) h quiet within made =
      let ms = k.messages ++ response.message ∷ [] in
      let bs = state.turn_boundaries ++ length ms ∷ [] in
      let (same, counted, increasing) =
        make_state-ok ms response.continuation (suc state.turn_index) bs committed made in
      let messages : committed.messages ≡ ms = ap (λ c. c.messages) same in
      let boundaries : committed.turn_boundaries ≡ bs = ap (λ c. c.turn_boundaries) same in
      let index : committed.turn_index ≡ suc state.turn_index = ap (λ c. c.turn_index) same in
      record {
        between = h.more;
        extended =
            messages
            ∙ ap (λ xs. xs ++ response.message ∷ []) h.grown
            ∙ append_assoc state.messages (message ∷ h.more) (response.message ∷ []);
        continued = ap (λ c. c.continuation) same;
        next_index = index;
        next_boundary =
            boundaries ∙ ap (λ xs. state.turn_boundaries ++ length xs ∷ []) (sym messages);
        counted = ap length boundaries ∙ counted ∙ sym index;
        increasing =
            ap
              (λ (c : ConversationState).
                normalize_boundaries 0 (length c.messages) c.turn_boundaries)
              same
            ∙ increasing;
        no_calls = quiet;
        some_round = within.0;
        few_rounds = within.1;
      }

  nil-is_nil : (xs : List ToolCall) (b : Bool) → is_nil xs && b ≡ true → xs ≡ []
  nil-is_nil [] b h = refl
  nil-is_nil (x ∷ xs) b h = absurd (cc)

  settle_round-IsCommit :
      (limit model_round : ℕ) (again : Working → TurnStep W ModelTurnResult) (k : Working)
      (response : ModelResponse) (incoming : List Message)
      → Begun state message k
      → (1 ≤ model_round) × (model_round ≤ limit)
      → ((k' : Working) → Begun state message k' → Always (IsCommit state message limit) (again k'))
      → Always (IsCommit state message limit) (
          settle_round services state limit model_round again
            (answered k response)
            response
            incoming)
  settle_round-IsCommit limit model_round again k response incoming h within next =
      elim (Bool-cases (is_nil (tool_calls response) && is_nil incoming)) [
        | inl quiet ↦
            rw (quiet, settle_round)
              (record {
                at = λ s w.
                    turn_result-IsCommit limit model_round k response
                      (make_state (k.messages ++ response.message ∷ []) response.continuation
                        (suc state.turn_index)
                        (state.turn_boundaries
                          ++ length (k.messages ++ response.message ∷ []) ∷ []))
                      h (nil-is_nil (tool_calls response) (is_nil incoming) quiet) within refl;
              })
        | inr busy ↦ elim (Bool-cases (model_round == limit)) [
          | inl last ↦ rw (busy, last, settle_round) (record { at = λ s w. tt })
          | inr more ↦
              rw (busy, more, settle_round)
                (after_turn-Always (Begun state message) (IsCommit state message limit)
                  (invoke_tools services (tool_calls response) (answered k response))
                  (λ k'. again (extend k' incoming))
                  (invoke_tools-Begun (tool_calls response) (answered k response) (
                    Begun-append state message k (answered k response) (response.message ∷ []) h
                      refl))
                  (λ k' h'.
                    next (extend k' incoming)
                      (Begun-append state message k' (extend k' incoming) incoming h' refl)))
        ]
      ]

  model_rounds-IsCommit :
      (config : TurnConfig W) (limit left : ℕ) (k : Working)
      → left ≤ limit
      → Begun state message k
      → Always (IsCommit state message limit) (model_rounds services config state limit left k)
  unfolding model_rounds
  model_rounds-IsCommit config limit zero k le h = record { at = λ s w. tt }
  model_rounds-IsCommit config limit (suc left) k le h =
      let again = model_rounds services config state limit left in
      let n : ℕ = limit - left in
      let settled = λ (arrived : List Message) (response : ModelResponse) (incoming : List Message).
        settle_round services state limit n again (answered (extend k arrived) response) response
          incoming in
      let replied = λ (arrived : List Message) (response : ModelResponse).
        poll_input services after_turn settled arrived response in
      let P : ModelTurnResult → Type 0 = IsCommit state message limit in
      after_any-Always P (poll_input services)
        (λ arrived. ask_model services config state n (extend k arrived) after_turn replied arrived)
        (λ arrived.
          after_any-Always P (ask_model services config state n (extend k arrived))
            (replied arrived)
            (λ response.
              after_any-Always P (poll_input services) (settled arrived response) (λ incoming.
                settle_round-IsCommit limit n again (extend k arrived) response incoming
                  (Begun-append state message k (extend k arrived) arrived h refl)
                  (omega arith, omega arith)
                  (λ k' h'. model_rounds-IsCommit config limit left k' (omega arith) h'))))

  begun : Begun state message (begin_working state message)
  begun = record { more = []; grown = refl }

  -- If a turn returns, its state keeps the committed messages and goes on with the user's message, some
  -- provisional messages, and last the message of the response; its continuation is the response's;
  -- it counts one turn more, with one boundary more, at its very end, and its boundaries are
  -- accepted as increasing and within the messages; the response asks for no tool; and the turn took
  -- between one and the given number of rounds.
  pub turn_commits :
      (config : TurnConfig W) (limit : ℕ) (s : TurnPromptSession W) (w : W)
      → OnOk
          (IsCommit state message limit)
          (run_model_turn services config state message limit s w).0
  unfolding run_model_turn
  turn_commits config limit s w =
      let P : ModelTurnResult → Type 0 = IsCommit state message limit in
      let go : Always P
          (model_rounds services config state limit limit (begin_working state message)) =
        model_rounds-IsCommit config limit limit (begin_working state message) (omega arith)
          begun in
      (after_any-Always P (lift (raise_if (not (same_role message.role user)) value_error))
          (λ _. lift (validate_max_model_rounds limit) after_turn λ _.
            model_rounds services config state limit limit (begin_working state message))
          (λ _.
            after_any-Always P (lift (validate_max_model_rounds limit))
              (λ _. model_rounds services config state limit limit (begin_working state message))
              (λ _. go))).at
        s w
