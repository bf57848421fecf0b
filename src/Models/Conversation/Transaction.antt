-- ===== src/Models/Conversation/Transaction.antt =====
-- A turn of the conversation as a transaction.
use purrcept_core.Base.{
  ℕ, Bool, true, false, ◌≡◌, refl, sym, ap, ◌∙◌, List, Result, ok, err, ◌>>=◌, if◌then◌else◌,
}
use mathlib.Core.Path.{subst}
use purrcept_core.Models.Messages.{Message, Error, conversation_busy}
use purrcept_core.Models.Prompt.Session.{
  Source, TurnPromptSession, normalize_reminder_sources, new_session, begin_session,
}
use purrcept_core.Models.Loop.{TurnServices, ModelTurnResult, run_model_turn}
use purrcept_core.Models.Loop.Commit.{IsCommit, OnOk, turn_commits}
use purrcept_core.Models.Conversation.{
  Conversation, acquire, release, run_acquired, finish_turn, ask_flow,
}

module _ {W : Type 0} where
  -- What the end of a turn leaves, by its result.
  abbrev pub Settles :
      Conversation W → Message → ℕ → Result Error ModelTurnResult → Conversation W → Type 0
  Settles c message limit (ok result) c' =
      (c'.state ≡ result.state) × IsCommit c.state message limit result
  Settles c message limit (err e) c' = c'.state ≡ c.state

  -- The prompt session of a turn.
  abbrev pub session_of : Conversation W → List (Source W) → TurnPromptSession W
  session_of c sources = new_session c.reminder_state sources c.trace_sink

  finish_turn-Settles :
      (c : Conversation W) (message : Message) (limit : ℕ)
      (r : Result Error ModelTurnResult × TurnPromptSession W × W)
      → OnOk (IsCommit c.state message limit) r.0
      → let (x, c', w') = finish_turn (record c { busy = true }) r in
        (c'.busy ≡ false) × (c'.config ≡ c.config) × Settles c message limit x c'
  unfolding release
  finish_turn-Settles c message limit (ok result, s, w) h = (refl, refl, (refl, h))
  finish_turn-Settles c message limit (err e, s, w) h = (refl, refl, refl)

  module _ (services : TurnServices W) (message : Message) (limit : ℕ) (c : Conversation W)
      (w : W) where
    -- A turn, by the busy flag and the sources that the session begins with.
    abbrev flow :
        Bool → Result Error (List (Source W)) → Result Error ModelTurnResult × Conversation W × W
    flow b r = run_acquired services message limit w (
        if b
        then (err conversation_busy, c)
        else (r >>= λ sources. ok (session_of c sources), record c { busy = true }))

    ask-flow :
        ask_flow services message limit c w
        ≡ flow c.busy (normalize_reminder_sources c.reminder_sources)
    unfolding ask_flow acquire begin_session
    ask-flow = refl

    -- The turn that begins with these sources.
    abbrev pub begun : List (Source W) → Result Error ModelTurnResult × Conversation W × W
    begun sources =
        finish_turn (record c { busy = true })
          (run_model_turn services c.config c.state message limit (session_of c sources) w)

    pub ask_idle :
        (sources : List (Source W))
        → c.busy ≡ false
        → normalize_reminder_sources c.reminder_sources ≡ ok sources
        → ask_flow services message limit c w ≡ begun sources
    ask_idle sources idle good =
        ask-flow
        ∙ ap (λ b. flow b (normalize_reminder_sources c.reminder_sources)) idle
        ∙ ap (flow false) good

    -- A turn on a busy conversation raises ConversationBusyError and changes neither the conversation
    -- nor the world. On an idle conversation whose reminder sources are rejected it raises that error
    -- and changes neither the history, the reminders nor the world, but leaves the conversation busy.
    -- On an idle one with accepted sources it leaves the conversation idle, with the same
    -- configuration: if it raised, with the history that was committed before; if it returned, with
    -- the state of its result, which extends that history by one complete turn.
    pub ask_transactional :
        (c.busy ≡ true → ask_flow services message limit c w ≡ (err conversation_busy, c, w))
        × ((e : Error)
            → c.busy ≡ false
            → normalize_reminder_sources c.reminder_sources ≡ err e
            → ask_flow services message limit c w ≡ (err e, record c { busy = true }, w))
        × ((sources : List (Source W))
            → c.busy ≡ false
            → normalize_reminder_sources c.reminder_sources ≡ ok sources
            → let (r, c', w') = ask_flow services message limit c w in
              (c'.busy ≡ false) × (c'.config ≡ c.config) × Settles c message limit r c')
    ask_transactional = (
      λ busy. ask-flow ∙ ap (λ b. flow b (normalize_reminder_sources c.reminder_sources)) busy,
      λ e idle bad.
          ask-flow
          ∙ ap (λ b. flow b (normalize_reminder_sources c.reminder_sources)) idle
          ∙ ap (flow false) bad,
      λ sources idle good.
          subst
            (λ t. (t.1.busy ≡ false) × (t.1.config ≡ c.config) × Settles c message limit t.0 t.1)
            (sym (ask_idle sources idle good))
            (finish_turn-Settles c message limit
              (run_model_turn services c.config c.state message limit (session_of c sources) w)
              (turn_commits services c.state message c.config limit (session_of c sources) w)),
    )
