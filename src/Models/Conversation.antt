-- ===== src/Models/Conversation.antt =====
-- conversation.py: the facade that owns the committed history and the idle reminders. A turn is split
-- where its generator can be suspended: `acquire` is what runs before the first effect, `release` the
-- commit and the `finally` block, and between the two stands the loop of Loop.antt.
pub mod Setup
mod Sources
mod Transaction
mod Busy
mod Reminding
mod Tests
use purrcept_core.Base.{
  ℕ, zero, suc, String, Bool, true, false, not, ◌&&◌, ◌≡◌, Option, none, some, List, [], ◌∷◌, ◌++◌,
  map, Result, ok, err, ◌>>=◌, ◌>>◌, raise_if, ⊤, if◌then◌else◌,
}
use purrcept_core.Base.Int.{ℤ}
use purrcept_core.Runtime.Events.{Reply}
use purrcept_core.Models.Messages.{
  Message, user, same_role, text_block, Error, value_error, conversation_busy,
}
use purrcept_core.Models.Context.{ConversationState}
use purrcept_core.Models.Reminders.{
  SystemReminder, ReminderState, ReminderScope, ReminderPlacement, ClearScope, make_reminder,
  make_reminders, upsert, remove, clear,
}
use purrcept_core.Models.Prompt.Request.{given_keys, has_duplicates}
use purrcept_core.Models.Prompt.Session.{
  TurnPromptSession, Source, PromptTraceEvent, normalize_reminder_sources, begin_session,
}
use purrcept_core.Models.Loop.{
  TurnServices, TurnConfig, ModelTurnResult, validate_max_model_rounds, is_nil, run_model_turn,
}

-- `ConversationCheckpoint`
pub record ConversationCheckpoint : Type 0 where
  pub history : ConversationState
  pub reminders : ReminderState

pub record Conversation (W : Type 0) : Type 0 where
  pub config : TurnConfig W
  pub reminder_sources : List (Source W)
  pub trace_sink : Option (PromptTraceEvent → W → Reply × W)
  pub max_model_rounds : ℕ
  pub state : ConversationState
  pub reminder_state : ReminderState
  pub busy : Bool

-- `ConversationState()`
abbrev pub empty_state : ConversationState
empty_state = record { messages = []; continuation = none; turn_index = 0; turn_boundaries = [] }

-- A user's input: a text, or a message. A template is rendered to a message before.
pub data UserInput : Type 0 where
  text_input : String → UserInput
  message_input : Message → UserInput

-- `_normalize_user_message`
abbrev pub normalize_user_message : UserInput → Result Error Message
normalize_user_message (text_input t) =
    ok (record { role = user; content = text_block t ∷ []; name = none; metadata = 0 })
normalize_user_message (message_input m) =
    raise_if (not (same_role m.role user)) value_error >> ok m

-- What `remind` is given: a text with options, or a reminder without.
pub data ReminderInput : Type 0 where
  text_reminder :
      String → Option String → Option ReminderScope → Option ReminderPlacement → ℤ → ReminderInput
  given_reminder : SystemReminder → ReminderInput

abbrev pub normalize_reminder : ReminderInput → Result Error SystemReminder
normalize_reminder (text_reminder t key scope placement priority) =
    make_reminder (text_block t ∷ []) key scope placement priority
normalize_reminder (given_reminder r) = ok r

-- A call on the conversation: what it returns or raises, and the conversation after it.
abbrev pub Call : Type 0 → Type 0 → Type 0
Call W A = Result Error A × Conversation W

abbrev pub limit_or : ℕ → Option ℕ → ℕ
limit_or n none = n
limit_or n (some m) = m

module _ {W : Type 0} where
  -- `_ensure_idle`, before a call that changes the conversation.
  abbrev pub when_idle : {A : Type 0} → Conversation W → Call W A → Call W A
  when_idle c r = if c.busy then (err conversation_busy, c) else r

  -- A call that returns a value and installs a conversation, or raises and installs nothing.
  abbrev pub installed :
      {A : Type 0} → Conversation W → Result Error (A × Conversation W) → Call W A
  installed c (ok (a, c')) = (ok a, c')
  installed c (err e) = (err e, c)

  unfoldable pub snapshot : Conversation W → Call W ConversationCheckpoint
  snapshot c = when_idle c (ok (record { history = c.state; reminders = c.reminder_state }), c)

  abbrev pub history_snapshot : Conversation W → ConversationState
  history_snapshot c = c.state

  unfoldable pub restore : ConversationCheckpoint → Conversation W → Call W ⊤
  restore k c = when_idle c (ok tt, record c { state = k.history; reminder_state = k.reminders })

  unfoldable pub restore_history : ConversationState → Conversation W → Call W ⊤
  restore_history state c = when_idle c (ok tt, record c { state = state })

  abbrev pub checkpoint_or : Conversation W → Option ConversationCheckpoint → ConversationCheckpoint
  checkpoint_or c none = record { history = c.state; reminders = c.reminder_state }
  checkpoint_or c (some k) = k

  -- The constructor's checks of what a conversation holds, which is normalized and frozen already.
  unfoldable pub check_again : Conversation W → Result Error (List (Source W))
  check_again c =
      raise_if (has_duplicates (given_keys (map (λ i. i.key) c.config.instructions))) value_error
      >> raise_if (c.config.settings.requires_tool && is_nil c.config.tools) value_error
      >> (normalize_reminder_sources c.reminder_sources >>= λ sources.
          validate_max_model_rounds c.max_model_rounds >> ok sources)

  -- `fork`: the constructor makes its reminder state anew, and starts idle.
  unfoldable pub fork : Option ConversationCheckpoint → Conversation W → Call W (Conversation W)
  fork checkpoint c =
      let k = checkpoint_or c checkpoint in
      when_idle c (
        check_again c >>= λ sources. ok (record c {
          reminder_sources = sources;
          state = k.history;
          reminder_state = make_reminders k.reminders.reminders;
          busy = false;
        }),
        c,
      )

  unfoldable pub clear_history : Conversation W → Call W ⊤
  clear_history c = when_idle c (ok tt, record c { state = empty_state })

  unfoldable pub clear_reminders : ClearScope → Conversation W → Call W ⊤
  clear_reminders scope c = when_idle c (
      installed c
        (do left ← clear scope c.reminder_state; ok (tt, record c { reminder_state = left })))

  unfoldable pub reset : Conversation W → Call W ⊤
  reset c =
      when_idle c (ok tt, record c { state = empty_state; reminder_state = make_reminders [] })

  unfoldable pub remind : ReminderInput → Conversation W → Call W SystemReminder
  remind input c = when_idle c (
      installed c (do
        r ← normalize_reminder input
        ok (r, record c { reminder_state = upsert c.reminder_state r })))

  unfoldable pub remove_reminder : String → Conversation W → Call W Bool
  remove_reminder key c = when_idle c (
      installed c (do
        found ← remove key c.reminder_state
        ok (found.1, record c { reminder_state = found.0 })))

  -- `_ask_flow` up to its `try`: the busy flag, and the prompt session.
  -- The flag stays set if the session cannot begin.
  unfoldable pub acquire : Conversation W → Call W (TurnPromptSession W)
  acquire c = if c.busy then (err conversation_busy, c) else (
    begin_session c.reminder_state c.reminder_sources c.trace_sink,
    record c { busy = true },
  )

  abbrev pub committed : Conversation W → Result Error ModelTurnResult → ConversationState
  committed c (ok result) = result.state
  committed c (err e) = c.state

  -- The rest of `_ask_flow`: the commit of a result, and the `finally` block in any case.
  unfoldable pub release :
      Conversation W → TurnPromptSession W → Result Error ModelTurnResult → Conversation W
  release c s r = record c { state = committed c r; reminder_state = s.remaining; busy = false }

  abbrev pub finish_turn :
      Conversation W
      → Result Error ModelTurnResult × TurnPromptSession W × W
      → Result Error ModelTurnResult × Conversation W × W
  finish_turn c (r, s, w) = (r, release c s r, w)

  abbrev pub run_acquired :
      TurnServices W
      → Message
      → ℕ
      → W
      → Call W (TurnPromptSession W)
      → Result Error ModelTurnResult × Conversation W × W
  run_acquired services message limit w (err e, c) = (err e, c, w)
  run_acquired services message limit w (ok s, c) =
      finish_turn c (run_model_turn services c.config c.state message limit s w)

  -- `_ask_flow`
  unfoldable pub ask_flow :
      TurnServices W
      → Message
      → ℕ
      → Conversation W
      → W
      → Result Error ModelTurnResult × Conversation W × W
  ask_flow services message limit c w = run_acquired services message limit w (acquire c)

  -- `ask`, up to the flow that it returns: the message and the limit of its turn.
  unfoldable pub ask : UserInput → Option ℕ → Conversation W → Result Error (Message × ℕ)
  ask input max_model_rounds c = do
    message ← normalize_user_message input
    let limit = limit_or c.max_model_rounds max_model_rounds
    validate_max_model_rounds limit
    ok (message, limit)
