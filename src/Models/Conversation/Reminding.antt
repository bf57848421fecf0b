-- ===== src/Models/Conversation/Reminding.antt =====
-- Which reminders a conversation has after a turn.
use purrcept_core.Base.{
  ℕ, true, false, not, ◌≡◌, refl, sym, ◌⊎◌, inl, inr, List, Result, ok, keep_if,
}
use mathlib.Core.Path.{subst}
use purrcept_core.Models.Messages.{Message, Error}
use purrcept_core.Models.Reminders.{SystemReminder, ReminderState, turn, same_scope}
use purrcept_core.Models.Reminders.Keys.{UniqueKeys, reminder_state_keys}
use purrcept_core.Models.Reminders.Edits.{keep-UniqueKeys}
use purrcept_core.Models.Prompt.Compiler.{is_next_request}
use purrcept_core.Models.Prompt.Session.{
  Source, TurnPromptSession, normalize_reminder_sources, new_session,
}
use purrcept_core.Models.Prompt.Consumption.{lasting}
use purrcept_core.Models.Loop.{TurnServices, ModelTurnResult, run_model_turn}
use purrcept_core.Models.Loop.Reminders.{Holds, untouched, without_next, run_model_turn-Stays}
use purrcept_core.Models.Conversation.{Conversation, release, finish_turn, ask_flow}
use purrcept_core.Models.Conversation.Transaction.{session_of, ask_idle}

-- The reminders that are not for one turn.
abbrev pub beyond_turn : List SystemReminder → List SystemReminder
beyond_turn rs = keep_if (λ r. not (same_scope r.scope turn)) rs

-- All of these, or all but those for the next request, in their order.
abbrev pub Survives : List SystemReminder → List SystemReminder → Type 0
Survives rs left = (left ≡ rs) ⊎ (left ≡ lasting rs)

module _ {W : Type 0} where
  session_of-remaining :
      (c : Conversation W) (sources : List (Source W))
      → UniqueKeys c.reminder_state.reminders
      → (session_of c sources).remaining.reminders ≡ beyond_turn c.reminder_state.reminders
  unfolding new_session
  session_of-remaining c sources u =
      (reminder_state_keys (beyond_turn c.reminder_state.reminders)).1
        (keep-UniqueKeys (λ r. not (same_scope r.scope turn)) c.reminder_state.reminders u)

  session_of-UniqueKeys :
      (c : Conversation W) (sources : List (Source W))
      → UniqueKeys (session_of c sources).remaining.reminders
  unfolding new_session
  session_of-UniqueKeys c sources = (reminder_state_keys (beyond_turn c.reminder_state.reminders)).0

  Holds-Survives :
      (base s : TurnPromptSession W)
      → Holds base s
      → Survives base.remaining.reminders s.remaining.reminders
        × (UniqueKeys base.remaining.reminders → UniqueKeys s.remaining.reminders)
  Holds-Survives base s untouched = (inl refl, λ u. u)
  Holds-Survives base s without_next =
      (inr refl, λ u. keep-UniqueKeys (λ r. not (is_next_request r)) base.remaining.reminders u)

  finish_turn-reminders :
      (c : Conversation W) (r : Result Error ModelTurnResult × TurnPromptSession W × W)
      → (finish_turn c r).1.reminder_state ≡ r.1.remaining
  unfolding release
  finish_turn-reminders c (r, s, w) = refl

  -- Whether a turn on an idle conversation with accepted reminder sources returns or raises, its TURN
  -- reminders are gone and all others are left in their order, save that the NEXT_REQUEST ones may be
  -- gone too, all together; and no key stands twice if none did before.
  pub ask_reminders :
      (services : TurnServices W) (message : Message) (limit : ℕ) (c : Conversation W) (w : W)
      (sources : List (Source W))
      → c.busy ≡ false
      → normalize_reminder_sources c.reminder_sources ≡ ok sources
      → UniqueKeys c.reminder_state.reminders
      → let (r, c', w') = ask_flow services message limit c w in
        Survives (beyond_turn c.reminder_state.reminders) c'.reminder_state.reminders
        × UniqueKeys c'.reminder_state.reminders
  ask_reminders services message limit c w sources idle good unique =
      let base : TurnPromptSession W = session_of c sources in
      let ended = run_model_turn services c.config c.state message limit base w in
      let holds : Holds base ended.1 =
        (run_model_turn-Stays base services c.config c.state (session_of-UniqueKeys c sources)
            message limit).at
          base w untouched in
      let (survives, still) = Holds-Survives base ended.1 holds in
      let left : (finish_turn (record c { busy = true }) ended).1.reminder_state
          ≡ ended.1.remaining =
        finish_turn-reminders (record c { busy = true }) ended in
      subst
        (λ t.
          Survives (beyond_turn c.reminder_state.reminders) t.1.reminder_state.reminders
          × UniqueKeys t.1.reminder_state.reminders)
        (sym (ask_idle services message limit c w sources idle good))
        (subst
          (λ (m : ReminderState).
            Survives (beyond_turn c.reminder_state.reminders) m.reminders × UniqueKeys m.reminders)
          (sym left)
          (
            subst (λ rs. Survives rs ended.1.remaining.reminders)
                (session_of-remaining c sources unique) survives,
            still (session_of-UniqueKeys c sources),
          ))
