-- ===== src/Models/Conversation/Busy.antt =====
-- Checkpoints and forks of an idle conversation.
use purrcept_core.Base.{false, ◌≡◌, ap, ◌∙◌, none, List, Result, ok, err, ◌>>=◌, if◌then◌else◌}
use purrcept_core.Models.Messages.{Error, conversation_busy}
use purrcept_core.Models.Prompt.Session.{Source}
use purrcept_core.Models.Reminders.{SystemReminder, make_reminders}
use purrcept_core.Models.Reminders.Keys.{UniqueKeys, reminder_state_keys}
use purrcept_core.Models.Conversation.{
  Conversation, ConversationCheckpoint, Call, when_idle, snapshot, restore, check_again, fork,
}

module _ {W : Type 0} where
  -- The fork with these reminders.
  abbrev forked :
      Conversation W
      → List SystemReminder
      → Result Error (List (Source W))
      → Result Error (Conversation W)
  forked c rs r = r >>= λ sources. ok (record c {
    reminder_sources = sources;
    reminder_state = record { reminders = rs };
    busy = false;
  })

  idle-accepted :
      {A : Type 0} (c : Conversation W) (r : Call W A) → c.busy ≡ false → when_idle c r ≡ r
  idle-accepted c r h = ap (λ b. if b then (err conversation_busy, c) else r) h

  -- A snapshot of an idle conversation changes nothing; restoring it into any idle conversation gives
  -- that one the snapshot's history and reminders and leaves its configuration; and if no key stands
  -- twice among the reminders, and what the conversation holds passes the constructor's checks, then
  -- a fork is an idle conversation with the same configuration, history and reminders, and leaves the
  -- original as it is, while a check that fails is raised by the fork.
  pub snapshot-restore-fork :
      (c d : Conversation W)
      → c.busy ≡ false
      → d.busy ≡ false
      → (k : ConversationCheckpoint) × (snapshot c ≡ (ok k, c))
        × (restore k d ≡ (ok tt, record d { state = c.state; reminder_state = c.reminder_state }))
        × (UniqueKeys c.reminder_state.reminders
            → check_again c ≡ ok c.reminder_sources
            → fork none c ≡ (ok (record c { busy = false }), c))
        × ((e : Error) → check_again c ≡ err e → fork none c ≡ (err e, c))
  unfolding snapshot restore fork make_reminders
  snapshot-restore-fork c d hc hd = (
    record { history = c.state; reminders = c.reminder_state },
    idle-accepted c _ hc,
    idle-accepted d _ hd,
    λ unique checked.
        idle-accepted c _ hc
        ∙ ap (λ r. (forked c (make_reminders c.reminder_state.reminders).reminders r, c)) checked
        ∙ ap (λ rs. (forked c rs (ok c.reminder_sources), c))
            ((reminder_state_keys c.reminder_state.reminders).1 unique),
    λ e failed.
        idle-accepted c _ hc
        ∙ ap (λ r. (forked c (make_reminders c.reminder_state.reminders).reminders r, c)) failed,
  )
