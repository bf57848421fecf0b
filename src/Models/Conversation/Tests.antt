-- ===== src/Models/Conversation/Tests.antt =====
-- Tests of the conversation, over the services of the turn's tests.
use purrcept_core.Base.{List, ℕ, Bool, true, false, ◌≡◌, refl, none, [], ok, err, ◌∷◌, some}
use purrcept_core.Base.Int.{pos}
use purrcept_core.Models.Messages.{Error, value_error, conversation_busy, text_block}
use purrcept_core.Models.Reminders.{SystemReminder, next_request, auto, make_reminders}
use purrcept_core.Models.Reminders.Keys.{UniqueKeys, reminder_state_keys}
use purrcept_core.Models.Prompt.Session.{
  Source, yielded_items, begin_session, normalize_reminder_sources,
}
use purrcept_core.Models.Loop.Tests.{services, config, state, hello}
use purrcept_core.Models.Conversation.{
  check_again, Conversation, ConversationCheckpoint, empty_state, snapshot, restore, fork, acquire,
  ask_flow,
}
use purrcept_core.Models.Conversation.Transaction.{Settles, ask_transactional}
use purrcept_core.Models.Conversation.Reminding.{Survives, beyond_turn, ask_reminders}
use purrcept_core.Models.Conversation.Busy.{snapshot-restore-fork}

abbrev once : SystemReminder
once = record {
  content = text_block "note" ∷ [];
  key = some "a";
  scope = next_request;
  placement = auto;
  priority = pos 1;
}

abbrev talk : Bool → Conversation ℕ
talk busy = record {
  config = config;
  reminder_sources = [];
  trace_sink = none;
  max_model_rounds = 8;
  state = state;
  reminder_state = make_reminders (once ∷ []);
  busy = busy;
}

ask_transactional_example :
    ((talk false).busy ≡ true
      → ask_flow services hello 3 (talk false) 0 ≡ (err conversation_busy, talk false, 0))
    × ((e : Error)
        → (talk false).busy ≡ false
        → normalize_reminder_sources (talk false).reminder_sources ≡ err e
        → ask_flow services hello 3 (talk false) 0 ≡ (err e, talk true, 0))
    × ((sources : List (Source ℕ))
        → (talk false).busy ≡ false
        → normalize_reminder_sources (talk false).reminder_sources ≡ ok sources
        → let (r, c', w') = ask_flow services hello 3 (talk false) 0 in
          (c'.busy ≡ false) × (c'.config ≡ config) × Settles (talk false) hello 3 r c')
ask_transactional_example = ask_transactional services hello 3 (talk false) 0

no_sources : normalize_reminder_sources (talk false).reminder_sources ≡ ok []
unfolding normalize_reminder_sources
no_sources = refl

abbrev twice : Source ℕ
twice = record { source_id = "s"; resolve = λ prepared n w. (yielded_items [], w) }

repeated_source :
    ask_flow services hello 3 (record (talk false) { reminder_sources = twice ∷ twice ∷ [] }) 0
    ≡ (err value_error, record (talk true) { reminder_sources = twice ∷ twice ∷ [] }, 0)
unfolding ask_flow acquire begin_session normalize_reminder_sources
repeated_source = refl

abbrev busy_talk : Conversation ℕ
busy_talk = talk true

abbrev point : ConversationCheckpoint
point = record { history = state; reminders = make_reminders [] }

snapshot-restore-fork_example :
    (k : ConversationCheckpoint) × (snapshot (talk false) ≡ (ok k, talk false))
    × (restore k (record (talk false) { state = empty_state }) ≡ (
      ok tt,
      record (talk false) { state = state; reminder_state = make_reminders (once ∷ []) },
    ))
    × (UniqueKeys (make_reminders (once ∷ [])).reminders
        → check_again (talk false) ≡ ok []
        → fork none (talk false) ≡ (ok (talk false), talk false))
    × ((e : Error)
        → check_again (talk false) ≡ err e
        → fork none (talk false) ≡ (err e, talk false))
snapshot-restore-fork_example =
    snapshot-restore-fork (talk false) (record (talk false) { state = empty_state }) refl refl

talk-UniqueKeys : UniqueKeys (talk false).reminder_state.reminders
talk-UniqueKeys = (reminder_state_keys (once ∷ [])).0

ask_reminders_example :
    let (r, c', w') = ask_flow services hello 3 (talk false) 0 in
    Survives (beyond_turn (make_reminders (once ∷ [])).reminders) c'.reminder_state.reminders
    × UniqueKeys c'.reminder_state.reminders
ask_reminders_example =
    ask_reminders services hello 3 (talk false) 0 [] refl no_sources talk-UniqueKeys
