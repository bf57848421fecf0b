-- ===== src/Models/Reminders/Tests.antt =====
-- Tests of the reminder collection: two keyed reminders, of which one is for the next request.
use purrcept_core.Base.{ℕ, String, true, ◌≡◌, refl, none, some, List, [], ◌∷◌, ◌++◌, ok}
use purrcept_core.Base.Int.{pos}
use purrcept_core.Models.Messages.{text_block}
use purrcept_core.Models.Reminders.{
  SystemReminder, ReminderState, ReminderScope, next_request, turn, conversation, auto, has_key,
  upsert, upsert_reminder, replace_key, normalize_from, make_reminders, remove,
}
use purrcept_core.Models.Reminders.Keys.{UniqueKeys, count, reminder_state_keys}
use purrcept_core.Models.Reminders.Edits.{upsert_slots, remove_reports}

abbrev keyed : String → ReminderScope → ℕ → SystemReminder
keyed k scope p = record {
  content = text_block k ∷ [];
  key = some k;
  scope = scope;
  placement = auto;
  priority = pos p;
}

abbrev old : SystemReminder
old = keyed "a" next_request 1

abbrev other : SystemReminder
other = keyed "b" turn 2

abbrev new : SystemReminder
new = keyed "a" conversation 3

abbrev two : ReminderState
two = make_reminders (old ∷ other ∷ [])

two-reminders : two.reminders ≡ old ∷ other ∷ []
unfolding make_reminders normalize_from upsert_reminder replace_key has_key
two-reminders = refl

merged : (make_reminders (old ∷ other ∷ new ∷ [])).reminders ≡ new ∷ other ∷ []
unfolding make_reminders normalize_from upsert_reminder replace_key has_key
merged = refl

two-UniqueKeys : UniqueKeys two.reminders
two-UniqueKeys = (reminder_state_keys (old ∷ other ∷ [])).0

reminder_state_keys_example :
    UniqueKeys (make_reminders (old ∷ other ∷ new ∷ [])).reminders
    × (UniqueKeys (old ∷ other ∷ new ∷ [])
        → (make_reminders (old ∷ other ∷ new ∷ [])).reminders ≡ old ∷ other ∷ new ∷ [])
reminder_state_keys_example = reminder_state_keys (old ∷ other ∷ new ∷ [])

upsert_slots_example :
    (new.key ≡ none → (upsert two new).reminders ≡ two.reminders ++ new ∷ [])
    × ((k : String)
        → new.key ≡ some k
        → (count k two.reminders ≡ 0 → (upsert two new).reminders ≡ two.reminders ++ new ∷ [])
          × ((before after : List SystemReminder) (x : SystemReminder)
              → two.reminders ≡ before ++ x ∷ after
              → has_key k x ≡ true
              → (upsert two new).reminders ≡ before ++ new ∷ after))
upsert_slots_example = upsert_slots two new two-UniqueKeys

replaced : (upsert two new).reminders ≡ new ∷ other ∷ []
unfolding has_key
replaced = (upsert_slots_example.1 "a" refl).1 [] (other ∷ []) old two-reminders refl

removed : remove "b" two ≡ ok (record { reminders = old ∷ [] }, true)
unfolding has_key
removed = ((remove_reports "b" two two-UniqueKeys).1 refl).1 (old ∷ []) [] other two-reminders refl
