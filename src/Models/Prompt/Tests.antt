-- ===== src/Models/Prompt/Tests.antt =====
-- Tests of the compiler's order and of a session that compiles one request under a budget.
use purrcept_core.Models.Prompt.Unique.{duplicates_rejected}
use purrcept_core.Base.{
  ℕ, ◌*◌, String, false, ◌≡◌, refl, none, some, List, [], ◌∷◌, length, keep_if, arith, map, ok, err,
}
use purrcept_core.Base.Int.{ℤ, pos, negsuc}
use purrcept_core.Models.Messages.{Message, user, text_block, prompt_compile}
use purrcept_core.Models.Context.{counted}
use purrcept_core.Models.Context.Turns.{Turn, Represents}
use purrcept_core.Models.Reminders.{
  SystemReminder, ReminderScope, next_request, turn, conversation, auto, make_reminders,
}
use purrcept_core.Models.Reminders.Keys.{UniqueKeys, reminder_state_keys}
use purrcept_core.Models.Prompt.Compiler.{
  Entry, scoped, unscoped, sort_entries, insert_entry, PromptDraft, Hashes, validate_unique_keys,
}
use purrcept_core.Models.Prompt.Session.{
  TurnPromptSession, RequestTokenBudget, Compiled, new_session, session_compile,
}
use purrcept_core.Models.Prompt.Sort.{Descending, has_priority, reminders_sorted}
use purrcept_core.Models.Prompt.Trimming.{Trimmed, compile_trims}
use purrcept_core.Models.Prompt.Ending.{compile_ends}
use purrcept_core.Models.Prompt.Consumption.{Every, compile_consumes}

abbrev reminder : String → ReminderScope → ℤ → SystemReminder
reminder k scope p = record {
  content = text_block k ∷ [];
  key = some k;
  scope = scope;
  placement = auto;
  priority = p;
}

abbrev low : SystemReminder
low = reminder "low" next_request (negsuc 0)

abbrev high : SystemReminder
high = reminder "high" conversation (pos 5)

abbrev equal_high : SystemReminder
equal_high = reminder "other" turn (pos 5)

abbrev unsorted : List Entry
unsorted = scoped low ∷ scoped high ∷ unscoped equal_high ∷ []

reminders_sorted_example :
    Descending (sort_entries unsorted)
    × ((p : ℤ)
        → keep_if (has_priority p) (sort_entries unsorted) ≡ keep_if (has_priority p) unsorted)
reminders_sorted_example = reminders_sorted unsorted

sorted : sort_entries unsorted ≡ scoped high ∷ unscoped equal_high ∷ scoped low ∷ []
unfolding sort_entries insert_entry
sorted = refl

abbrev said : String → Message
said t = record { role = user; content = text_block t ∷ []; name = none; metadata = 0 }

abbrev first : Turn
first = said "a" ∷ said "b" ∷ []

abbrev current : Turn
current = said "c" ∷ []

abbrev draft : PromptDraft
draft = record {
  history = record {
    messages = said "a" ∷ said "b" ∷ said "c" ∷ [];
    continuation = none;
    turn_boundaries = 2 ∷ [];
  };
  instructions = [];
  tools = [];
  settings = record { requires_tool = false; options = 0 };
  cache = 0;
  continuation = none;
  metadata = 0;
  provider_options = 0;
}

draft-Represents :
    Represents draft.history.messages draft.history.turn_boundaries (first ∷ []) current
draft-Represents = record { joined = refl; ends = refl; filled = (omega arith, tt) }

abbrev session : TurnPromptSession ℕ
session = new_session (make_reminders (low ∷ high ∷ equal_high ∷ [])) [] none

-- Ten tokens for a message: the three of the draft are over twenty, the last alone is not.
abbrev budget : RequestTokenBudget ℕ
budget = record {
  max_tokens = 20;
  counter = λ request model w. (counted (10 * length request.messages), w);
}

abbrev hashes : Hashes
hashes = record { reminder_hash = λ content. 0; request_hash = λ request. 0 }

compile_trims_example :
    (r : Compiled ℕ) × (session_compile hashes session draft 0 1 (some budget) 0 ≡ some r)
    × Trimmed (some budget) 0 (first ∷ []) current r.0
compile_trims_example =
    compile_trims hashes session draft 0 1 (some budget) 0 (first ∷ []) current draft-Represents

session-UniqueKeys : UniqueKeys session.remaining.reminders
unfolding new_session
session-UniqueKeys = (reminder_state_keys _).0

compile_consumes_example : Every session (session_compile hashes session draft 0 1 (some budget) 0)
compile_consumes_example =
    compile_consumes hashes session draft 0 1 (some budget) 0 session-UniqueKeys

compile_ends_example :
    (r : Compiled ℕ) × (session_compile hashes session draft 0 1 (some budget) 0 ≡ some r)
compile_ends_example = compile_ends hashes session draft 0 1 (some budget) 0

duplicates_rejected_example :
    (validate_unique_keys [] (map (λ r. r.key) (low ∷ high ∷ low ∷ [])) ≡ ok tt
      → UniqueKeys (low ∷ high ∷ low ∷ []))
    × (UniqueKeys (low ∷ high ∷ low ∷ [])
        → validate_unique_keys [] (map (λ r. r.key) (low ∷ high ∷ low ∷ [])) ≡ ok tt)
duplicates_rejected_example = duplicates_rejected (low ∷ high ∷ low ∷ [])

duplicate :
    validate_unique_keys [] (map (λ r. r.key) (low ∷ high ∷ low ∷ [])) ≡ err (prompt_compile "low")
unfolding validate_unique_keys
duplicate = refl
