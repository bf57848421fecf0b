-- ===== src/Models/Context/Tests.antt =====
-- Tests of the context policies on a history of two complete turns and a turn in progress.
use purrcept_core.Base.{
  String, ◌*◌, ℕ, ◌≡◌, refl, List, [], ◌∷◌, none, some, err, Result, length, arith, ◌≤◌, ◌<◌,
}
use purrcept_core.Models.Messages.{Message, user, assistant, text_block, Error, budget_exceeded}
use purrcept_core.Models.Context.{
  ConversationState, make_state, normalize_boundaries, PreparedContext, Counter, counted,
  sliding_window, token_budget, last_or, drop_oldest,
}
use purrcept_core.Models.Context.Turns.{Turn, Represents}
use purrcept_core.Models.Context.Retain.{Selects}
use purrcept_core.Models.Context.Split.{make_state-Represents}
use purrcept_core.Models.Context.Window.{sliding_window-Selects, drop_oldest_turns}
use purrcept_core.Models.Context.Budget.{Keeps, token_budget_selects}

abbrev asked : String → Message
asked t = record { role = user; content = text_block t ∷ []; name = none; metadata = 0 }

abbrev answered : String → Message
answered t = record { role = assistant; content = text_block t ∷ []; name = none; metadata = 0 }

abbrev first : Turn
first = asked "a" ∷ answered "b" ∷ []

abbrev second : Turn
second = asked "c" ∷ answered "d" ∷ []

abbrev current : Turn
current = asked "e" ∷ []

abbrev history : ConversationState
history = record {
  messages = asked "a" ∷ answered "b" ∷ asked "c" ∷ answered "d" ∷ asked "e" ∷ [];
  continuation = some 7;
  turn_index = 2;
  turn_boundaries = 2 ∷ 4 ∷ [];
}

history-Represents :
    Represents history.messages history.turn_boundaries (first ∷ second ∷ []) current
history-Represents = record {
  joined = refl;
  ends = refl;
  filled = (omega arith, (omega arith, tt));
}

sliding_window-Selects_example : Selects (sliding_window 1 history) (second ∷ []) current (some 7)
sliding_window-Selects_example =
    sliding_window-Selects 1 history (first ∷ second ∷ []) current history-Represents

abbrev prepared : PreparedContext
prepared = record {
  messages = history.messages;
  continuation = some 7;
  turn_boundaries = history.turn_boundaries;
}

drop_oldest_turns_example :
    (first ∷ second ∷ [] ≡ [] → drop_oldest prepared ≡ none)
    × ((t : Turn) (later : List Turn)
        → first ∷ second ∷ [] ≡ t ∷ later
        → (r : Result Error PreparedContext) × (drop_oldest prepared ≡ some r)
          × Selects r later current (some 7))
drop_oldest_turns_example =
    drop_oldest_turns prepared (first ∷ second ∷ []) current history-Represents

-- A counter that charges ten tokens for a message.
abbrev weight : List Message → ℕ
weight ms = 10 * length ms

abbrev weigh : Counter
weigh ms model = counted (weight ms)

token_budget_selects_example :
    (30 < weight current
      → token_budget 30 weigh 0 history ≡ err (budget_exceeded 30 (weight current)))
    × (weight current ≤ 30
        → Keeps 30 weigh 0 weight (λ ms. refl) history (first ∷ second ∷ []) current)
token_budget_selects_example =
    token_budget_selects 30 weigh 0 weight (λ ms. refl) history (first ∷ second ∷ []) current
      history-Represents

-- The turn in progress is over a budget of nine tokens.
too_small : token_budget 9 weigh 0 history ≡ err (budget_exceeded 9 10)
unfolding token_budget last_or
too_small = refl

make_state-Represents_example :
    (ts : List Turn) × (now : Turn) × Represents history.messages history.turn_boundaries ts now
    × (length ts ≡ history.turn_index)
unfolding make_state normalize_boundaries
make_state-Represents_example =
    make_state-Represents history.messages history.continuation 2 (2 ∷ 4 ∷ []) history refl
