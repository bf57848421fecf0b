-- ===== src/Models/Context.antt =====
-- context_policy.py: the history that a policy selects for the next request, and the state that it
-- selects from (`ConversationState` of conversation.py).
pub mod Turns
mod Retain
pub mod Split
pub mod Window
pub mod Budget
mod Tests
use purrcept_core.Base.{
  ℕ, zero, suc, ◌+◌, ◌-◌, Bool, true, false, Option, none, some, List, [], ◌∷◌, map, Result, ok,
  err, ⊤, ◌>>=◌, ◌>>◌, raise_if, length, get_or, drop, ltb, leb, ◌==◌, if◌then◌else◌,
}
use purrcept_core.Models.Messages.{
  Message, Continuation, Model, Error, type_error, value_error, budget_exceeded,
}

-- `ConversationState`: `turn_boundaries` holds the end offset of each complete turn.
pub record ConversationState : Type 0 where
  pub messages : List Message
  pub continuation : Option Continuation
  pub turn_index : ℕ
  pub turn_boundaries : List ℕ

pub record PreparedContext : Type 0 where
  pub messages : List Message
  pub continuation : Option Continuation
  pub turn_boundaries : List ℕ

-- `_normalize_boundaries`, and `_normalize_turn_boundaries` of conversation.py: the loop over the
-- boundaries, from the previous one.
unfoldable pub normalize_boundaries : ℕ → ℕ → List ℕ → Result Error ⊤
normalize_boundaries previous count [] = ok tt
normalize_boundaries previous count (b ∷ bs) =
    let rest = normalize_boundaries b count bs in
    raise_if (leb b previous) value_error >> raise_if (ltb count b) value_error >> rest

-- The constructors.
unfoldable pub make_prepared :
    List Message → Option Continuation → List ℕ → Result Error PreparedContext
make_prepared messages continuation boundaries = do
  normalize_boundaries 0 (length messages) boundaries
  ok (record { messages = messages; continuation = continuation; turn_boundaries = boundaries })

unfoldable pub make_state :
    List Message → Option Continuation → ℕ → List ℕ → Result Error ConversationState
make_state messages continuation turn_index boundaries = do
  normalize_boundaries 0 (length messages) boundaries
  raise_if (if length boundaries == turn_index then false else true) value_error
  ok (record {
    messages = messages;
    continuation = continuation;
    turn_index = turn_index;
    turn_boundaries = boundaries;
  })

-- `AppendOnlyContext.prepare`
unfoldable pub append_only : ConversationState → Result Error PreparedContext
append_only s = make_prepared s.messages s.continuation s.turn_boundaries

-- The offset where turn `k` begins: `0 if k == 0 else boundaries[k - 1]`.
abbrev pub turn_start : List ℕ → ℕ → ℕ
turn_start boundaries zero = 0
turn_start boundaries (suc k) = get_or boundaries k 0

-- What both policies return: the messages from `start` on, and the boundaries from number `k` on.
abbrev pub retain : ConversationState → ℕ → ℕ → Result Error PreparedContext
retain s start k =
    make_prepared (drop start s.messages) s.continuation
      (map (λ b. b - start) (drop k s.turn_boundaries))

-- `SlidingWindowContext.prepare`; `len - max_turns` stops at 0, as `max(0, …)` does.
unfoldable pub sliding_window : ℕ → ConversationState → Result Error PreparedContext
sliding_window max_turns s =
    let k = length s.turn_boundaries - max_turns in retain s (turn_start s.turn_boundaries k) k

-- What a token counter comes to.
pub data CountReply : Type 0 where
  counted : ℕ → CountReply
  negative not_an_int awaitable : CountReply
  count_raised : Error → CountReply

abbrev pub Counter : Type 0
Counter = List Message → Model → CountReply

-- `_count_tokens`
abbrev pub count_reply : CountReply → Result Error ℕ
count_reply (counted n) = ok n
count_reply negative = err value_error
count_reply not_an_int = err type_error
count_reply awaitable = err type_error
count_reply (count_raised e) = err e

-- `boundaries[-1] if boundaries else 0`
unfoldable pub last_or : ℕ → List ℕ → ℕ
last_or d [] = d
last_or d (b ∷ bs) = last_or b bs

-- The backward loop of `TokenBudgetContext.prepare`: `k` older turns are left to try, and the
-- candidate that fitted last starts at `start` with turn number `retained`.
unfoldable pub extend_back :
    ℕ → Counter → Model → ConversationState → ℕ → ℕ → ℕ → Result Error (ℕ × ℕ)
extend_back max_tokens counter model s zero start retained = ok (start, retained)
extend_back max_tokens counter model s (suc k) start retained =
    let candidate = turn_start s.turn_boundaries k in
    let further = extend_back max_tokens counter model s k candidate k in
    do
      tokens ← count_reply (counter (drop candidate s.messages) model)
      if ltb max_tokens tokens then ok (start, retained) else further

unfoldable pub token_budget : ℕ → Counter → Model → ConversationState → Result Error PreparedContext
token_budget max_tokens counter model s = do
  let n = length s.turn_boundaries
  let current = last_or 0 s.turn_boundaries
  tokens ← count_reply (counter (drop current s.messages) model)
  raise_if (ltb max_tokens tokens) (budget_exceeded max_tokens tokens)
  found ← extend_back max_tokens counter model s n current n
  retain s found.0 found.1

-- `_drop_oldest_complete_turn` of prompt/compiler.py; `none` where there is no complete turn.
abbrev pub drop_first : List ℕ → PreparedContext → Option (Result Error PreparedContext)
drop_first [] h = none
drop_first (removed ∷ bs) h =
    some (make_prepared (drop removed h.messages) h.continuation (map (λ b. b - removed) bs))

unfoldable pub drop_oldest : PreparedContext → Option (Result Error PreparedContext)
drop_oldest h = drop_first h.turn_boundaries h
