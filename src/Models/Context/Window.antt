-- ===== src/Models/Context/Window.antt =====
-- The sliding window, and the removal of the oldest turn, against the list of turns.
use purrcept_core.Base.{
  ℕ, ◌+◌, ◌-◌, ◌≡◌, refl, ap, ◌∙◌, List, [], ◌∷◌, map, arith, length, drop, Result, none, some,
}
use mathlib.Core.Path.{subst}
use purrcept_core.Models.Messages.{Error}
use purrcept_core.Models.Context.{
  ConversationState, PreparedContext, make_prepared, turn_start, sliding_window, append_only,
  drop_oldest,
}
use purrcept_core.Models.Context.Turns.{Turn, offsets, Represents, length-offsets}
use purrcept_core.Models.Context.Retain.{
  Selects, make_prepared-Represents, cut-Represents, retain-Selects,
}

-- For a state that stands for some complete turns and a turn in progress, SlidingWindowContext never
-- raises, and selects exactly the last `max_turns` complete turns (all of them if there are no
-- more) and the whole turn in progress, with the state's continuation.
pub sliding_window-Selects :
    (max_turns : ℕ) (s : ConversationState) (ts : List Turn) (current : Turn)
    → Represents s.messages s.turn_boundaries ts current
    → Selects (sliding_window max_turns s) (drop (length ts - max_turns) ts) current s.continuation
unfolding sliding_window
sliding_window-Selects max_turns s ts current h =
    let same : length s.turn_boundaries ≡ length ts = ap length h.ends ∙ length-offsets 0 ts in
    rw same (retain-Selects s ts current (length ts - max_turns) h (omega arith))

-- AppendOnlyContext never raises on such a state and selects every turn.
append_only-Selects :
    (s : ConversationState) (ts : List Turn) (current : Turn)
    → Represents s.messages s.turn_boundaries ts current
    → Selects (append_only s) ts current s.continuation
unfolding append_only
append_only-Selects s ts current h =
    make_prepared-Represents s.messages s.continuation s.turn_boundaries ts current h

-- With a first boundary, what is removed is what precedes turn 1.
oldest :
    (p : PreparedContext) (b : ℕ) (bs : List ℕ)
    → p.turn_boundaries ≡ b ∷ bs
    → let start = turn_start p.turn_boundaries 1 in
      drop_oldest p
      ≡ some (
          make_prepared
            (drop start p.messages)
            p.continuation
            (map (λ n. n - start) (drop 1 p.turn_boundaries)))
unfolding drop_oldest
oldest p b bs e = rw e refl

-- Removing the oldest complete turn gives no context if there is none; otherwise it never raises,
-- and leaves exactly the later turns and the whole turn in progress, with the same continuation.
pub drop_oldest_turns :
    (p : PreparedContext) (ts : List Turn) (current : Turn)
    → Represents p.messages p.turn_boundaries ts current
    → (ts ≡ [] → drop_oldest p ≡ none)
      × ((t : Turn) (later : List Turn)
          → ts ≡ t ∷ later
          → (r : Result Error PreparedContext) × (drop_oldest p ≡ some r)
            × Selects r later current p.continuation)
unfolding drop_oldest
drop_oldest_turns p ts current h = (
  λ e. rw (h.ends, e) refl,
  λ t later e.
      let first : p.turn_boundaries ≡ (0 + length t) ∷ offsets (0 + length t) later =
        h.ends ∙ ap (offsets 0) e in
      let start = turn_start p.turn_boundaries 1 in
      let bs = map (λ n. n - start) (drop 1 p.turn_boundaries) in
      let cut : Represents (drop start p.messages) bs later current =
        subst (λ us. Represents (drop start p.messages) bs (drop 1 us) current) e
          (cut-Represents p.messages p.turn_boundaries ts current 1 h (rw e (omega arith))) in
      (
        make_prepared (drop start p.messages) p.continuation bs,
        oldest p (0 + length t) (offsets (0 + length t) later) first,
        make_prepared-Represents (drop start p.messages) p.continuation bs later current cut,
      ),
)
