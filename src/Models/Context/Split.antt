-- ===== src/Models/Context/Split.antt =====
-- Every accepted history is a list of turns: the hypothesis of the policies' theorems always holds.
use purrcept_core.Base.{
  ℕ, ◌+◌, ◌-◌, ◌≤◌, ◌<◌, ◌≡◌, refl, sym, ap, ◌∙◌, Option, List, [], ◌∷◌, ◌++◌, append_assoc, arith,
  length, false, take, drop, take-append-drop, length-take, length-drop, All, ok, leb, ltb, leb→gt,
  ltb→ge,
}
use purrcept_core.Models.Messages.{Message, Continuation}
use purrcept_core.Models.Context.{ConversationState, normalize_boundaries, make_state}
use purrcept_core.Models.Context.Turns.{Turn, flat, offsets, Represents, length-offsets}

accepted :
    (previous count b : ℕ) (bs : List ℕ)
    → normalize_boundaries previous count (b ∷ bs) ≡ ok tt
    → (leb b previous ≡ false) × (ltb count b ≡ false) × (normalize_boundaries b count bs ≡ ok tt)
unfolding normalize_boundaries
accepted previous count b bs h = ground arith

-- The constructor keeps what it accepts.
pub make_state-ok :
    (ms : List Message) (c : Option ℕ) (n : ℕ) (bs : List ℕ) (committed : ConversationState)
    → make_state ms c n bs ≡ ok committed
    → (committed ≡ record { messages = ms; continuation = c; turn_index = n; turn_boundaries = bs })
      × (length bs ≡ n)
      × (normalize_boundaries 0 (length ms) bs ≡ ok tt)
unfolding make_state
make_state-ok ms c n bs committed h = ground arith

-- The turns that begin at an offset.
record Splits (start : ℕ) (ms : List Message) (bs : List ℕ) : Type 0 where
  turns : List Turn
  current : Turn
  joined : ms ≡ flat turns ++ current
  ends : bs ≡ offsets start turns
  filled : All (λ t. 0 < length t) turns

put_first :
    (start b : ℕ) (ms : List Message) (bs : List ℕ)
    → start < b
    → b ≤ start + length ms
    → Splits b (drop (b - start) ms) bs
    → Splits start ms (b ∷ bs)
put_first start b ms bs low high later =
    let first : Turn = take (b - start) ms in
    let size : length first ≡ b - start = omega (arith, length-take (b - start) ms) in
    let here : start + length first ≡ b = omega (arith, size) in
    record {
      turns = first ∷ later.turns;
      current = later.current;
      joined =
          sym (take-append-drop (b - start) ms)
          ∙ ap (λ xs. first ++ xs) later.joined
          ∙ sym (append_assoc first (flat later.turns) later.current);
      ends = ap (λ xs. b ∷ xs) later.ends ∙ ap (λ (n : ℕ). n ∷ offsets n later.turns) (sym here);
      filled = (omega (arith, size, low), later.filled);
    }

split :
    (start count : ℕ) (ms : List Message) (bs : List ℕ)
    → count ≡ start + length ms
    → normalize_boundaries start count bs ≡ ok tt
    → Splits start ms bs
split start count ms [] e h = record {
  turns = [];
  current = ms;
  joined = refl;
  ends = refl;
  filled = tt;
}
split start count ms (b ∷ bs) e h =
    let (above, within, rest) = accepted start count b bs h in
    let low : start < b = leb→gt b start above in
    let high : b ≤ count = ltb→ge count b within in
    put_first start b ms bs low (omega (arith, e, high)) (
      split b count (drop (b - start) ms) bs
        (omega (arith, e, low, high, length-drop (b - start) ms)) rest)

-- Whatever messages and boundaries the constructor of ConversationState accepts, the state that it
-- makes stands for some list of non-empty complete turns, as many as its turn index, and a turn in
-- progress.
pub make_state-Represents :
    (ms : List Message) (c : Option Continuation) (n : ℕ) (bs : List ℕ) (s : ConversationState)
    → make_state ms c n bs ≡ ok s
    → (ts : List Turn) × (current : Turn) × Represents s.messages s.turn_boundaries ts current
      × (length ts ≡ s.turn_index)
make_state-Represents ms c n bs s h =
    let (same, counted, valid) = make_state-ok ms c n bs s h in
    let parts = split 0 (length ms) ms bs (omega arith) valid in
    (
      parts.turns,
      parts.current,
      record {
        joined = ap (λ s. s.messages) same ∙ parts.joined;
        ends = ap (λ s. s.turn_boundaries) same ∙ parts.ends;
        filled = parts.filled;
      },
      sym (length-offsets 0 parts.turns)
          ∙ sym (ap length parts.ends)
          ∙ counted
          ∙ sym (ap (λ s. s.turn_index) same),
    )
