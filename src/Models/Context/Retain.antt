-- ===== src/Models/Context/Retain.antt =====
-- Cutting a history where a turn begins: what the policies return stands for the later turns.
use purrcept_core.Base.{
  ℕ, zero, suc, ◌+◌, ◌-◌, ◌≤◌, ◌<◌, ◌≡◌, refl, ap, ◌∙◌, List, [], ◌∷◌, ◌++◌, map, arith, length,
  drop, take, length-append, All, Result, ok, Option,
}
use purrcept_core.Models.Messages.{Message, Continuation, Error}
use purrcept_core.Models.Context.{
  ConversationState, PreparedContext, make_prepared, normalize_boundaries, turn_start, retain,
}
use purrcept_core.Models.Context.Turns.{
  Turn, flat, total, offsets, Represents, length-flat, normalize-offsets, turn_start-offsets,
  drop-offsets, shift-offsets, drop-flat,
}

-- The policy returned a context that stands for these turns, with this continuation.
abbrev pub Selects : Result Error PreparedContext → List Turn → Turn → Option Continuation → Type 0
Selects r ts current continuation =
    (p : PreparedContext) × (r ≡ ok p)
    × Represents p.messages p.turn_boundaries ts current
    × (p.continuation ≡ continuation)

drop-filled :
    (k : ℕ) (ts : List Turn) → All (λ t. 0 < length t) ts → All (λ t. 0 < length t) (drop k ts)
drop-filled zero ts h = h
drop-filled (suc k) [] h = tt
drop-filled (suc k) (t ∷ ts) h = drop-filled k ts h.1

-- A context is accepted if it is made of filled turns.
pub make_prepared-Represents :
    (messages : List Message) (c : Option Continuation) (bs : List ℕ) (ts : List Turn)
    (current : Turn)
    → Represents messages bs ts current
    → Selects (make_prepared messages c bs) ts current c
unfolding make_prepared
make_prepared-Represents messages c bs ts current h =
    let fits : 0 + total ts ≤ length messages =
      omega (arith, ap length h.joined, length-append (flat ts) current, length-flat ts) in
    let accepted : normalize_boundaries 0 (length messages) bs ≡ ok tt =
      rw h.ends (normalize-offsets 0 (length messages) ts h.filled fits) in
    (
      record { messages = messages; continuation = c; turn_boundaries = bs },
      rw accepted refl,
      h,
      refl,
    )

pub cut-Represents :
    (messages : List Message) (bs : List ℕ) (ts : List Turn) (current : Turn) (k : ℕ)
    → Represents messages bs ts current
    → k ≤ length ts
    → Represents
        (drop (turn_start bs k) messages)
        (map (λ b. b - turn_start bs k) (drop k bs))
        (drop k ts)
        current
cut-Represents messages bs ts current k h le =
    let n : ℕ = total (take k ts) in
    let start : turn_start bs k ≡ n = rw h.ends (turn_start-offsets k ts le) in
    let bounds : drop k bs ≡ offsets (n + 0) (drop k ts) =
      rw h.ends (drop-offsets 0 k ts le ∙ ap (λ (m : ℕ). offsets m (drop k ts)) (omega arith)) in
    let cut : drop n messages ≡ flat (drop k ts) ++ current =
      rw h.joined (drop-flat k ts current le) in
    let moved : map (λ b. b - n) (drop k bs) ≡ offsets 0 (drop k ts) =
      rw bounds (shift-offsets n 0 (drop k ts)) in
    record { joined = rw start cut; ends = rw start moved; filled = drop-filled k ts h.filled }

pub retain-Selects :
    (s : ConversationState) (ts : List Turn) (current : Turn) (k : ℕ)
    → Represents s.messages s.turn_boundaries ts current
    → k ≤ length ts
    → Selects (retain s (turn_start s.turn_boundaries k) k) (drop k ts) current s.continuation
retain-Selects s ts current k h le =
    make_prepared-Represents (drop (turn_start s.turn_boundaries k) s.messages) s.continuation
      (map (λ b. b - turn_start s.turn_boundaries k) (drop k s.turn_boundaries)) (drop k ts) current
      (cut-Represents s.messages s.turn_boundaries ts current k h le)
