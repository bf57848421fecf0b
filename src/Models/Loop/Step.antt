-- ===== src/Models/Loop/Step.antt =====
-- A step of a turn: it changes the prompt session and the world, and returns or raises.
use purrcept_core.Base.{Result, ok, err}
use purrcept_core.Models.Messages.{Error}
use purrcept_core.Models.Prompt.Session.{TurnPromptSession}

abbrev pub TurnStep : Type 0 → Type 0 → Type 0
TurnStep W A = TurnPromptSession W → W → Result Error A × TurnPromptSession W × W

abbrev pub resume_turn :
    {W A B : Type 0}
    → (A → TurnStep W B)
    → Result Error A × TurnPromptSession W × W
    → Result Error B × TurnPromptSession W × W
resume_turn f (ok a, s, w) = f a s w
resume_turn f (err e, s, w) = (err e, s, w)

infixl 5 ◌after_turn◌
abbrev pub ◌after_turn◌ : {W A B : Type 0} → TurnStep W A → (A → TurnStep W B) → TurnStep W B
(m after_turn f) s w = resume_turn f (m s w)

abbrev pub lift : {W A : Type 0} → Result Error A → TurnStep W A
lift r s w = (r, s, w)
