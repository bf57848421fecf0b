-- ===== src/Models/Decisions/Agreement.antt =====
-- What a validated response says of its request.
use purrcept_core.Base.{
  ℕ, String, eq_iff, Bool, true, false, not, ◌≡◌, refl, ◌↔◌, List, [], ◌∷◌, map, Result, ok, err,
  length, if◌then◌else◌, arith,
}
use purrcept_core.Base.Int.{pos, ◌-ℤ◌}
use purrcept_core.Base.Float.{is_above}
use purrcept_core.Base.Sets.{◌∈◌, is_member_iff, same_set_iff, both_true, true_both}
use purrcept_core.Models.Decisions.{
  DecisionError, ChoiceValue, DecisionQuestion, predicate_question, choice_question, score_question,
  question_name, DecisionAnswer, predicate_answer, choice_answer, score_answer, refusal,
  answer_name, ChoiceQuestion, ChoiceAnswer, ScoreQuestion, ScoreAnswer, DecisionRequest,
  DecisionResponse, same_names, enumerate_from, choice_agrees, score_agrees, answer_agrees,
  validate_answers, validate_for, choice_equal, level_equal, response_error,
}

-- The distribution is over the declared options, and the choice is one of them.
pub record ChoiceFits (q : ChoiceQuestion) (a : ChoiceAnswer) : Type 0 where
  pub covers :
      (v : ChoiceValue)
      → (v ∈ map (λ p. p.value) a.probabilities) ↔ (v ∈ map (λ c. c.value) q.choices)
  pub chosen : a.choice ∈ map (λ c. c.value) q.choices

-- The distribution is over the declared levels with their positions, and the score is not above the
-- last position.
pub record ScoreFits (q : ScoreQuestion) (a : ScoreAnswer) : Type 0 where
  pub covers :
      (l : ℕ × String)
      → (l ∈ map (λ p. (p.index, p.label)) a.probabilities) ↔ (l ∈ enumerate_from 0 q.levels)
  pub bounded : is_above (pos (length q.levels) -ℤ pos 1) a.score ≡ false

-- A refusal, or an answer of the question's kind that fits it.
abbrev pub Fits : DecisionQuestion → DecisionAnswer → Type 0
Fits q (refusal name) = Unit
Fits (predicate_question q) (predicate_answer a) = Unit
Fits (choice_question q) (choice_answer a) = ChoiceFits q a
Fits (score_question q) (score_answer a) = ScoreFits q a
Fits _ _ = ⊥

-- One answer for each question, of its name and fitting it, in order.
abbrev pub Agrees : List DecisionQuestion → List DecisionAnswer → Type 0
Agrees [] [] = Unit
Agrees (q ∷ qs) (a ∷ answers) = ((answer_name a ≡ question_name q) × Fits q a) × Agrees qs answers
Agrees _ _ = ⊥

not-false : (b : Bool) → not b ≡ true → b ≡ false
not-false b h = ground arith

true-not : (b : Bool) → b ≡ false → not b ≡ true
true-not b h = ground arith

choice_agrees_iff :
    (q : ChoiceQuestion) (a : ChoiceAnswer) → (choice_agrees q a ≡ true) ↔ ChoiceFits q a
choice_agrees_iff q a =
    let values = map (λ p. p.value) a.probabilities in
    let options = map (λ c. c.value) q.choices in
    (
      λ h. record {
        covers = (same_set_iff values options).0 (both_true h).0;
        chosen = (is_member_iff a.choice options).0 (both_true h).1;
      },
      λ fit.
          true_both ((same_set_iff values options).1 fit.covers)
            ((is_member_iff a.choice options).1 fit.chosen),
    )

score_agrees_iff : (q : ScoreQuestion) (a : ScoreAnswer) → (score_agrees q a ≡ true) ↔ ScoreFits q a
score_agrees_iff q a =
    let values = map (λ p. (p.index, p.label)) a.probabilities in
    let levels = enumerate_from 0 q.levels in
    let above = is_above (pos (length q.levels) -ℤ pos 1) a.score in
    (
      λ h. record {
        covers = (same_set_iff values levels).0 (both_true h).0;
        bounded = not-false above (both_true h).1;
      },
      λ fit. true_both ((same_set_iff values levels).1 fit.covers) (true-not above fit.bounded),
    )

no_fit : (false ≡ true) ↔ ⊥
no_fit = (λ h. absurd (cc), λ h. absurd h)

answer_agrees_iff :
    (q : DecisionQuestion) (a : DecisionAnswer) → (answer_agrees q a ≡ true) ↔ Fits q a
unfolding answer_agrees
answer_agrees_iff q (refusal name) = (λ h. tt, λ h. refl)
answer_agrees_iff (predicate_question q) (predicate_answer a) = (λ h. tt, λ h. refl)
answer_agrees_iff (predicate_question q) (choice_answer a) = no_fit
answer_agrees_iff (predicate_question q) (score_answer a) = no_fit
answer_agrees_iff (choice_question q) (predicate_answer a) = no_fit
answer_agrees_iff (choice_question q) (choice_answer a) = choice_agrees_iff q a
answer_agrees_iff (choice_question q) (score_answer a) = no_fit
answer_agrees_iff (score_question q) (predicate_answer a) = no_fit
answer_agrees_iff (score_question q) (choice_answer a) = no_fit
answer_agrees_iff (score_question q) (score_answer a) = score_agrees_iff q a

if_ok :
    {A : Type 0} (e : DecisionError) (b : Bool) (r : Result DecisionError A) (x : A)
    → ((if b then r else err e) ≡ ok x) ↔ ((b ≡ true) × (r ≡ ok x))
if_ok e true r x = (λ h. (refl, h), λ h. h.1)
if_ok e false r x = (λ h. absurd (cc), λ h. absurd (false_true h.0))
  where
    false_true : false ≡ true → ⊥
    false_true h = cc

-- The two checks, question by question.
both_checks :
    (qs : List DecisionQuestion) (answers : List DecisionAnswer)
    → ((same_names (map answer_name answers) (map question_name qs) ≡ true)
        × (validate_answers qs answers ≡ ok tt))
      ↔ Agrees qs answers
unfolding validate_answers
both_checks [] [] = (λ h. tt, λ h. (refl, refl))
both_checks [] (a ∷ answers) = (λ h. absurd (no_fit.0 h.0), λ h. absurd h)
both_checks (q ∷ qs) [] = (λ h. absurd (no_fit.0 h.0), λ h. absurd h)
both_checks (q ∷ qs) (a ∷ answers) =
    let named = eq_iff (answer_name a) (question_name q) in
    let fits = answer_agrees_iff q a in
    let rest = both_checks qs answers in
    let loop = if_ok response_error (answer_agrees q a) (validate_answers qs answers) tt in
    (
      λ h.
          let (names, checked) = h in
          let (first, later) = both_true names in
          let (fit, others) = loop.0 checked in
          ((named.0 first, fits.0 fit), rest.0 (later, others)),
      λ h.
          let (now, later) = h in
          let (names, others) = rest.1 later in
          (true_both (named.1 now.0) names, loop.1 (fits.1 now.1, others)),
    )

-- A response is accepted for a request exactly where it has one answer for each question, in the
-- order of the questions and under their names, each a refusal or an answer of the question's kind:
-- a choice among the declared options with a distribution over exactly these, or a score not above
-- the last level with a distribution over exactly the declared levels.
pub validate_for_iff :
    (response : DecisionResponse) (request : DecisionRequest)
    → (validate_for response request ≡ ok tt) ↔ Agrees request.questions response.answers
unfolding validate_for
validate_for_iff response request =
    let names =
      same_names (map answer_name response.answers) (map question_name request.questions) in
    let checks =
      if_ok response_error names (validate_answers request.questions response.answers) tt in
    let both = both_checks request.questions response.answers in
    (λ h. both.0 (checks.0 h), λ h. checks.1 (both.1 h))
