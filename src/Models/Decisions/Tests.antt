-- ===== src/Models/Decisions/Tests.antt =====
-- Tests of the decisions: a yes-or-no choice and a score of two levels.
use purrcept_core.Base.{
  ℕ, String, str_eq, Bool, true, false, ◌≡◌, refl, ◌↔◌, inl, inr, Option, none, some, List, [], ◌∷◌,
  All, Result, ok, err,
}
use purrcept_core.Base.Int.{pos}
use purrcept_core.Base.Float.{Float, finite, nan}
use purrcept_core.Runtime.Exceptions.{Obj}
use purrcept_core.Models.Decisions.{
  DecisionError, value_error, response_error, bool_value, input_text, choice_question,
  score_question, choice_answer, score_answer, refusal, DecisionQuestion, DecisionAnswer,
  DecisionRequest, DecisionResponse, DecisionModel, responded, validate_for, validate_answers,
  answer_agrees, decide_execute,
}
use purrcept_core.Models.Decisions.Checks.{
  given_string, given_float, given_bool, elements, evidence_text, snapshot, unique, text,
  request_of, number, choice_value, choice_answer_of,
}
use purrcept_core.Models.Decisions.Agreement.{Agrees, validate_for_iff}
use purrcept_core.Models.Decisions.Lookup.{Found, decide_answers}
use purrcept_core.Models.Decisions.Constructed.{AnswerInRange, answers_in_range}

abbrev is_blank : String → Bool
is_blank s = str_eq s ""

abbrev freeze : Obj → Result DecisionError Obj
freeze o = ok o

abbrev urgent : DecisionQuestion
urgent = choice_question (record {
  name = "urgent";
  instructions = "Is it urgent?";
  choices =
      record { value = bool_value true; description = none }
      ∷ record { value = bool_value false; description = none }
      ∷ [];
})

abbrev quality : DecisionQuestion
quality = score_question (record {
  name = "quality";
  instructions = "How good is it?";
  levels =
      record { label = "poor"; description = none }
      ∷ record { label = "good"; description = none }
      ∷ [];
})

abbrev request : DecisionRequest
request = record {
  input = input_text "evidence";
  questions = urgent ∷ quality ∷ [];
  metadata = 0;
  provider_options = 0;
}

abbrev half : Float
half = finite (pos 1) 1

abbrev score_of : Float → DecisionAnswer
score_of x = score_answer (record {
  name = "quality";
  score = x;
  probabilities =
      record { index = 1; label = "good"; probability = half }
      ∷ record { index = 0; label = "poor"; probability = half }
      ∷ [];
  confidence = half;
})

abbrev choice : DecisionAnswer
choice = choice_answer (record {
  name = "urgent";
  choice = bool_value true;
  probabilities =
      record { value = bool_value false; probability = half }
      ∷ record { value = bool_value true; probability = half }
      ∷ [];
  confidence = half;
})

abbrev response : List DecisionAnswer → DecisionResponse
response answers = record { answers = answers; usage = none; model = none; provider_metadata = 0 }

abbrev good : DecisionResponse
good = response (choice ∷ score_of half ∷ [])

accepted : validate_for good request ≡ ok tt
unfolding validate_for validate_answers answer_agrees
accepted = refl

refused : validate_for (response (choice ∷ refusal "quality" ∷ [])) request ≡ ok tt
unfolding validate_for validate_answers answer_agrees
refused = refl

reordered : validate_for (response (score_of half ∷ choice ∷ [])) request ≡ err response_error
unfolding validate_for validate_answers answer_agrees
reordered = refl

too_high :
    validate_for (response (choice ∷ score_of (finite (pos 3) 1) ∷ [])) request ≡ err response_error
unfolding validate_for validate_answers answer_agrees
too_high = refl

no_number : number (given_float nan) none ≡ err value_error
unfolding number
no_number = refl

validate_for_iff_example :
    (validate_for good request ≡ ok tt) ↔ Agrees request.questions good.answers
validate_for_iff_example = validate_for_iff good request

abbrev model : DecisionModel ℕ
model = record { name = "m"; decide = λ q name w. (responded good, w) }

abbrev question_list : List (Option DecisionQuestion)
question_list = some urgent ∷ some quality ∷ []

built :
    request_of is_blank freeze (evidence_text "evidence") (elements question_list) 0 0 ≡ ok request
unfolding request_of snapshot unique text
built = refl

decided : (decide_execute model request 0).0 ≡ ok good
unfolding decide_execute validate_for validate_answers answer_agrees
decided = refl

decide_answers_example : All (Found good.answers) request.questions
decide_answers_example =
    decide_answers is_blank freeze model (evidence_text "evidence") (elements question_list) 0 0
      request good 0 built decided

choice_built :
    choice_answer_of is_blank
      (given_string "urgent")
      (given_bool true)
      (elements (
        some (record { value = bool_value false; probability = half })
        ∷ some (record { value = bool_value true; probability = half })
        ∷ []))
      (given_float half)
    ≡ ok choice
unfolding choice_answer_of snapshot unique text number choice_value
choice_built = refl

in_range : AnswerInRange choice
in_range =
    answers_in_range is_blank (given_string "urgent") (given_bool true) (given_float half)
      (elements (
        some (record { value = bool_value false; probability = half })
        ∷ some (record { value = bool_value true; probability = half })
        ∷ []))
      (elements []) choice (inr (inl choice_built))
