-- ===== src/Models/Decisions/Lookup.antt =====
-- The answers of a decision, found by the names of the questions.
use mathlib.Core.Path.{subst}
use purrcept_core.Base.{
  ◌≡◌, refl, ap, ◌∙◌, String, str_eq, eq_iff, Bool, inl, inr, Bool-cases, List, [], ◌∷◌, map, All,
  Result, ok, err, ◌>>◌, bind_ok, ok_with, raise_if-ok,
}
use purrcept_core.Base.Sets.{Equal, ◌∈◌, Distinct, has_repeats, has_repeats_iff, string_equal}
use purrcept_core.Runtime.Exceptions.{Obj}
use purrcept_core.Models.Decisions.{
  DecisionError, DecisionQuestion, question_name, DecisionAnswer, answer_name, DecisionRequest,
  DecisionResponse, DecisionModel, find_answer, validate_for, BackendReply, responded,
  responded_other, backend_raised, checked_reply, decide_execute, value_error,
}
use purrcept_core.Models.Decisions.Checks.{Given, Evidence, evidence, snapshot, unique, request_of}
use purrcept_core.Models.Decisions.Agreement.{Agrees, Fits, validate_for_iff}

-- The name finds an answer of that name that fits the question.
pub record Found (answers : List DecisionAnswer) (q : DecisionQuestion) : Type 0 where
  pub answered : DecisionAnswer
  pub found : find_answer (question_name q) answers ≡ ok answered
  pub named : answer_name answered ≡ question_name q
  pub fits : Fits q answered

find_answer-hit :
    (name : String) (a : DecisionAnswer) (answers : List DecisionAnswer)
    → answer_name a ≡ name
    → find_answer name (a ∷ answers) ≡ ok a
unfolding find_answer
find_answer-hit name a answers e = rw ((eq_iff (answer_name a) name).1 e) refl

find_answer-miss :
    (name : String) (a : DecisionAnswer) (answers : List DecisionAnswer)
    → ¬ (answer_name a ≡ name)
    → find_answer name (a ∷ answers) ≡ find_answer name answers
unfolding find_answer
find_answer-miss name a answers ne = elim (Bool-cases (str_eq (answer_name a) name)) [
  | inl b ↦ absurd (ne ((eq_iff (answer_name a) name).0 b))
  | inr b ↦ rw (b) refl
]

still_found :
    (a : DecisionAnswer) (answers : List DecisionAnswer) (qs : List DecisionQuestion)
    → ¬ (answer_name a ∈ map question_name qs)
    → All (Found answers) qs
    → All (Found (a ∷ answers)) qs
still_found a answers [] new h = tt
still_found a answers (q ∷ qs) new (first, later) = (
  record {
    answered = first.answered;
    found = find_answer-miss (question_name q) a answers (λ e. new (inl e)) ∙ first.found;
    named = first.named;
    fits = first.fits;
  },
  still_found a answers qs (λ m. new (inr m)) later,
)

Agrees-Found :
    (qs : List DecisionQuestion) (answers : List DecisionAnswer)
    → Distinct (map question_name qs)
    → Agrees qs answers
    → All (Found answers) qs
Agrees-Found [] [] d h = tt
Agrees-Found [] (a ∷ answers) d h = absurd h
Agrees-Found (q ∷ qs) [] d h = absurd h
Agrees-Found (q ∷ qs) (a ∷ answers) (new, d) ((e, fit), rest) = (
  record {
    answered = a;
    found = find_answer-hit (question_name q) a answers e;
    named = e;
    fits = fit;
  },
  still_found a answers qs (λ m. new (subst (λ (n : String). n ∈ map question_name qs) e m))
      (Agrees-Found qs answers d rest),
)

pub unique-Distinct : {A : Type 0} ⦃e : Equal A⦄ (xs : List A) → unique xs ≡ ok tt → Distinct xs
unfolding unique
unique-Distinct xs h = (has_repeats_iff xs).0 (raise_if-ok (has_repeats xs) value_error h)

abbrev pub questions_in : Result DecisionError DecisionRequest → List DecisionQuestion
questions_in (ok request) = request.questions
questions_in (err e) = []

checked_reply-ok :
    (reply : BackendReply) (request : DecisionRequest) (response : DecisionResponse)
    → checked_reply reply request ≡ ok response
    → validate_for response request ≡ ok tt
checked_reply-ok (responded r) request response h =
    let checked = bind_ok (validate_for r request) (λ _. ok r) response h in
    ok_with (λ x. validate_for x request ≡ ok tt) r response (ok r) refl checked.then checked.first
checked_reply-ok responded_other request response h = absurd (cc)
checked_reply-ok (backend_raised e) request response h = absurd (cc)

module _ (is_blank : String → Bool) (freeze : Obj → Result DecisionError Obj) where
  request_of-Distinct :
      (input : Evidence) (questions : Given DecisionQuestion) (metadata options : Obj)
      (request : DecisionRequest)
      → request_of is_blank freeze input questions metadata options ≡ ok request
      → Distinct (map question_name request.questions)
  unfolding request_of
  request_of-Distinct input questions metadata options request h =
      let read = bind_ok (evidence is_blank input) _ request h in
      let listed = bind_ok (snapshot questions) _ request read.then in
      let frozen =
        bind_ok (unique (map question_name listed.value) >> freeze metadata) _ request
          listed.then in
      let hinted = bind_ok (freeze options) _ request frozen.then in
      let checked =
        bind_ok (unique (map question_name listed.value)) (λ _. freeze metadata) frozen.value
          frozen.first in
      subst (λ qs. Distinct (map question_name qs)) (ap questions_in hinted.then)
        (unique-Distinct (map question_name listed.value) checked.first)

  -- When a decision on a constructed request succeeds, `answer` finds for each of its questions, under
  -- the question's name, an answer of that name which is a refusal or fits the question.
  pub decide_answers :
      {W : Type 0} (model : DecisionModel W) (input : Evidence) (questions : Given DecisionQuestion)
      (metadata options : Obj) (request : DecisionRequest) (response : DecisionResponse) (w : W)
      → request_of is_blank freeze input questions metadata options ≡ ok request
      → (decide_execute model request w).0 ≡ ok response
      → All (Found response.answers) request.questions
  unfolding decide_execute
  decide_answers model input questions metadata options request response w built h =
      Agrees-Found request.questions response.answers
        (request_of-Distinct input questions metadata options request built)
        ((validate_for_iff response request).0
          (checked_reply-ok (model.decide request model.name w).0 request response h))
