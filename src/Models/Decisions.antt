-- ===== src/Models/Decisions.antt =====
-- decisions/: typed questions over shared evidence, the answers of a backend, and their agreement.
mod Values
pub mod Checks
pub mod Agreement
pub mod Lookup
pub mod Constructed
pub mod Tests
pub use Values.*
use purrcept_core.Base.{
  ℕ, suc, ◌+◌, ◌-◌, String, str_eq, Bool, true, false, not, ◌&&◌, ◌||◌, Option, none, some, List,
  [], ◌∷◌, map, Result, ok, err, ◌>>◌, ◌>>=◌, raise_if, length, if◌then◌else◌, ⊤,
}
use purrcept_core.Base.Int.{pos, ◌-ℤ◌}
use purrcept_core.Base.Float.{is_above}
use purrcept_core.Base.Sets.{Equal, is_member, same_set, string_equal}
use purrcept_core.Runtime.Exceptions.{Obj, Exc}

-- `tuple(a) != tuple(b)` of names, negated.
abbrev pub same_names : List String → List String → Bool
same_names [] [] = true
same_names (a ∷ xs) (b ∷ ys) = str_eq a b && same_names xs ys
same_names _ _ = false

-- `enumerate(question.levels)`, from `i` on.
abbrev pub enumerate_from : ℕ → List ScoreLevel → List (ℕ × String)
enumerate_from i [] = []
enumerate_from i (level ∷ levels) = (i, level.label) ∷ enumerate_from (suc i) levels

-- The pairs of a value and its type: the value of a choice is a string or a Boolean itself,
-- and of no subclass, so a value shows its type.
abbrev pub choice_agrees : ChoiceQuestion → ChoiceAnswer → Bool
choice_agrees q a =
    let expected = map (λ c. c.value) q.choices in
    same_set (map (λ p. p.value) a.probabilities) expected && is_member a.choice expected

abbrev pub score_agrees : ScoreQuestion → ScoreAnswer → Bool
score_agrees q a =
    same_set (map (λ p. (p.index, p.label)) a.probabilities) (enumerate_from 0 q.levels)
    && not (is_above (pos (length q.levels) -ℤ pos 1) a.score)

-- The body of the loop of `validate_for`.
unfoldable pub answer_agrees : DecisionQuestion → DecisionAnswer → Bool
answer_agrees q (refusal name) = true
answer_agrees (predicate_question q) (predicate_answer a) = true
answer_agrees (choice_question q) (choice_answer a) = choice_agrees q a
answer_agrees (score_question q) (score_answer a) = score_agrees q a
answer_agrees _ _ = false

-- The loop of `validate_for`: `zip` is strict, which the check of the names makes true.
unfoldable pub validate_answers :
    List DecisionQuestion → List DecisionAnswer → Result DecisionError ⊤
validate_answers [] [] = ok tt
validate_answers (q ∷ qs) (a ∷ answers) =
    let rest = validate_answers qs answers in if answer_agrees q a then rest else err response_error
validate_answers _ _ = err value_error

-- `DecisionResponse.validate_for`
unfoldable pub validate_for : DecisionResponse → DecisionRequest → Result DecisionError ⊤
validate_for response request =
    let checked = validate_answers request.questions response.answers in
    if same_names (map answer_name response.answers) (map question_name request.questions)
    then checked
    else err response_error

-- `DecisionResponse.answer`
unfoldable pub find_answer : String → List DecisionAnswer → Result DecisionError DecisionAnswer
find_answer name [] = err (key_error name)
find_answer name (a ∷ answers) =
    let rest = find_answer name answers in if str_eq (answer_name a) name then ok a else rest

abbrev pub answer : DecisionResponse → String → Result DecisionError DecisionAnswer
answer response name = find_answer name response.answers

-- What a backend gives: a response, a value of another type, or an error.
pub data BackendReply : Type 0 where
  responded : DecisionResponse → BackendReply
  responded_other : BackendReply
  backend_raised : Exc → BackendReply

-- `DecisionModel`, over the world `W` of its backend.
pub record DecisionModel (W : Type 0) : Type 0 where
  pub name : String
  pub decide : DecisionRequest → String → W → BackendReply × W

abbrev pub checked_reply : BackendReply → DecisionRequest → Result DecisionError DecisionResponse
checked_reply (backend_raised e) request = err (raised e)
checked_reply responded_other request = err response_error
checked_reply (responded response) request = validate_for response request >> ok response

-- `Decide.execute`
unfoldable pub decide_execute :
    {W : Type 0} → DecisionModel W → DecisionRequest → W → Result DecisionError DecisionResponse × W
decide_execute model request w =
    let (reply, w') = model.decide request model.name w in (checked_reply reply request, w')
