-- ===== src/Models/Decisions/Values.antt =====
-- decisions/requests.py, responses.py and _validation.py: the values and the checks of their
-- constructors. `is_blank` says whether `strip` leaves nothing of a string.
use purrcept_core.Base.{
  ℕ, ◌≡◌, refl, ap, ◌∙◌, ◌↔◌, String, str_eq, eq_iff, Bool, true, false, not, ◌&&◌, Option, List,
}
use purrcept_core.Base.Float.{Float}
use purrcept_core.Base.Sets.{Equal, string_equal, nat_equal, both_true, true_both}
use purrcept_core.Runtime.Exceptions.{Obj, Exc}

-- `response_error` is `DecisionResponseError`; `raised` is an error of the backend.
pub data DecisionError : Type 0 where
  type_error value_error overflow_error response_error : DecisionError
  key_error : String → DecisionError
  raised : Exc → DecisionError

-- A categorical value; a string and a boolean are never the same.
pub data ChoiceValue : Type 0 where
  string_value : String → ChoiceValue
  bool_value : Bool → ChoiceValue

abbrev pub same_bool : Bool → Bool → Bool
same_bool true b = b
same_bool false b = not b

abbrev pub same_choice : ChoiceValue → ChoiceValue → Bool
same_choice (string_value a) (string_value b) = str_eq a b
same_choice (bool_value a) (bool_value b) = same_bool a b
same_choice _ _ = false

pub same_choice_iff : (a b : ChoiceValue) → (same_choice a b ≡ true) ↔ (a ≡ b)
same_choice_iff (string_value a) (string_value b) =
    (λ h. ap string_value ((eq_iff a b).0 h), λ h. (eq_iff a b).1 (cc))
same_choice_iff (bool_value true) (bool_value true) = (λ h. refl, λ h. refl)
same_choice_iff (bool_value true) (bool_value false) = (λ h. absurd (cc), λ h. absurd (cc))
same_choice_iff (bool_value false) (bool_value true) = (λ h. absurd (cc), λ h. absurd (cc))
same_choice_iff (bool_value false) (bool_value false) = (λ h. refl, λ h. refl)
same_choice_iff (string_value a) (bool_value b) = (λ h. absurd (cc), λ h. absurd (cc))
same_choice_iff (bool_value a) (string_value b) = (λ h. absurd (cc), λ h. absurd (cc))

instance abbrev pub choice_equal : Equal ChoiceValue
choice_equal = record { same = same_choice; same_iff = same_choice_iff }

abbrev pub same_level : ℕ × String → ℕ × String → Bool
same_level (i, a) (j, b) = nat_equal.same i j && str_eq a b

pub same_level_iff : (a b : ℕ × String) → (same_level a b ≡ true) ↔ (a ≡ b)
same_level_iff (i, a) (j, b) = (
  λ h.
      ap (λ (n : ℕ). (n, a)) ((nat_equal.same_iff i j).0 (both_true h).0)
      ∙ ap (λ (s : String). (j, s)) ((eq_iff a b).0 (both_true h).1),
  λ h. true_both ((nat_equal.same_iff i j).1 (ap (λ p. p.0) h)) ((eq_iff a b).1 (ap (λ p. p.1) h)),
)

instance abbrev pub level_equal : Equal (ℕ × String)
level_equal = record { same = same_level; same_iff = same_level_iff }

pub record ChoiceOption : Type 0 where
  pub value : ChoiceValue
  pub description : Option String

pub record ScoreLevel : Type 0 where
  pub label : String
  pub description : Option String

pub record PredicateQuestion : Type 0 where
  pub name : String
  pub instructions : String

pub record ChoiceQuestion : Type 0 where
  pub name : String
  pub instructions : String
  pub choices : List ChoiceOption

pub record ScoreQuestion : Type 0 where
  pub name : String
  pub instructions : String
  pub levels : List ScoreLevel

pub data DecisionQuestion : Type 0 where
  predicate_question : PredicateQuestion → DecisionQuestion
  choice_question : ChoiceQuestion → DecisionQuestion
  score_question : ScoreQuestion → DecisionQuestion

abbrev pub question_name : DecisionQuestion → String
question_name (predicate_question q) = q.name
question_name (choice_question q) = q.name
question_name (score_question q) = q.name

-- The text and image blocks are only passed on.
pub data DecisionInput : Type 0 where
  input_text : String → DecisionInput
  input_blocks : List Obj → DecisionInput

pub record DecisionRequest : Type 0 where
  pub input : DecisionInput
  pub questions : List DecisionQuestion
  pub metadata : Obj
  pub provider_options : Obj

pub record ChoiceProbability : Type 0 where
  pub value : ChoiceValue
  pub probability : Float

pub record ScoreProbability : Type 0 where
  pub index : ℕ
  pub label : String
  pub probability : Float

pub record PredicateAnswer : Type 0 where
  pub name : String
  pub probability : Float

pub record ChoiceAnswer : Type 0 where
  pub name : String
  pub choice : ChoiceValue
  pub probabilities : List ChoiceProbability
  pub confidence : Float

pub record ScoreAnswer : Type 0 where
  pub name : String
  pub score : Float
  pub probabilities : List ScoreProbability
  pub confidence : Float

pub data DecisionAnswer : Type 0 where
  predicate_answer : PredicateAnswer → DecisionAnswer
  choice_answer : ChoiceAnswer → DecisionAnswer
  score_answer : ScoreAnswer → DecisionAnswer
  refusal : String → DecisionAnswer

abbrev pub answer_name : DecisionAnswer → String
answer_name (predicate_answer a) = a.name
answer_name (choice_answer a) = a.name
answer_name (score_answer a) = a.name
answer_name (refusal name) = name

pub record DecisionResponse : Type 0 where
  pub answers : List DecisionAnswer
  pub usage : Option Obj
  pub model : Option String
  pub provider_metadata : Obj
