-- ===== src/Models/Decisions/Checks.antt =====
-- decisions/_validation.py, and the constructors of decisions/requests.py and responses.py. Their
-- arguments are Python values; `is_blank` says whether `strip` leaves nothing of a string.
use purrcept_core.Base.{
  ℕ, String, Bool, false, not, ◌||◌, Option, none, some, List, [], ◌∷◌, map, Result, ok, err, ◌>>◌,
  ◌>>=◌, raise_if, length, ltb, leb, ◌+◌, ◌-◌, ⊤,
}
use purrcept_core.Base.Int.{ℤ, pos, pos_part, neg_part}
use Prim.Native.Nat.{◌^◌}
use purrcept_core.Base.Float.{Float, finite, is_finite, is_negative, is_above}
use purrcept_core.Base.Sets.{Equal, has_repeats, string_equal, nat_equal}
use purrcept_core.Runtime.Exceptions.{Obj}
use purrcept_core.Models.Decisions.{
  DecisionError, type_error, value_error, overflow_error, ChoiceValue, string_value, bool_value,
  choice_equal, ChoiceOption, ScoreLevel, DecisionQuestion, predicate_question, choice_question,
  score_question, ChoiceProbability, ScoreProbability, DecisionAnswer, predicate_answer,
  choice_answer, score_answer, refusal, DecisionInput, input_text, input_blocks, DecisionRequest,
  DecisionResponse, question_name, answer_name,
}

-- A value that a constructor is given. An int and a float are told apart.
pub data Value : Type 0 where
  given_string : String → Value
  given_bool : Bool → Value
  given_int : ℤ → Value
  given_float : Float → Value
  given_other : Value

-- A container: its elements, `none` for one of a type that is not allowed; an error in place of them
-- where iterating raises; or a value that is a string or no iterable.
pub data Given (A : Type 0) : Type 0 where
  elements : List (Option A) → Given A
  iteration_raises : DecisionError → Given A
  not_iterable : Given A

abbrev pub all_given : {A : Type 0} → List (Option A) → Result DecisionError (List A)
all_given [] = ok []
all_given (none ∷ items) = err type_error
all_given (some a ∷ items) = all_given items >>= λ rest. ok (a ∷ rest)

-- `snapshot`
unfoldable pub snapshot : {A : Type 0} → Given A → Result DecisionError (List A)
snapshot not_iterable = err type_error
snapshot (iteration_raises e) = err e
snapshot (elements []) = err value_error
snapshot (elements (item ∷ items)) = all_given (item ∷ items)

-- `unique`
unfoldable pub unique : {A : Type 0} ⦃e : Equal A⦄ → List A → Result DecisionError ⊤
unique items = raise_if (has_repeats items) value_error

-- `choice_value`
unfoldable pub choice_value : Value → Result DecisionError ChoiceValue
choice_value (given_string s) = ok (string_value s)
choice_value (given_bool b) = ok (bool_value b)
choice_value _ = err type_error

abbrev pub above_limit : Option ℕ → Float → Bool
above_limit none x = false
above_limit (some upper) x = is_above (pos upper) x

abbrev pub in_range : Option ℕ → Float → Result DecisionError Float
in_range upper x =
    raise_if (not (is_finite x) || is_negative x || above_limit upper x) value_error >> ok x

-- Whether the conversion of an int to a float, by `math.isfinite`, raises `OverflowError`.
unfoldable pub overflows : ℤ → Bool
overflows n = leb (2 ^ 1024 - 2 ^ 970) (pos_part n + neg_part n)

-- `number`
unfoldable pub number : Value → Option ℕ → Result DecisionError Float
number (given_int n) upper = raise_if (overflows n) overflow_error >> in_range upper (finite n 0)
number (given_float x) upper = in_range upper x
number _ upper = err type_error

-- The check of `ScoreProbability.index`.
unfoldable pub score_index : Value → Result DecisionError ℕ
score_index (given_int (pos n)) = ok n
score_index _ = err value_error

abbrev pub usage_or : Option (Option Obj) → Result DecisionError (Option Obj)
usage_or none = ok none
usage_or (some none) = err type_error
usage_or (some (some usage)) = ok (some usage)

-- What `DecisionRequest` is given as its input: a string, or blocks.
pub data Evidence : Type 0 where
  evidence_text : String → Evidence
  evidence_blocks : Given Obj → Evidence

module _ (is_blank : String → Bool) where
  -- `text`
  unfoldable pub text : Value → Result DecisionError String
  text (given_string s) = raise_if (is_blank s) value_error >> ok s
  text _ = err type_error

  -- `optional_text`
  unfoldable pub optional_text : Option Value → Result DecisionError (Option String)
  optional_text none = ok none
  optional_text (some value) = text value >>= λ s. ok (some s)

  unfoldable pub choice_option : Value → Option Value → Result DecisionError ChoiceOption
  choice_option value description = choice_value value >>= λ v.
      optional_text description >>= λ d. ok (record { value = v; description = d })

  unfoldable pub score_level : Value → Option Value → Result DecisionError ScoreLevel
  score_level label description = text label >>= λ l.
      optional_text description >>= λ d. ok (record { label = l; description = d })

  unfoldable pub predicate_question_of : Value → Value → Result DecisionError DecisionQuestion
  predicate_question_of name instructions = text name >>= λ n.
      text instructions >>= λ i. ok (predicate_question (record { name = n; instructions = i }))

  unfoldable pub choice_question_of :
      Value → Value → Given ChoiceOption → Result DecisionError DecisionQuestion
  choice_question_of name instructions choices = text name >>= λ n. text instructions >>= λ i.
      snapshot choices >>= λ cs.
      raise_if (ltb (length cs) 2) value_error
      >> unique (map (λ c. c.value) cs)
      >> ok (choice_question (record { name = n; instructions = i; choices = cs }))

  unfoldable pub score_question_of :
      Value → Value → Given ScoreLevel → Result DecisionError DecisionQuestion
  score_question_of name instructions levels = text name >>= λ n. text instructions >>= λ i.
      snapshot levels >>= λ ls.
      raise_if (ltb (length ls) 2) value_error
      >> ok (score_question (record { name = n; instructions = i; levels = ls }))

  unfoldable pub choice_probability : Value → Value → Result DecisionError ChoiceProbability
  choice_probability value probability = choice_value value >>= λ v.
      number probability (some 1) >>= λ p. ok (record { value = v; probability = p })

  unfoldable pub score_probability : Value → Value → Value → Result DecisionError ScoreProbability
  score_probability index label probability = score_index index >>= λ i. text label >>= λ l.
      number probability (some 1) >>= λ p. ok (record { index = i; label = l; probability = p })

  unfoldable pub predicate_answer_of : Value → Value → Result DecisionError DecisionAnswer
  predicate_answer_of name probability = text name >>= λ n. number probability (some 1) >>= λ p.
      ok (predicate_answer (record { name = n; probability = p }))

  unfoldable pub choice_answer_of :
      Value → Value → Given ChoiceProbability → Value → Result DecisionError DecisionAnswer
  choice_answer_of name choice probabilities confidence = text name >>= λ n.
      choice_value choice >>= λ c. number confidence (some 1) >>= λ x.
      snapshot probabilities >>= λ ps.
      unique (map (λ p. p.value) ps)
      >> ok (choice_answer (record { name = n; choice = c; probabilities = ps; confidence = x }))

  unfoldable pub score_answer_of :
      Value → Value → Given ScoreProbability → Value → Result DecisionError DecisionAnswer
  score_answer_of name score probabilities confidence = text name >>= λ n.
      number score none >>= λ s. number confidence (some 1) >>= λ x.
      snapshot probabilities >>= λ ps.
      unique (map (λ p. p.index) ps)
      >> ok (score_answer (record { name = n; score = s; probabilities = ps; confidence = x }))

  unfoldable pub refusal_of : Value → Result DecisionError DecisionAnswer
  refusal_of name = text name >>= λ n. ok (refusal n)

  abbrev pub evidence : Evidence → Result DecisionError DecisionInput
  evidence (evidence_text value) = text (given_string value) >>= λ s. ok (input_text s)
  evidence (evidence_blocks blocks) = snapshot blocks >>= λ bs. ok (input_blocks bs)

  -- `DecisionRequest`; `freeze` is `freeze_json_object`.
  unfoldable pub request_of :
      (Obj → Result DecisionError Obj)
      → Evidence
      → Given DecisionQuestion
      → (metadata provider_options : Obj) → Result DecisionError DecisionRequest
  request_of freeze input questions metadata provider_options = evidence input >>= λ i.
      snapshot questions >>= λ qs. unique (map question_name qs) >> freeze metadata >>= λ m.
      freeze provider_options >>= λ o.
      ok (record { input = i; questions = qs; metadata = m; provider_options = o })

  -- `DecisionResponse`; a usage is given as `none` where it is no `TokenUsage`.
  unfoldable pub response_of :
      (Obj → Result DecisionError Obj)
      → Given DecisionAnswer
      → Option (Option Obj)
      → Option Value
      → Obj
      → Result DecisionError DecisionResponse
  response_of freeze answers usage model provider_metadata = snapshot answers >>= λ given.
      unique (map answer_name given) >> usage_or usage >>= λ u. optional_text model >>= λ m.
      freeze provider_metadata >>= λ p.
      ok (record { answers = given; usage = u; model = m; provider_metadata = p })
