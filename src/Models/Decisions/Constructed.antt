-- ===== src/Models/Decisions/Constructed.antt =====
-- What the constructors of questions and answers make sure of.

use purrcept_core.Base.{
  ℕ, ◌⊎◌, ◌≤◌, String, Bool, true, false, not, ◌||◌, suc, ap, arith, ◌≡◌, refl, inl, inr, Option,
  none, some, List, [], ◌∷◌, map, length, ok, bind_ok, ok_with, raise_if, raise_if-ok,
}
use purrcept_core.Base.Float.{Float, finite, is_finite, is_negative}
use purrcept_core.Base.Sets.{Distinct, nat_equal}
use purrcept_core.Models.Decisions.{
  value_error, overflow_error, ChoiceProbability, ScoreProbability, DecisionAnswer,
  predicate_answer, choice_answer, score_answer, refusal, choice_equal,
}
use purrcept_core.Models.Decisions.Checks.{
  Value, given_string, given_bool, given_int, given_float, given_other, Given, elements,
  iteration_raises, not_iterable, above_limit, in_range, all_given, overflows, number, snapshot,
  unique, text, choice_value, predicate_answer_of, choice_answer_of, score_answer_of,
}
use purrcept_core.Models.Decisions.Lookup.{unique-Distinct}

-- A finite number, at least zero, and at most the limit where there is one.
pub record InRange (upper : Option ℕ) (x : Float) : Type 0 where
  pub is_number : is_finite x ≡ true
  pub not_below : is_negative x ≡ false
  pub not_above : above_limit upper x ≡ false

none_of : (a b c : Bool) → not a || b || c ≡ false → (a ≡ true) × (b ≡ false) × (c ≡ false)
none_of true false false h = (refl, refl, refl)
none_of true false true h = absurd (cc)
none_of true true c h = absurd (cc)
none_of false b c h = absurd (cc)

in_range_lem : (upper : Option ℕ) (x y : Float) → in_range upper x ≡ ok y → InRange upper y
in_range_lem upper x y h =
    let bad = not (is_finite x) || is_negative x || above_limit upper x in
    let checked = bind_ok (raise_if bad value_error) (λ _. ok x) y h in
    let (finite_x, positive, low) =
      none_of (is_finite x) (is_negative x) (above_limit upper x)
        (raise_if-ok bad value_error checked.first) in
    ok_with (InRange upper) x y (ok x) refl checked.then
      (record { is_number = finite_x; not_below = positive; not_above = low })

number-InRange :
    (value : Value) (upper : Option ℕ) (x : Float) → number value upper ≡ ok x → InRange upper x
unfolding number
number-InRange (given_int n) upper x h =
    let checked =
      bind_ok (raise_if (overflows n) overflow_error) (λ _. in_range upper (finite n 0)) x h in
    in_range_lem upper (finite n 0) x checked.then
number-InRange (given_float y) upper x h = in_range_lem upper y x h
number-InRange (given_string s) upper x h = absurd (cc)
number-InRange (given_bool b) upper x h = absurd (cc)
number-InRange given_other upper x h = absurd (cc)

all_given-length :
    {A : Type 0} (items : List (Option A)) (xs : List A)
    → all_given items ≡ ok xs
    → length xs ≡ length items
all_given-length [] xs h = ok_with (λ ys. length ys ≡ 0) [] xs (ok []) refl h refl
all_given-length (none ∷ items) xs h = absurd (cc)
all_given-length (some a ∷ items) xs h =
    let rest = bind_ok (all_given items) (λ ys. ok (a ∷ ys)) xs h in
    ok_with (λ ys. length ys ≡ suc (length items)) (a ∷ rest.value) xs (ok (a ∷ rest.value)) refl
      rest.then (ap suc (all_given-length items rest.value rest.first))

snapshot-nonempty :
    {A : Type 0} (given : Given A) (xs : List A) → snapshot given ≡ ok xs → 1 ≤ length xs
unfolding snapshot
snapshot-nonempty (elements []) xs h = absurd (cc)
snapshot-nonempty (elements (item ∷ items)) xs h =
    let same = all_given-length (item ∷ items) xs h in omega arith
snapshot-nonempty (iteration_raises e) xs h = absurd (cc)
snapshot-nonempty not_iterable xs h = absurd (cc)

-- The probability, the confidence and the score are in their ranges; a distribution is not empty, and
-- names no value and no position twice.
pub record Distribution {A : Type 0} (confidence : Float) (keys : List A) : Type 0 where
  pub sure : InRange (some 1) confidence
  pub some_key : 1 ≤ length keys
  pub no_repeats : Distinct keys

abbrev pub AnswerInRange : DecisionAnswer → Type 0
AnswerInRange (predicate_answer a) = InRange (some 1) a.probability
AnswerInRange (choice_answer a) = Distribution a.confidence (map (λ p. p.value) a.probabilities)
AnswerInRange (score_answer a) =
    InRange none a.score × Distribution a.confidence (map (λ p. p.index) a.probabilities)
AnswerInRange (refusal name) = Unit

length-map : {A B : Type 0} (f : A → B) (xs : List A) → length (map f xs) ≡ length xs
length-map f [] = refl
length-map f (x ∷ xs) = ap suc (length-map f xs)

module _ (is_blank : String → Bool) where
  predicate_answer_lem :
      (name probability : Value) (a : DecisionAnswer)
      → predicate_answer_of is_blank name probability ≡ ok a
      → AnswerInRange a
  unfolding predicate_answer_of
  predicate_answer_lem name probability a h =
      let named = bind_ok (text is_blank name) _ a h in
      let counted = bind_ok (number probability (some 1)) _ a named.then in
      ok_with AnswerInRange _ a _ refl counted.then
        (number-InRange probability (some 1) counted.value counted.first)

  choice_answer_lem :
      (name choice : Value) (probabilities : Given ChoiceProbability) (confidence : Value)
      (a : DecisionAnswer)
      → choice_answer_of is_blank name choice probabilities confidence ≡ ok a
      → AnswerInRange a
  unfolding choice_answer_of
  choice_answer_lem name choice probabilities confidence a h =
      let named = bind_ok (text is_blank name) _ a h in
      let chosen = bind_ok (choice_value choice) _ a named.then in
      let sure = bind_ok (number confidence (some 1)) _ a chosen.then in
      let listed = bind_ok (snapshot probabilities) _ a sure.then in
      let keys = map (λ (p : ChoiceProbability). p.value) listed.value in
      let checked = bind_ok (unique keys) _ a listed.then in
      let size = length-map (λ (p : ChoiceProbability). p.value) listed.value in
      let filled = snapshot-nonempty probabilities listed.value listed.first in
      ok_with AnswerInRange _ a _ refl checked.then (record {
        sure = number-InRange confidence (some 1) sure.value sure.first;
        some_key = omega arith;
        no_repeats = unique-Distinct keys checked.first;
      })

  score_answer_lem :
      (name score : Value) (probabilities : Given ScoreProbability) (confidence : Value)
      (a : DecisionAnswer)
      → score_answer_of is_blank name score probabilities confidence ≡ ok a
      → AnswerInRange a
  unfolding score_answer_of
  score_answer_lem name score probabilities confidence a h =
      let named = bind_ok (text is_blank name) _ a h in
      let scored = bind_ok (number score none) _ a named.then in
      let sure = bind_ok (number confidence (some 1)) _ a scored.then in
      let listed = bind_ok (snapshot probabilities) _ a sure.then in
      let keys = map (λ (p : ScoreProbability). p.index) listed.value in
      let checked = bind_ok (unique keys) _ a listed.then in
      let size = length-map (λ (p : ScoreProbability). p.index) listed.value in
      let filled = snapshot-nonempty probabilities listed.value listed.first in
      ok_with AnswerInRange _ a _ refl checked.then (
        number-InRange score none scored.value scored.first,
        record {
          sure = number-InRange confidence (some 1) sure.value sure.first;
          some_key = omega arith;
          no_repeats = unique-Distinct keys checked.first;
        },
      )

  -- An answer that is constructed has a probability or a confidence that is a finite number from 0 to
  -- 1, a score that is finite and not negative, and a distribution that is not empty and in which no
  -- value and no position comes twice.
  pub answers_in_range :
      (name value confidence : Value) (choices : Given ChoiceProbability)
      (levels : Given ScoreProbability) (a : DecisionAnswer)
      → (predicate_answer_of is_blank name value ≡ ok a)
        ⊎ ((choice_answer_of is_blank name value choices confidence ≡ ok a)
            ⊎ (score_answer_of is_blank name value levels confidence ≡ ok a))
      → AnswerInRange a
  answers_in_range name value confidence choices levels a (inl h) =
      predicate_answer_lem name value a h
  answers_in_range name value confidence choices levels a (inr (inl h)) =
      choice_answer_lem name value choices confidence a h
  answers_in_range name value confidence choices levels a (inr (inr h)) =
      score_answer_lem name value levels confidence a h
