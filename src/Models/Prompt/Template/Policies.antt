-- ===== src/Models/Prompt/Template/Policies.antt =====
-- prompt/policies.py: the transforms of a field's value, and prompt/errors.py.
use Prim.Native.String.{◌++◌ as ◌+++◌}
use purrcept_core.Base.{
  ℕ, String, str_eq, Bool, true, false, List, [], ◌∷◌, Result, ok, err, ◌>>=◌, ltb, ◌==◌,
  if◌then◌else◌,
}
use purrcept_core.Runtime.Exceptions.{Obj, Exc}

-- A bound value: `None`, a text, a list or a tuple, another collection with its size, or an object.
mutual
  pub data PromptValue : Type 0 where
    none_value : PromptValue
    text_value : String → PromptValue
    list_value : PromptValues → PromptValue
    sized_value : Obj → ℕ → PromptValue
    plain_value : Obj → PromptValue

  pub data PromptValues : Type 0 where
    no_values : PromptValues
    one_value : PromptValue → PromptValues → PromptValues

-- `definition_error` is `PromptDefinitionError`; `missing`, `unknown_values` and `policy_failed` are
-- `PromptRenderError`; `prompt_raised` is an error of the application that is no `Exception`.
pub data PromptError : Type 0 where
  prompt_type_error prompt_value_error definition_error unknown_values : PromptError
  missing : List String → PromptError
  policy_failed : String → PromptError
  prompt_raised : Exc → PromptError

pub data PolicyError : Type 0 where
  policy_type_error : PolicyError
  policy_raised : Exc → PolicyError

-- What a transform gives: a text, another value, or an error.
pub data Transformed : Type 0 where
  transformed : String → Transformed
  transformed_other : Transformed
  transform_fails : PolicyError → Transformed

pub record RenderPolicy : Type 0 where
  pub transform : PromptValue → Transformed

-- Python's texts: `strip`, the length, and `str`, which may raise.
pub record Str : Type 0 where
  pub strip : String → String
  pub len : String → ℕ
  pub str : PromptValue → Result Exc String

abbrev string_or_error : Transformed → Result PolicyError String
string_or_error (transformed s) = ok s
string_or_error transformed_other = err policy_type_error
string_or_error (transform_fails e) = err e

-- `RenderPolicy.__call__`
unfoldable pub call_policy : RenderPolicy → PromptValue → Result PolicyError String
call_policy p v = string_or_error (p.transform v)

abbrev of_result : Result PolicyError String → Transformed
of_result (ok s) = transformed s
of_result (err e) = transform_fails e

-- `RenderPolicy.then`
unfoldable pub then_policy : RenderPolicy → RenderPolicy → RenderPolicy
then_policy p q = record {
  transform = λ v. of_result (call_policy p v >>= λ s. call_policy q (text_value s));
}

abbrev no_values_in : PromptValues → Bool
no_values_in no_values = true
no_values_in (one_value v vs) = false

module _ (python : Str) where
  abbrev blank : String → Bool
  blank s = str_eq (python.strip s) ""

  -- `is_effectively_empty`
  unfoldable pub is_effectively_empty : PromptValue → Bool
  is_effectively_empty none_value = true
  is_effectively_empty (text_value s) = blank s
  is_effectively_empty (list_value vs) = no_values_in vs
  is_effectively_empty (sized_value o n) = n == 0
  is_effectively_empty (plain_value o) = false

  -- `str(value)`
  abbrev pub to_str : PromptValue → Result Exc String
  to_str (text_value s) = ok s
  to_str v = python.str v

  abbrev with_text : (String → String) → Result Exc String → Transformed
  with_text f (ok s) = transformed (f s)
  with_text f (err e) = transform_fails (policy_raised e)

  abbrev unless_empty : Bool → String → Transformed → Transformed
  unless_empty true empty t = transformed empty
  unless_empty false empty t = t

  -- The factories of policies, by their names.
  unfoldable pub optional : String → RenderPolicy
  optional empty = record {
    transform = λ v. unless_empty (is_effectively_empty v) empty (with_text (λ s. s) (to_str v));
  }

  abbrev trimmed : PromptValue → Transformed
  trimmed none_value = transformed ""
  trimmed v = with_text python.strip (to_str v)

  unfoldable pub trim : RenderPolicy
  trim = record { transform = trimmed }

  abbrev unless_blank : (String → String) → String → String
  unless_blank f s = if blank s then "" else f s

  unfoldable pub header : String → String → RenderPolicy
  header title separator = record {
    transform = λ v.
        unless_empty (is_effectively_empty v) ""
          (with_text (unless_blank (λ s. title +++ (separator +++ s))) (to_str v));
  }

  unfoldable pub wrap : String → String → RenderPolicy
  wrap prefix suffix = record {
    transform = λ v.
        unless_empty (is_effectively_empty v) ""
          (with_text (unless_blank (λ s. prefix +++ (s +++ suffix))) (to_str v));
  }

  abbrev add_block : String → Result Exc (List String) → Result Exc (List String)
  add_block s (ok blocks) = ok (if str_eq s "" then blocks else s ∷ blocks)
  add_block s (err e) = err e

  -- The retained blocks of a list, in order.
  unfoldable pub block_texts : PromptValues → Result Exc (List String)
  block_texts no_values = ok []
  block_texts (one_value v vs) = elim (is_effectively_empty v) [
    | true ↦ block_texts vs
    | false ↦ to_str v >>= λ s. add_block (python.strip s) (block_texts vs)
  ]

  abbrev pub join : String → List String → String
  join separator [] = ""
  join separator (s ∷ []) = s
  join separator (s ∷ t ∷ rest) = s +++ (separator +++ join separator (t ∷ rest))

  abbrev joined : String → Result Exc (List String) → Transformed
  joined separator (ok blocks) = transformed (join separator blocks)
  joined separator (err e) = transform_fails (policy_raised e)

  abbrev join_value : String → PromptValue → Transformed
  join_value separator (list_value vs) = joined separator (block_texts vs)
  join_value separator v = with_text (λ s. s) (to_str v)

  unfoldable pub join_blocks : String → RenderPolicy
  join_blocks separator = record {
    transform = λ v. unless_empty (is_effectively_empty v) "" (join_value separator v);
  }

  abbrev long_enough : ℕ → PromptValue → Transformed
  long_enough length none_value = transformed ""
  long_enough length v =
      with_text (λ s. if ltb (python.len (python.strip s)) length then "" else s) (to_str v)

  unfoldable pub min_len : ℕ → RenderPolicy
  min_len length = record { transform = long_enough length }
