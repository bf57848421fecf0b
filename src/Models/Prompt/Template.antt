-- ===== src/Models/Prompt/Template.antt =====
-- prompt/template.py: prompt templates, their bindings and their rendering.
mod Policies
mod Parts
pub mod Binding
pub mod Fields
pub mod Complete
pub mod Tests
unfoldable pub use Policies.*
unfoldable pub use Parts.*
use Prim.Native.String.{◌++◌ as ◌+++◌}
use purrcept_core.Base.{
  String, str_eq, Bool, true, false, not, ◌&&◌, ◌||◌, Option, none, some, List, [], ◌∷◌, ◌++◌, map,
  Result, ok, err, ◌>>=◌, ◌>>◌, raise_if, keep_if, any_of, if◌then◌else◌, ⊤,
}
use purrcept_core.Base.Sets.{is_member, string_equal}
use purrcept_core.Runtime.Exceptions.{Exc, is_exception}

-- A dict with string keys, in its order.
abbrev pub Dict : Type 0 → Type 0
Dict A = List (String × A)

-- `PromptTemplate`
pub record PromptTemplate : Type 0 where
  pub name : String
  pub template : String
  pub policies : Dict RenderPolicy
  pub values : Dict PromptValue
  pub parts : List TemplatePart
  pub fields : List String

abbrev pub keys : {A : Type 0} → Dict A → List String
keys d = map (λ p. p.0) d

-- `dict.get`
abbrev pub look_up : {A : Type 0} → String → Dict A → Option A
look_up key [] = none
look_up key ((k, a) ∷ d) = let rest = look_up key d in if str_eq k key then some a else rest

-- `d[key] = a`
abbrev pub set_item : {A : Type 0} → Dict A → String → A → Dict A
set_item [] key a = (key, a) ∷ []
set_item ((k, b) ∷ d) key a =
    let rest = set_item d key a in if str_eq k key then (k, a) ∷ d else (k, b) ∷ rest

-- `dict.update`
abbrev pub update : {A : Type 0} → Dict A → Dict A → Dict A
update d [] = d
update d ((k, a) ∷ more) = update (set_item d k a) more

-- `_require_mapping_key` for the keys of a mapping.
abbrev pub require_keys : List String → Result PromptError ⊤
require_keys [] = ok tt
require_keys (k ∷ ks) = raise_if (str_eq k "") prompt_value_error >> require_keys ks

-- `_reject_unknown_keys`
unfoldable pub reject_unknown_keys : List String → List String → PromptError → Result PromptError ⊤
reject_unknown_keys ks fields e = raise_if (any_of (λ k. not (is_member k fields)) ks) e

-- `PromptTemplate.__post_init__`
unfoldable pub new_template :
    Texts
    → String
    → String
    → Dict RenderPolicy
    → Dict PromptValue
    → Result PromptError PromptTemplate
new_template texts name template policies values =
    raise_if (str_eq name "") prompt_value_error
    >> raise_if (str_eq template "") prompt_value_error
    >> parse_parts texts (texts.parse template) []
    >>= λ parsed.
        require_keys (keys policies)
        >> require_keys (keys values)
        >> reject_unknown_keys (keys policies) parsed.1 definition_error
        >> reject_unknown_keys (keys values) parsed.1 definition_error
        >> ok (record {
          name = name;
          template = template;
          policies = policies;
          values = values;
          parts = parsed.0;
          fields = parsed.1;
        })

abbrev given_values : Option (Dict PromptValue) → Result PromptError (Dict PromptValue)
given_values none = ok []
given_values (some values) = require_keys (keys values) >> ok values

-- `_merge_values`
unfoldable pub merge_values :
    PromptTemplate
    → Option (Dict PromptValue)
    → Dict PromptValue
    → PromptError
    → Result PromptError (Dict PromptValue)
merge_values t values overrides e = given_values values >>= λ given.
    reject_unknown_keys (keys (update (update t.values given) overrides)) t.fields e
    >> ok (update (update t.values given) overrides)

-- `with_values`
unfoldable pub with_values :
    Texts
    → PromptTemplate
    → Option (Dict PromptValue)
    → Dict PromptValue
    → Result PromptError PromptTemplate
with_values texts t values overrides =
    merge_values t values overrides definition_error >>= λ merged.
    new_template texts t.name t.template t.policies merged

abbrev pub remove_keys : List String → Dict PromptValue → Dict PromptValue
remove_keys ks values = keep_if (λ p. not (is_member p.0 ks)) values

-- `without_values`
unfoldable pub without_values :
    Texts → PromptTemplate → List String → Result PromptError PromptTemplate
without_values texts t ks =
    require_keys ks >> new_template texts t.name t.template t.policies (remove_keys ks t.values)

-- `clear_values`
unfoldable pub clear_values : Texts → PromptTemplate → Result PromptError PromptTemplate
clear_values texts t = elim t.values [
  | [] ↦ ok t
  | v ∷ vs ↦ new_template texts t.name t.template t.policies []
]

abbrev pub braces : String → String
braces name = "{" +++ (name +++ "}")

-- `except Exception`: an error of a policy names the field.
abbrev pub policy_result : String → Result PolicyError String → Result PromptError String
policy_result name (ok s) = ok s
policy_result name (err policy_type_error) = err (policy_failed name)
policy_result name (err (policy_raised e)) =
    if is_exception e then err (policy_failed name) else err (prompt_raised e)

abbrev value_or_none : Option PromptValue → PromptValue
value_or_none none = none_value
value_or_none (some v) = v

abbrev policy_or : Option RenderPolicy → RenderPolicy → RenderPolicy
policy_or none p = p
policy_or (some p) q = p

module _ (str : Str) where
  -- The text of a field: what its policy, or `optional()`, makes of its value.
  abbrev pub field_text :
      Dict RenderPolicy → Bool → Option PromptValue → String → Result PromptError String
  field_text policies true none name = ok (braces name)
  field_text policies preserve_missing v name =
      policy_result name
        (call_policy (policy_or (look_up name policies) (optional str "")) (value_or_none v))

  abbrev pub part_text :
      Dict RenderPolicy → Bool → Dict PromptValue → TemplatePart → Result PromptError String
  part_text policies preserve_missing values part = elim part.field_name [
    | none ↦ ok part.literal
    | some name ↦ field_text policies preserve_missing (look_up name values) name >>= λ s.
        ok (part.literal +++ s)
  ]

  -- `_render_parts`
  unfoldable pub render_parts :
      Dict RenderPolicy → Bool → Dict PromptValue → List TemplatePart → Result PromptError String
  render_parts policies preserve_missing values [] = ok ""
  render_parts policies preserve_missing values (part ∷ parts) =
      part_text policies preserve_missing values part >>= λ s.
      render_parts policies preserve_missing values parts >>= λ rest. ok (s +++ rest)

  abbrev pub missing_fields : Dict PromptValue → List String → List String
  missing_fields values fields = keep_if (λ name. not (is_member name (keys values))) fields

  abbrev render_checked : Bool → List String → Result PromptError String → Result PromptError String
  render_checked true (name ∷ names) rendered = err (missing (name ∷ names))
  render_checked strict names rendered = rendered

  -- `render`, which `build` calls.
  unfoldable pub render :
      PromptTemplate
      → Bool
      → Option (Dict PromptValue)
      → Dict PromptValue
      → Result PromptError String
  render t strict values overrides = merge_values t values overrides unknown_values >>= λ effective.
      render_checked strict (missing_fields effective t.fields)
        (render_parts t.policies false effective t.parts)

  -- `render_partial`, which `build_partial` calls.
  unfoldable pub render_partial :
      PromptTemplate → Option (Dict PromptValue) → Dict PromptValue → Result PromptError String
  render_partial t values overrides =
      merge_values t values overrides unknown_values >>= λ effective.
      render_parts t.policies true effective t.parts
