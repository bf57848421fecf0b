-- ===== src/Models/Prompt/Template/Tests.antt =====
-- Tests of the templates, on "Hi {name}!", which Python's parser splits into a field and a literal.
use purrcept_core.Base.{
  String, Bool, true, false, ◌≡◌, refl, ◌↔◌, Option, none, some, List, [], ◌∷◌, ok, err,
}
use purrcept_core.Base.Sets.{◌∈◌}
use purrcept_core.Models.Prompt.Template.{
  missing, unknown_values, definition_error, PromptValue, none_value, text_value, list_value,
  no_values, one_value, Parsed, Dict, PromptTemplate, Texts, Str, keys, validate_field_name,
  parse_parts, reject_unknown_keys, new_template, merge_values, with_values, render_parts, render,
  render_partial, optional, wrap, join_blocks, block_texts, is_effectively_empty, call_policy,
  then_policy,
}
use purrcept_core.Models.Prompt.Template.Binding.{with_values-render}
use purrcept_core.Models.Prompt.Template.Fields.{WellFormed, new_template-WellFormed}
use purrcept_core.Models.Prompt.Template.Complete.{render_missing}

abbrev split : List (Option Parsed)
split =
    some (record { literal = "Hi "; field = some ("name", false, false) })
    ∷ some (record { literal = "!"; field = none })
    ∷ []

abbrev texts : Texts
texts = record { parse = λ s. split; strip = λ s. s; has_space = λ s. false }

abbrev pub python : Str
python = record { strip = λ s. s; len = λ s. 0; str = λ v. ok "object" }

abbrev pub greeting : Dict PromptValue → PromptTemplate
greeting values = record {
  name = "greet";
  template = "Hi {name}!";
  policies = [];
  values = values;
  parts =
      record { literal = "Hi "; field_name = some "name" }
      ∷ record { literal = "!"; field_name = none }
      ∷ [];
  fields = "name" ∷ [];
}

abbrev pub ann : Dict PromptValue
ann = ("name", text_value "Ann") ∷ []

made : new_template texts "greet" "Hi {name}!" [] [] ≡ ok (greeting [])
unfolding new_template parse_parts validate_field_name reject_unknown_keys
made = refl

bound : with_values texts (greeting []) (some ann) [] ≡ ok (greeting ann)
unfolding with_values merge_values new_template parse_parts validate_field_name reject_unknown_keys
bound = refl

merged : merge_values (greeting []) (some ann) [] unknown_values ≡ ok ann
unfolding merge_values reject_unknown_keys
merged = refl

hi_ann : render python (greeting []) true (some ann) [] ≡ ok "Hi Ann!"
unfolding render merge_values reject_unknown_keys render_parts call_policy optional
    is_effectively_empty
hi_ann = refl

no_name : render python (greeting []) true none [] ≡ err (missing ("name" ∷ []))
unfolding render merge_values reject_unknown_keys
no_name = refl

kept : render_partial python (greeting []) none [] ≡ ok "Hi {name}!"
unfolding render_partial merge_values reject_unknown_keys render_parts
kept = refl

unknown :
    new_template texts "greet" "Hi {name}!" [] (("age", none_value) ∷ []) ≡ err definition_error
unfolding new_template parse_parts validate_field_name reject_unknown_keys
unknown = refl

blocks :
    call_policy (then_policy (join_blocks python ", ") (wrap python "[" "]")) (
      list_value
        (one_value (text_value "a") (one_value none_value (one_value (text_value "b") no_values))))
    ≡ ok "[a, b]"
unfolding call_policy then_policy join_blocks wrap block_texts is_effectively_empty
blocks = refl

new_template-WellFormed_example : WellFormed texts (greeting [])
new_template-WellFormed_example =
    new_template-WellFormed texts "greet" "Hi {name}!" [] [] (greeting []) made

with_values-render_example :
    ((strict : Bool)
      → render python (greeting ann) strict none []
        ≡ render python (greeting []) strict (some ann) [])
    × (render_partial python (greeting ann) none []
        ≡ render_partial python (greeting []) (some ann) [])
with_values-render_example =
    with_values-render python texts "greet" "Hi {name}!" [] [] (greeting []) (some ann) []
      (greeting ann) made bound

render_missing_example :
    (((a : String) → a ∈ ("name" ∷ []) → a ∈ keys ann)
      → (render python (greeting []) true (some ann) []
          ≡ render python (greeting []) false (some ann) [])
        × (render_partial python (greeting []) (some ann) []
            ≡ render python (greeting []) true (some ann) []))
    × ((a : String)
        → a ∈ ("name" ∷ [])
        → ¬ (a ∈ keys ann)
        → (names : List String) × (render python (greeting []) true (some ann) []
            ≡ err (missing names))
          × ((b : String) → (b ∈ names) ↔ ((b ∈ ("name" ∷ [])) × ¬ (b ∈ keys ann))))
render_missing_example =
    render_missing python texts "greet" "Hi {name}!" [] [] (greeting []) (some ann) [] ann made
      merged
