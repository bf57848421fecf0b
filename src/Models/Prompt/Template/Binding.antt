-- ===== src/Models/Prompt/Template/Binding.antt =====
-- Binding values to a template before or at its rendering.

use purrcept_core.Base.{
  String, Bool, true, false, not, ◌≡◌, refl, ap, ◌∙◌, Option, none, List, [], Result, ok, ◌>>=◌,
  ◌>>◌, bind_ok, ok_with, ok_same, raise_if, raise_if-ok, any_of,
}
use purrcept_core.Base.Sets.{is_member, string_equal}
use purrcept_core.Models.Prompt.Template.{
  PromptError, definition_error, unknown_values, RenderPolicy, PromptValue, Dict, PromptTemplate,
  TemplatePart, Texts, Str, keys, update, reject_unknown_keys, new_template, given_values,
  merge_values, with_values, render_parts, missing_fields, render_checked, render, render_partial,
  parse_parts,
}
use purrcept_core.Models.Prompt.Template.Fields.{new_template-Built}

-- What a merge that succeeds comes to.
record Merged (t : PromptTemplate) (values : Option (Dict PromptValue))
    (overrides : Dict PromptValue) (merged : Dict PromptValue) : Type 0 where
  given : Dict PromptValue
  accepted : given_values values ≡ ok given
  is_update : update (update t.values given) overrides ≡ merged
  known : any_of (λ k. not (is_member k t.fields)) (keys merged) ≡ false

merge_values-Merged :
    (t : PromptTemplate) (values : Option (Dict PromptValue)) (overrides : Dict PromptValue)
    (e : PromptError) (merged : Dict PromptValue)
    → merge_values t values overrides e ≡ ok merged
    → Merged t values overrides merged
unfolding merge_values reject_unknown_keys
merge_values-Merged t values overrides e merged h =
    let taken = bind_ok (given_values values) _ merged h in
    let all = update (update t.values taken.value) overrides in
    let test = any_of (λ k. not (is_member k t.fields)) (keys all) in
    let checked = bind_ok (raise_if test e) (λ _. ok all) merged taken.then in
    ok_with (Merged t values overrides) all merged (ok all) refl checked.then (record {
      given = taken.value;
      accepted = taken.first;
      is_update = refl;
      known = raise_if-ok test e checked.first;
    })

-- Any error may stand for the rejection of a merge that succeeds.
merge_values-ok :
    (t : PromptTemplate) (values : Option (Dict PromptValue)) (overrides : Dict PromptValue)
    (e : PromptError) (merged : Dict PromptValue)
    → Merged t values overrides merged
    → merge_values t values overrides e ≡ ok merged
unfolding merge_values reject_unknown_keys
merge_values-ok t values overrides e merged m =
    ap
      (λ r. r >>= λ given.
        raise_if
          (any_of (λ k. not (is_member k t.fields))
            (keys (update (update t.values given) overrides)))
          e
        >> ok (update (update t.values given) overrides))
      m.accepted
    ∙ ap
        (λ (d : Dict PromptValue).
          raise_if (any_of (λ k. not (is_member k t.fields)) (keys d)) e >> ok d)
        m.is_update
    ∙ ap (λ b. raise_if b e >> ok merged) m.known

abbrev parsed_of : PromptTemplate → List TemplatePart × List String
parsed_of t = (t.parts, t.fields)

no_more :
    (t : PromptTemplate)
    → any_of (λ k. not (is_member k t.fields)) (keys t.values) ≡ false
    → Merged t none [] t.values
no_more t known = record { given = []; accepted = refl; is_update = refl; known = known }

module _ (str : Str) (texts : Texts) (name template : String) (policies : Dict RenderPolicy)
    (values : Dict PromptValue) (t : PromptTemplate) where
  -- The template with values bound has the parts, the fields and the policies of the template, and its
  -- values are the merged ones.
  record Rebound (t' : PromptTemplate) (merged : Dict PromptValue) : Type 0 where
    same_parts : parsed_of t' ≡ parsed_of t
    same_policies : t'.policies ≡ t.policies
    bound : t'.values ≡ merged
    known : any_of (λ k. not (is_member k t'.fields)) (keys merged) ≡ false

  Rebound-of :
      (t' : PromptTemplate) (merged : Dict PromptValue)
      → new_template texts name template policies values ≡ ok t
      → new_template texts t.name t.template t.policies merged ≡ ok t'
      → Rebound t' merged
  Rebound-of t' merged made remade =
      let built = new_template-Built texts name template policies values t made in
      let rebuilt = new_template-Built texts t.name t.template t.policies merged t' remade in
      record {
        same_parts =
            ok_same (parse_parts texts (texts.parse t.template) []) (t.parts, t.fields)
              (t'.parts, t'.fields) rebuilt.parsed
              (ap (λ s. parse_parts texts (texts.parse s) []) built.template_is ∙ built.parsed);
        same_policies = rebuilt.policies_are;
        bound = rebuilt.values_are;
        known = rebuilt.values_ok;
      }

  abbrev finished :
      Bool
      → List TemplatePart × List String
      → Dict RenderPolicy
      → Dict PromptValue
      → Result PromptError String
  finished strict (parts, fields) ps effective =
      render_checked str strict (missing_fields str effective fields)
        (render_parts str ps false effective parts)

  -- Rendering a template with values gives what rendering it gives once `with_values` has bound these
  -- values: the same text or the same error, for a template that is made and a binding that succeeds,
  -- whether missing fields are rejected, replaced by their policies, or kept.
  pub with_values-render :
      (given : Option (Dict PromptValue)) (overrides : Dict PromptValue) (t' : PromptTemplate)
      → new_template texts name template policies values ≡ ok t
      → with_values texts t given overrides ≡ ok t'
      → ((strict : Bool) → render str t' strict none [] ≡ render str t strict given overrides)
        × (render_partial str t' none [] ≡ render_partial str t given overrides)
  unfolding with_values render render_partial
  with_values-render given overrides t' made h =
      let bound = bind_ok (merge_values t given overrides definition_error) _ t' h in
      let merged = merge_values-Merged t given overrides definition_error bound.value bound.first in
      let re = Rebound-of t' bound.value made bound.then in
      let before = merge_values-ok t given overrides unknown_values bound.value merged in
      let after : merge_values t' none [] unknown_values ≡ ok bound.value =
        merge_values-ok t' none [] unknown_values t'.values (
          no_more t'
            (ap (λ d. any_of (λ k. not (is_member k t'.fields)) (keys d)) re.bound ∙ re.known))
        ∙ ap ok re.bound in
      (
        λ strict.
            rw (after, before)
              (ap (λ ps. finished strict ps t'.policies bound.value) re.same_parts
                ∙ ap (λ ps. finished strict (t.parts, t.fields) ps bound.value) re.same_policies),
        rw (after, before)
            (ap
                (λ (ps : List TemplatePart × List String).
                  render_parts str t'.policies true bound.value ps.0)
                re.same_parts
              ∙ ap (λ ps. render_parts str ps true bound.value t.parts) re.same_policies),
      )
