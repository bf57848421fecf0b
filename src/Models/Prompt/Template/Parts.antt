-- ===== src/Models/Prompt/Template/Parts.antt =====
-- prompt/template.py: the parsing of a template into its parts and fields.

use purrcept_core.Base.{
  String, str_eq, Bool, not, ◌||◌, Option, none, some, List, [], ◌∷◌, ◌++◌, Result, ok, err, ◌>>◌,
  raise_if, if◌then◌else◌, ⊤,
}
use purrcept_core.Base.Sets.{is_member, string_equal}
use purrcept_core.Models.Prompt.Template.Policies.{PromptError, definition_error}

-- What `Formatter().parse` gives for a part: the literal, and for a field its name, whether the format
-- specification is not empty, and whether there is a conversion.
pub record Parsed : Type 0 where
  pub literal : String
  pub field : Option (String × Bool × Bool)

-- `_TemplatePart`
pub record TemplatePart : Type 0 where
  pub literal : String
  pub field_name : Option String

-- Python's text: the parts of a format string, with `none` at the place where parsing raises
-- `ValueError`, `str.strip`, and whether a text has white space in it.
pub record Texts : Type 0 where
  pub parse : String → List (Option Parsed)
  pub strip : String → String
  pub has_space : String → Bool

-- `_validate_field_name`
unfoldable pub validate_field_name : Texts → String → Result PromptError ⊤
validate_field_name texts name =
    raise_if (str_eq name "" || not (str_eq (texts.strip name) name) || texts.has_space name)
      definition_error

abbrev pub add_field : List String → String → List String
add_field names name = if is_member name names then names else names ++ name ∷ []

abbrev pub plain_part : Parsed → TemplatePart
plain_part p = record { literal = p.literal; field_name = none }

abbrev pub field_part : Parsed → String → TemplatePart
field_part p name = record { literal = p.literal; field_name = some name }

abbrev pub first_part :
    TemplatePart
    → Result PromptError (List TemplatePart × List String)
    → Result PromptError (List TemplatePart × List String)
first_part part (err e) = err e
first_part part (ok (parts, names)) = ok (part ∷ parts, names)

abbrev pub check_field : Texts → String × Bool × Bool → Result PromptError ⊤
check_field texts (name, has_spec, has_conversion) =
    validate_field_name texts name >> raise_if (has_conversion || has_spec) definition_error

-- The body of the loop of `_parse_template`, before the rest of the parts.
abbrev pub parse_field :
    Texts
    → Parsed
    → Option (String × Bool × Bool)
    → List String
    → (List String → Result PromptError (List TemplatePart × List String))
    → Result PromptError (List TemplatePart × List String)
parse_field texts p none names rest = first_part (plain_part p) (rest names)
parse_field texts p (some f) names rest =
    check_field texts f >> first_part (field_part p f.0) (rest (add_field names f.0))

-- `_parse_template`, with the names of the fields so far.
unfoldable pub parse_parts :
    Texts
    → List (Option Parsed)
    → List String
    → Result PromptError (List TemplatePart × List String)
parse_parts texts [] names = ok ([], names)
parse_parts texts (none ∷ parsed) names = err definition_error
parse_parts texts (some p ∷ parsed) names =
    parse_field texts p p.field names (λ names'. parse_parts texts parsed names')
