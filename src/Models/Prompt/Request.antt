-- ===== src/Models/Prompt/Request.antt =====
-- requests.py: the provider-neutral request and its validation.
use purrcept_core.Base.{
  String, Bool, true, false, ◌&&◌, Option, none, some, List, [], ◌∷◌, map, Result, ◌>>◌, raise_if,
  ⊤,
}
use purrcept_core.Base.Sets.{string_equal, has_repeats}
use purrcept_core.Runtime.Exceptions.{Obj}
use purrcept_core.Models.Messages.{Block, Message, Continuation, Error, value_error}
use purrcept_core.Models.Reminders.{SystemReminder}

-- `SystemInstruction`
pub record SystemInstruction : Type 0 where
  pub content : List Block
  pub key : Option String
  pub stability : Obj

pub record ToolSpec : Type 0 where
  pub name : String
  pub description : Option String
  pub parameters : Obj

-- `ModelSettings`, of which only whether `tool_choice` is REQUIRED is read.
pub record ModelSettings : Type 0 where
  pub requires_tool : Bool
  pub options : Obj

pub record ModelRequest : Type 0 where
  pub messages : List Message
  pub instructions : List SystemInstruction
  pub reminders : List SystemReminder
  pub tools : List ToolSpec
  pub settings : ModelSettings
  pub cache : Obj
  pub continuation : Option Continuation
  pub metadata : Obj
  pub provider_options : Obj

-- `[value.key for value in values if value.key is not None]`
abbrev pub given_keys : List (Option String) → List String
given_keys [] = []
given_keys (none ∷ ks) = given_keys ks
given_keys (some k ∷ ks) = k ∷ given_keys ks

-- `len(names) != len(set(names))`
unfoldable pub has_duplicates : List String → Bool
has_duplicates names = has_repeats names

abbrev is_nil {ℓ} : {A : Type ℓ} → List A → Bool
is_nil [] = true
is_nil (x ∷ xs) = false

-- `ModelRequest.__post_init__`
unfoldable pub validate_request : ModelRequest → Result Error ⊤
validate_request r =
    raise_if (is_nil r.messages && is_nil r.instructions && is_nil r.reminders) value_error
    >> raise_if (has_duplicates (map (λ t. t.name) r.tools)) value_error
    >> raise_if (has_duplicates (given_keys (map (λ i. i.key) r.instructions))) value_error
    >> raise_if (has_duplicates (given_keys (map (λ m. m.key) r.reminders))) value_error
    >> raise_if (r.settings.requires_tool && is_nil r.tools) value_error
