-- ===== src/Models/Json.antt =====
-- _utils.py and tools/_encoding.py: the conversion of Python objects to JSON values, which rejects
-- cycles. An object that may hold others has an identity, and a store maps the identities of the
-- containers to what they hold. The set of active identities is passed down instead of being changed
-- and restored.
pub mod Fuel
pub mod Unfolding
pub mod Tests
use purrcept_core.Base.{
  ℕ, zero, suc, String, str_eq, Bool, true, false, Option, none, some, List, [], ◌∷◌, Result, ok,
  err, ◌>>=◌, raise_if, length, ⊤, ◌>>◌,
}
use purrcept_core.Base.Int.{ℤ}
use purrcept_core.Base.Float.{Float, is_finite}
use purrcept_core.Base.Sets.{is_member, nat_equal}
use purrcept_core.Models.Messages.{Error, type_error, value_error, out_of_fuel}

-- A Python value: a primitive one, or an object by its identity.
pub data Value : Type 0 where
  null_value : Value
  string_value : String → Value
  bool_value : Bool → Value
  int_value : ℤ → Value
  float_value : Float → Value
  object_value : ℕ → Value

-- The key of an item is `none` where it is no string. A string, a `bytes` and what is neither a
-- mapping nor a sequence are no containers.
pub data Container : Type 0 where
  mapping : List (Option String × Value) → Container
  sequence : List Value → Container
  dataclass : List (String × Value) → Container

abbrev pub Store : Type 0
Store = List Container

-- The container of an identity; other objects have none.
abbrev pub container_at : Store → ℕ → Option Container
container_at [] i = none
container_at (c ∷ store) zero = some c
container_at (c ∷ store) (suc i) = container_at store i

mutual
  pub data Json : Type 0 where
    null : Json
    string : String → Json
    boolean : Bool → Json
    integer : ℤ → Json
    number : Float → Json
    array : JsonItems → Json
    object : JsonFields → Json

  pub data JsonItems : Type 0 where
    no_items : JsonItems
    item : Json → JsonItems → JsonItems

  pub data JsonFields : Type 0 where
    no_fields : JsonFields
    field : String → Json → JsonFields → JsonFields

-- The comprehension over a sequence.
abbrev pub convert_items : (Value → Result Error Json) → List Value → Result Error JsonItems
convert_items convert [] = ok no_items
convert_items convert (v ∷ vs) =
    convert v >>= λ j. convert_items convert vs >>= λ js. ok (item j js)

-- The loop over a mapping, with its check of the keys.
abbrev pub convert_mapping :
    (Value → Result Error Json) → List (Option String × Value) → Result Error JsonFields
convert_mapping convert [] = ok no_fields
convert_mapping convert ((none, v) ∷ vs) = err type_error
convert_mapping convert ((some key, v) ∷ vs) =
    convert v >>= λ j. convert_mapping convert vs >>= λ js. ok (field key j js)

-- The comprehension over the declared fields of a dataclass.
abbrev pub convert_fields :
    (Value → Result Error Json) → List (String × Value) → Result Error JsonFields
convert_fields convert [] = ok no_fields
convert_fields convert ((key, v) ∷ vs) =
    convert v >>= λ j. convert_fields convert vs >>= λ js. ok (field key j js)

abbrev pub convert_float : Bool → Float → Result Error Json
convert_float true x = ok (number x)
convert_float false x = err value_error

-- A container that is not active, and its elements converted by `convert`. Only the encoding of a
-- tool's result takes dataclasses.
abbrev pub convert_container :
    Bool → (Value → Result Error Json) → Option Container → Result Error Json
convert_container dataclasses convert none = err type_error
convert_container dataclasses convert (some (mapping items)) =
    convert_mapping convert items >>= λ fields. ok (object fields)
convert_container dataclasses convert (some (sequence vs)) =
    convert_items convert vs >>= λ items. ok (array items)
convert_container true convert (some (dataclass fields)) =
    convert_fields convert fields >>= λ converted. ok (object converted)
convert_container false convert (some (dataclass fields)) = err type_error

-- The check of the active identities comes first for a container; another object is unsupported.
abbrev pub enter : Bool → Option Container → Result Error Json → Result Error Json
enter active none entered = err type_error
enter true (some c) entered = err value_error
enter false (some c) entered = entered

-- `_to_json_value`, and `_freeze_json` without dataclasses, on fuel.
unfoldable pub convert : Bool → Store → ℕ → List ℕ → Value → Result Error Json
convert dataclasses store zero active v = err out_of_fuel
convert dataclasses store (suc fuel) active null_value = ok null
convert dataclasses store (suc fuel) active (string_value s) = ok (string s)
convert dataclasses store (suc fuel) active (bool_value b) = ok (boolean b)
convert dataclasses store (suc fuel) active (int_value n) = ok (integer n)
convert dataclasses store (suc fuel) active (float_value x) = convert_float (is_finite x) x
convert dataclasses store (suc fuel) active (object_value i) =
    let inside = convert dataclasses store fuel (i ∷ active) in
    enter (is_member i active) (container_at store i)
      (convert_container dataclasses inside (container_at store i))

-- `_to_json_value(value, active_container_ids=set())`: the fuel is one more than there are containers.
unfoldable pub to_json_value : Store → Value → Result Error Json
to_json_value store v = convert true store (suc (length store)) [] v

abbrev pub require_mapping : Option Container → Result Error ⊤
require_mapping (some (mapping items)) = ok tt
require_mapping _ = err type_error

abbrev pub value_mapping : Store → Value → Result Error ⊤
value_mapping store (object_value i) = require_mapping (container_at store i)
value_mapping store _ = err type_error

-- `_freeze_json(value, active_container_ids=set())`
abbrev pub freeze_json : Store → Value → Result Error Json
freeze_json store v = convert false store (suc (length store)) [] v

-- `freeze_json_object`
unfoldable pub freeze_json_object : Store → Value → Result Error Json
freeze_json_object store v = value_mapping store v >> freeze_json store v
