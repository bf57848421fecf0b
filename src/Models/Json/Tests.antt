-- ===== src/Models/Json/Tests.antt =====
-- Tests of the conversion: a list that holds one dictionary twice, and one that holds itself.
use purrcept_core.Base.{ℕ, ◌≡◌, ◌≢◌, ◌↔◌, refl, true, some, [], ◌∷◌, ok, err}
use purrcept_core.Base.Int.{pos}
use purrcept_core.Models.Messages.{value_error, type_error, out_of_fuel}
use purrcept_core.Models.Json.{
  int_value, object_value, mapping, sequence, Store, Json, integer, array, object, no_items, item,
  no_fields, field, convert, to_json_value, freeze_json_object,
}
use purrcept_core.Models.Json.Unfolding.{plain, cycles_rejected}

abbrev shared : Store
shared =
    sequence (object_value 1 ∷ object_value 1 ∷ [])
    ∷ mapping ((some "a", int_value (pos 5)) ∷ [])
    ∷ []

abbrev looped : Store
looped = sequence (object_value 0 ∷ []) ∷ []

abbrev five : Json
five = object (field "a" (integer (pos 5)) no_fields)

abbrev both : Json
both = array (item five (item five no_items))

shared_twice : to_json_value shared (object_value 0) ≡ ok both
unfolding to_json_value convert
shared_twice = refl

loop_rejected : to_json_value looped (object_value 0) ≡ err value_error
unfolding to_json_value convert
loop_rejected = refl

not_a_mapping : freeze_json_object shared (object_value 0) ≡ err type_error
unfolding freeze_json_object
not_a_mapping = refl

cycles_rejected_example :
    ((to_json_value shared (object_value 0) ≡ ok both)
      ↔ ((n : ℕ) × (plain true shared n (object_value 0) ≡ ok both)))
    × (to_json_value shared (object_value 0) ≢ err out_of_fuel)
cycles_rejected_example = cycles_rejected shared (object_value 0) both
