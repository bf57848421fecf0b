-- ===== src/Models/Reminders.antt =====
-- reminders.py: one reminder, and the ordered collection of them between turns.
pub mod Keys
pub mod Edits
mod Tests
use purrcept_core.Base.{
  ℕ, zero, suc, String, str_eq, Bool, true, false, not, ◌≡◌, Option, none, some, List, [], ◌∷◌,
  ◌++◌, Result, ok, err, ◌>>=◌, ◌>>◌, raise_if, length, keep_if, ◌==◌, if◌then◌else◌, ⊤,
}
use purrcept_core.Base.Int.{ℤ}
use purrcept_core.Models.Messages.{Block, Error, value_error}

pub data ReminderScope : Type 0 where
  next_request turn conversation : ReminderScope

pub data ReminderPlacement : Type 0 where
  auto instructions tail : ReminderPlacement

abbrev pub same_scope : ReminderScope → ReminderScope → Bool
same_scope next_request next_request = true
same_scope turn turn = true
same_scope conversation conversation = true
same_scope _ _ = false

pub record SystemReminder : Type 0 where
  pub content : List Block
  pub key : Option String
  pub scope : ReminderScope
  pub placement : ReminderPlacement
  pub priority : ℤ

-- `value is None or value != ""`, of `validate_optional_non_empty_string`.
abbrev pub is_empty_key : Option String → Bool
is_empty_key none = false
is_empty_key (some k) = str_eq k ""

abbrev pub is_none_key : Option String → Bool
is_none_key none = true
is_none_key (some k) = false

abbrev is_empty : List Block → Bool
is_empty [] = true
is_empty (b ∷ bs) = false

-- An enum from its value; `none` is a value of no member.
abbrev pub require_member : {A : Type 0} → Option A → Result Error A
require_member none = err value_error
require_member (some a) = ok a

-- `SystemReminder.__post_init__`
unfoldable pub make_reminder :
    List Block
    → Option String
    → Option ReminderScope
    → Option ReminderPlacement
    → ℤ
    → Result Error SystemReminder
make_reminder content key scope placement priority = do
  raise_if (is_empty content) value_error
  raise_if (is_empty_key key) value_error
  scope' ← require_member scope
  raise_if (if same_scope scope' conversation then is_none_key key else false) value_error
  placement' ← require_member placement
  ok (record {
    content = content;
    key = key;
    scope = scope';
    placement = placement';
    priority = priority;
  })

-- `reminder.key == key` for a key that is a string.
abbrev pub key_is : String → Option String → Bool
key_is k none = false
key_is k (some k') = str_eq k' k

unfoldable pub has_key : String → SystemReminder → Bool
has_key k r = key_is k r.key

-- The loop of `_upsert` over the existing reminders, for the key of the new one.
unfoldable pub replace_key : String → SystemReminder → List SystemReminder → List SystemReminder
replace_key k r [] = r ∷ []
replace_key k r (x ∷ xs) = let rest = replace_key k r xs in if has_key k x then r ∷ xs else x ∷ rest

-- `_upsert`
abbrev pub place : Option String → List SystemReminder → SystemReminder → List SystemReminder
place none rs r = rs ++ r ∷ []
place (some k) rs r = replace_key k r rs

unfoldable pub upsert_reminder : List SystemReminder → SystemReminder → List SystemReminder
upsert_reminder rs r = place r.key rs r

-- The loop of `ReminderState.__post_init__`.
unfoldable pub normalize_from : List SystemReminder → List SystemReminder → List SystemReminder
normalize_from acc [] = acc
normalize_from acc (r ∷ rs) = normalize_from (upsert_reminder acc r) rs

-- `ReminderState`
pub record ReminderState : Type 0 where
  pub reminders : List SystemReminder

unfoldable pub make_reminders : List SystemReminder → ReminderState
make_reminders rs = record { reminders = normalize_from [] rs }

unfoldable pub upsert : ReminderState → SystemReminder → ReminderState
upsert s r = make_reminders (upsert_reminder s.reminders r)

unfoldable pub remove : String → ReminderState → Result Error (ReminderState × Bool)
remove k s = do
  raise_if (str_eq k "") value_error
  let retained = keep_if (λ r. not (has_key k r)) s.reminders
  ok (make_reminders retained, not (length retained == length s.reminders))

-- `clear`: no scope given, or a scope, or a value that is none.
pub data ClearScope : Type 0 where
  clear_all : ClearScope
  clear_one : Option ReminderScope → ClearScope

unfoldable pub clear : ClearScope → ReminderState → Result Error ReminderState
clear clear_all s = ok (make_reminders [])
clear (clear_one scope) s = do
  scope' ← require_member scope
  ok (make_reminders (keep_if (λ r. not (same_scope r.scope scope')) s.reminders))
