-- ===== src/Models/Reminders/Edits.antt =====
-- What upsert, remove and clear do to a collection in which no key stands twice.
use purrcept_core.Base.{
  suc, ◌+◌, ◌≤◌, String, str_eq, Bool, true, false, not, ◌≡◌, refl, ap, ◌∙◌, none, some, List, [],
  ◌∷◌, ◌++◌, arith, Result, ok, err, keep_if, length, length-append, ◌==◌,
}
use purrcept_core.Models.Messages.{Error, value_error}
use purrcept_core.Models.Reminders.{
  SystemReminder, ReminderState, ReminderScope, same_scope, has_key, replace_key, upsert_reminder,
  make_reminders, upsert, remove, clear, clear_one,
}
use purrcept_core.Models.Reminders.Keys.{
  count, UniqueKeys, count-append, upsert-UniqueKeys, upsert-none, upsert-some, replace-new,
  reminder_state_keys,
}

upsert-reminders :
    (s : ReminderState) (r : SystemReminder)
    → UniqueKeys s.reminders
    → (upsert s r).reminders ≡ upsert_reminder s.reminders r
unfolding upsert
upsert-reminders s r h =
    (reminder_state_keys (upsert_reminder s.reminders r)).1 (upsert-UniqueKeys s.reminders r h)

-- The first reminder with the key gives up its slot.
replace-slot :
    (k : String) (x r : SystemReminder) (before after : List SystemReminder)
    → has_key k x ≡ true
    → count k before ≡ 0
    → replace_key k r (before ++ x ∷ after) ≡ before ++ r ∷ after
unfolding replace_key
replace-slot k x r [] after h free = ground arith
replace-slot k x r (b ∷ before) after h free = ground (arith, replace-slot k x r before after h)

-- In a collection without duplicate keys, upsert puts a keyed reminder in the place of the one with
-- its key, and at the end if there is none, and an unkeyed reminder always at the end; all others
-- stay as they are, in their order.
pub upsert_slots :
    (s : ReminderState) (r : SystemReminder)
    → UniqueKeys s.reminders
    → (r.key ≡ none → (upsert s r).reminders ≡ s.reminders ++ r ∷ [])
      × ((k : String)
          → r.key ≡ some k
          → (count k s.reminders ≡ 0 → (upsert s r).reminders ≡ s.reminders ++ r ∷ [])
            × ((before after : List SystemReminder) (x : SystemReminder)
                → s.reminders ≡ before ++ x ∷ after
                → has_key k x ≡ true
                → (upsert s r).reminders ≡ before ++ r ∷ after))
upsert_slots s r h = (
  λ e. upsert-reminders s r h ∙ upsert-none s.reminders r e,
  λ k e.
      let placed : (upsert s r).reminders ≡ replace_key k r s.reminders =
        upsert-reminders s r h ∙ upsert-some s.reminders r k e in
      (
        λ free. placed ∙ replace-new k r s.reminders free,
        λ before after x split mine.
            placed
            ∙ ap (replace_key k r) split
            ∙ replace-slot k x r before after mine (
                ground
                  (arith, ap (count k) split, h.at_most_one k, count-append k before (x ∷ after))),
      ),
)

count-keep :
    (j : String) (p : SystemReminder → Bool) (rs : List SystemReminder)
    → count j (keep_if p rs) ≤ count j rs
count-keep j p [] = omega arith
count-keep j p (r ∷ rs) = ground (arith, count-keep j p rs)

pub keep-UniqueKeys :
    (p : SystemReminder → Bool) (rs : List SystemReminder)
    → UniqueKeys rs
    → UniqueKeys (keep_if p rs)
keep-UniqueKeys p rs h = record {
  at_most_one = λ j. omega (arith, count-keep j p rs, h.at_most_one j);
}

abbrev pub without : String → List SystemReminder → List SystemReminder
without k rs = keep_if (λ r. not (has_key k r)) rs

without-none : (k : String) (rs : List SystemReminder) → count k rs ≡ 0 → without k rs ≡ rs
without-none k [] h = refl
without-none k (r ∷ rs) h = ground (arith, without-none k rs)

without-one :
    (k : String) (x : SystemReminder) (before after : List SystemReminder)
    → has_key k x ≡ true
    → count k before ≡ 0
    → count k after ≡ 0
    → without k (before ++ x ∷ after) ≡ before ++ after
without-one k x [] after h fb fa = ground (arith, without-none k after)
without-one k x (b ∷ before) after h fb fa = ground (arith, without-one k x before after)

remove-value :
    (k : String) (s : ReminderState)
    → str_eq k "" ≡ false
    → UniqueKeys s.reminders
    → remove k s
      ≡ ok (
        record { reminders = without k s.reminders },
        not (length (without k s.reminders) == length s.reminders),
      )
unfolding remove make_reminders
remove-value k s named h =
    rw
      (
        named,
        (reminder_state_keys (without k s.reminders)).1
            (keep-UniqueKeys (λ r. not (has_key k r)) s.reminders h),
      )
      refl

abbrev reported : List SystemReminder → List SystemReminder → Result Error (ReminderState × Bool)
reported kept rs = ok (record { reminders = kept }, not (length kept == length rs))

reported-same : (rs : List SystemReminder) → reported rs rs ≡ ok (record { reminders = rs }, false)
reported-same rs = ground arith

reported-fewer :
    (before after : List SystemReminder) (x : SystemReminder)
    → reported (before ++ after) (before ++ x ∷ after)
      ≡ ok (record { reminders = before ++ after }, true)
reported-fewer before after x =
    ground (arith, length-append before after, length-append before (x ∷ after))

-- In a collection without duplicate keys, removing a non-empty key that is there gives the collection
-- without its one reminder and True; removing one that is not there gives the same collection and
-- False. The empty key is refused.
pub remove_reports :
    (k : String) (s : ReminderState)
    → UniqueKeys s.reminders
    → (str_eq k "" ≡ true → remove k s ≡ err value_error)
      × (str_eq k "" ≡ false
          → (count k s.reminders ≡ 0 → remove k s ≡ ok (s, false))
            × ((before after : List SystemReminder) (x : SystemReminder)
                → s.reminders ≡ before ++ x ∷ after
                → has_key k x ≡ true
                → remove k s ≡ ok (record { reminders = before ++ after }, true)))
unfolding remove
remove_reports k s h = (
  λ empty. rw empty refl,
  λ named. (
    λ free.
        remove-value k s named h
        ∙ ap (λ rs. reported rs s.reminders) (without-none k s.reminders free)
        ∙ reported-same s.reminders,
    λ before after x split mine.
        let counts : count k before + suc (count k after) ≤ 1 =
          ground (arith, ap (count k) split, h.at_most_one k, count-append k before (x ∷ after)) in
        remove-value k s named h
        ∙ ap (λ rs. reported (without k rs) rs) split
        ∙ ap (λ rs. reported rs (before ++ x ∷ after))
            (without-one k x before after mine (omega (arith, counts)) (omega (arith, counts)))
        ∙ reported-fewer before after x,
  ),
)

-- Clearing one scope of a collection without duplicate keys leaves, in their order, exactly the
-- reminders of the other scopes, and again no key twice.
clear_scope :
    (scope : ReminderScope) (s : ReminderState)
    → UniqueKeys s.reminders
    → (s' : ReminderState) × (clear (clear_one (some scope)) s ≡ ok s')
      × (s'.reminders ≡ keep_if (λ r. not (same_scope r.scope scope)) s.reminders)
      × UniqueKeys s'.reminders
unfolding clear
clear_scope scope s h =
    let rs = keep_if (λ (r : SystemReminder). not (same_scope r.scope scope)) s.reminders in
    let keys = reminder_state_keys rs in
    (
      make_reminders rs,
      refl,
      keys.1 (keep-UniqueKeys (λ r. not (same_scope r.scope scope)) s.reminders h),
      keys.0,
    )
