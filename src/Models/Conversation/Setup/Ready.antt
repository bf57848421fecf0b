-- ===== src/Models/Conversation/Setup/Ready.antt =====
-- What the constructor of a conversation makes sure of.
use purrcept_core.Base.{
  String, ◌≤◌, Bool, true, false, ◌&&◌, ◌≡◌, ◌≢◌, ◌∷◌, refl, List, [], map, Result, ok, err,
  bind_ok, ok_with, raise_if, raise_if-ok, leb, leb→gt,
}
use purrcept_core.Base.Sets.{◌∈◌, Distinct, string_equal, has_repeats_iff}
use purrcept_core.Runtime.Exceptions.{Obj}
use purrcept_core.Models.Messages.{Error, value_error}
use purrcept_core.Models.Json.{Store, Json}
use purrcept_core.Models.Reminders.{ReminderState, make_reminders}
use purrcept_core.Models.Reminders.Keys.{UniqueKeys, reminder_state_keys}
use purrcept_core.Models.Prompt.Request.{SystemInstruction, given_keys, has_duplicates}
use purrcept_core.Models.Prompt.Session.{Source, normalize_reminder_sources}
use purrcept_core.Models.Prompt.Template.{Str}
use purrcept_core.Models.Tools.{ToolError, FunctionTool}
use purrcept_core.Models.Loop.{is_nil, validate_max_model_rounds}
use purrcept_core.Models.Conversation.{Conversation, check_again}
use purrcept_core.Models.Conversation.Sources.{ids, accepted_sources}
use purrcept_core.Models.Conversation.Setup.{
  setup_value_error, of_model, freeze_option, default_reminder, text_instruction, authored,
  normalize_instructions, normalize_reminders, normalize_tools, Setup, new_conversation,
}

of_model_ok : {A : Type 0} (r : Result Error A) (a : A) → of_model r ≡ ok a → r ≡ ok a
of_model_ok (ok b) a h =
    ok_with (λ c. ◌≡◌ {A = Result Error _} (ok b) (ok c)) b a (of_model (ok b)) refl h refl
of_model_ok (err e) a h = absurd (cc)

given_nothing : {A : Type 0} (b : Bool) (xs : List A) → b && is_nil xs ≡ false → b ≡ true → xs ≢ []
given_nothing b [] h k p = cc
given_nothing b (x ∷ xs) h k p = cc

abbrev keys_of : List SystemInstruction → List String
keys_of instructions = given_keys (map (λ i. i.key) instructions)

module _ {W : Type 0} where
  -- What a turn and a fork rely on.
  pub record Ready (c : Conversation W) : Type 0 where
    pub idle : c.busy ≡ false
    pub reminder_keys : UniqueKeys c.reminder_state.reminders
    pub instruction_keys : Distinct (given_keys (map (λ i. i.key) c.config.instructions))
    pub has_tools : c.config.settings.requires_tool ≡ true → c.config.tools ≢ []
    pub source_ids : Distinct (ids c.reminder_sources) × (¬ ("" ∈ ids c.reminder_sources))
    pub some_round : 1 ≤ c.max_model_rounds
    pub sources_pass : normalize_reminder_sources c.reminder_sources ≡ ok c.reminder_sources
    pub checks_pass : check_again c ≡ ok c.reminder_sources

  -- What the constructor's tests say of the conversation that it returns.
  record Passed (c : Conversation W) : Type 0 where
    is_idle : c.busy ≡ false
    unique : UniqueKeys c.reminder_state.reminders
    unrepeated : has_duplicates (keys_of c.config.instructions) ≡ false
    provided : c.config.settings.requires_tool && is_nil c.config.tools ≡ false
    sources : normalize_reminder_sources c.reminder_sources ≡ ok c.reminder_sources
    rounds : validate_max_model_rounds c.max_model_rounds ≡ ok tt

  Passed-Ready : (c : Conversation W) → Passed c → Ready c
  unfolding check_again has_duplicates
  Passed-Ready c p =
      let (same, named, distinct) =
        accepted_sources c.reminder_sources c.reminder_sources p.sources in
      record {
        idle = p.is_idle;
        reminder_keys = p.unique;
        instruction_keys = (has_repeats_iff (keys_of c.config.instructions)).0 p.unrepeated;
        has_tools = given_nothing c.config.settings.requires_tool c.config.tools p.provided;
        source_ids = (distinct, named);
        some_round =
            leb→gt c.max_model_rounds 0
              (raise_if-ok (leb c.max_model_rounds 0) value_error p.rounds);
        sources_pass = p.sources;
        checks_pass = rw (p.unrepeated, p.provided, p.sources, p.rounds) refl;
      }

  listed_once :
      (str : Str) (a : Setup W) (instructions : List SystemInstruction)
      → normalize_instructions str a.instructions ≡ ok instructions
      → has_duplicates (keys_of instructions) ≡ false
  unfolding normalize_instructions
  listed_once str a instructions h =
      let read = bind_ok (authored str text_instruction a.instructions) _ instructions h in
      let test = has_duplicates (keys_of read.value) in
      let unique =
        bind_ok (raise_if test setup_value_error) (λ _. ok read.value) instructions read.then in
      ok_with (λ is. has_duplicates (keys_of is) ≡ false) read.value instructions _ refl unique.then
        (raise_if-ok test setup_value_error unique.first)

  reminded_once :
      (str : Str) (a : Setup W) (reminders : ReminderState)
      → normalize_reminders str a.reminders ≡ ok reminders
      → UniqueKeys reminders.reminders
  unfolding normalize_reminders
  reminded_once str a reminders h =
      let made = bind_ok (authored str default_reminder a.reminders) _ reminders h in
      ok_with (λ s. UniqueKeys s.reminders) (make_reminders made.value) reminders _ refl made.then
        (reminder_state_keys made.value).0

  sources_kept :
      (original sources : List (Source W))
      → of_model (normalize_reminder_sources original) ≡ ok sources
      → normalize_reminder_sources sources ≡ ok sources
  sources_kept original sources h =
      let found = of_model_ok (normalize_reminder_sources original) sources h in
      let same = (accepted_sources original sources found).0 in
      ok_with (λ xs. normalize_reminder_sources xs ≡ ok xs) original sources
        (normalize_reminder_sources original) same found same

  -- A conversation that is made is ready for a turn and for a fork: it is not busy; no key comes twice
  -- among its reminders or among its instructions; a tool is there where the settings require one; its
  -- reminder sources have identifiers, no two the same, and are accepted again by the session of each
  -- turn; at least one round is allowed; and the constructor's checks pass again for a fork.
  pub new_conversation-Ready :
      (str : Str) (wrap : Obj → Result ToolError FunctionTool) (frozen : Json → Obj) (store : Store)
      (a : Setup W) (c : Conversation W)
      → new_conversation str wrap frozen store a ≡ ok c
      → Ready c
  unfolding new_conversation
  new_conversation-Ready str wrap frozen store a c h =
      let listed = bind_ok (normalize_instructions str a.instructions) _ c h in
      let reminded = bind_ok (normalize_reminders str a.reminders) _ c listed.then in
      let tooled = bind_ok (normalize_tools wrap a.tools) _ c reminded.then in
      let no_tool = a.settings.requires_tool && is_nil tooled.value.specs in
      let tested = bind_ok (raise_if no_tool setup_value_error) _ c tooled.then in
      let sourced =
        bind_ok (of_model (normalize_reminder_sources a.reminder_sources)) _ c tested.then in
      let limited =
        bind_ok (of_model (validate_max_model_rounds a.max_model_rounds)) _ c sourced.then in
      let described = bind_ok (freeze_option store a.metadata) _ c limited.then in
      let optioned = bind_ok (freeze_option store a.provider_options) _ c described.then in
      Passed-Ready c (
        ok_with Passed _ c _ refl optioned.then (record {
          is_idle = refl;
          unique = reminded_once str a reminded.value reminded.first;
          unrepeated = listed_once str a listed.value listed.first;
          provided = raise_if-ok no_tool setup_value_error tested.first;
          sources = sources_kept a.reminder_sources sourced.value sourced.first;
          rounds =
              of_model_ok (validate_max_model_rounds a.max_model_rounds) limited.value
                limited.first;
        }))
