-- ===== src/Models/Streaming.antt =====
-- streaming.py and effects.py: the events of a stream, and `Generate`, which hands a backend a
-- forwarder that lets through what obeys the stream protocol.
pub mod Protocol
pub mod Latching
pub mod Tests
use purrcept_core.Base.{
  ℕ, String, Bool, true, false, Option, none, some, Result, ok, err, ⊤, raise_if, str_eq, ◌>>◌,
  ◌>>=◌,
}
use purrcept_core.Base.Int.{ℤ, pos, ltb_ℤ}
use purrcept_core.Runtime.Exceptions.{Obj, Exc}
use purrcept_core.Models.Messages.{ModelResponse, Error, value_error}
use purrcept_core.Models.Prompt.Request.{ModelRequest}

pub record TextDelta : Type 0 where
  pub delta : String
  pub index : ℤ

pub record ReasoningDelta : Type 0 where
  pub delta : String
  pub index : ℤ
  pub is_summary : Bool

pub record ToolCallDelta : Type 0 where
  pub index : ℤ
  pub arguments_delta : String
  pub tool_call_id : Option String
  pub name : Option String

-- `ModelStreamEvent` and its subclasses; `provider_event` is one of a provider's own.
pub data ModelStreamEvent : Type 0 where
  stream_started : Option String → Option String → Obj → ModelStreamEvent
  text_delta : TextDelta → ModelStreamEvent
  reasoning_delta : ReasoningDelta → ModelStreamEvent
  tool_call_delta : ToolCallDelta → ModelStreamEvent
  usage_update : Obj → ModelStreamEvent
  stream_completed : ModelResponse → ModelStreamEvent
  provider_event : Obj → ModelStreamEvent

abbrev require_index : ℤ → Result Error ⊤
require_index i = raise_if (ltb_ℤ i (pos 0)) value_error

abbrev optional_non_empty : Option String → Result Error ⊤
optional_non_empty none = ok tt
optional_non_empty (some s) = raise_if (str_eq s "") value_error

-- The checks of the events' constructors; `freeze` is `freeze_json_object`.
unfoldable pub new_event :
    (Obj → Result Error Obj) → ModelStreamEvent → Result Error ModelStreamEvent
new_event freeze (stream_started model response_id metadata) =
    optional_non_empty model >> optional_non_empty response_id >> freeze metadata >>= λ frozen.
    ok (stream_started model response_id frozen)
new_event freeze (text_delta d) = require_index d.index >> ok (text_delta d)
new_event freeze (reasoning_delta d) = require_index d.index >> ok (reasoning_delta d)
new_event freeze (tool_call_delta d) =
    require_index d.index
    >> optional_non_empty d.tool_call_id
    >> optional_non_empty d.name
    >> ok (tool_call_delta d)
new_event freeze event = ok event

-- The protocol's errors, which are all `TypeError`.
pub data ProtocolError : Type 0 where
  not_an_event after_completed late_start response_differs : ProtocolError

-- What `Generate` raises: an error of the protocol, one that the backend raised, one that reporting
-- the completion raised, or that what the backend returned is no response.
pub data GenerateError : Type 0 where
  protocol : ProtocolError → GenerateError
  backend_raised : Exc → GenerateError
  progress_raised : Exc → GenerateError
  not_a_response : GenerateError

-- What the forwarder raises to the backend.
abbrev pub EmitError : Type 0
EmitError = GenerateError

-- A backend at work on the world `W`: it returns (`none` is no `ModelResponse`) or raises, or it emits
-- a value (`none` is no event) and goes on by what the callback returned or raised.
pub data Generation (W : Type 0) : Type 0 where
  generated : Result Exc (Option ModelResponse) → W → Generation W
  emits : Option ModelStreamEvent → W → (Result EmitError ⊤ → W → Generation W) → Generation W

-- The effect at work: it ends, or it reports progress to its context.
pub data Generating (W : Type 0) : Type 0 where
  done : Result GenerateError ModelResponse → W → Generating W
  progress : ModelStreamEvent → W → (Result Exc ⊤ → W → Generating W) → Generating W

-- `_StreamForwarder`
pub record StreamForwarder : Type 0 where
  pub seen_event : Bool
  pub completed_event : Option ModelResponse
  pub protocol_error : Option ProtocolError

abbrev pub new_forwarder : StreamForwarder
new_forwarder = record { seen_event = false; completed_event = none; protocol_error = none }

-- What a call of the forwarder comes to: it raises, keeps the event back, or forwards it.
pub data Verdict : Type 0 where
  rejected : ProtocolError → StreamForwarder → Verdict
  withheld : StreamForwarder → Verdict
  forwarded : ModelStreamEvent → StreamForwarder → Verdict

abbrev pub latch : ProtocolError → StreamForwarder → Verdict
latch e f = rejected e (record f { protocol_error = some e })

abbrev pub saw : StreamForwarder → StreamForwarder
saw f = record f { seen_event = true }

-- The events that are no start and no completion have no case of their own.
abbrev pub judge_open : Bool → ModelStreamEvent → StreamForwarder → Verdict
judge_open true (stream_started model response_id metadata) f = latch late_start f
judge_open _ (stream_completed response) f =
    withheld (record f { seen_event = true; completed_event = some response })
judge_open _ event f = forwarded event (saw f)

abbrev pub judge_event : Option ModelResponse → ModelStreamEvent → StreamForwarder → Verdict
judge_event (some completed) event f = latch after_completed f
judge_event none event f = judge_open f.seen_event event f

abbrev pub judge_value : Option ProtocolError → Option ModelStreamEvent → StreamForwarder → Verdict
judge_value (some e) value f = rejected e f
judge_value none none f = latch not_an_event f
judge_value none (some event) f = judge_event f.completed_event event f

-- `_StreamForwarder.__call__`, up to the report.
unfoldable pub forward : StreamForwarder → Option ModelStreamEvent → Verdict
forward f value = judge_value f.protocol_error value f

abbrev pub told_backend : Result Exc ⊤ → Result EmitError ⊤
told_backend (ok _) = ok tt
told_backend (err e) = err (progress_raised e)

abbrev pub told_caller : ModelResponse → Result Exc ⊤ → Result GenerateError ModelResponse
told_caller response (ok _) = ok response
told_caller response (err e) = err (progress_raised e)

-- `ModelBackend.generate`: with a callback, and without one.
pub record Backend (W : Type 0) : Type 0 where
  pub streaming : ModelRequest → String → W → Generation W
  pub silent : ModelRequest → String → W → Result Exc (Option ModelResponse) × W

module _ {W : Type 0} (same : ModelResponse → ModelResponse → Bool) where
  abbrev pub release : Bool → ModelResponse → ModelResponse → W → Generating W
  release true completed response w =
      progress (stream_completed completed) w (λ told w'. done (told_caller response told) w')
  release false completed response w = done (err (protocol response_differs)) w

  abbrev pub release_completed : Option ModelResponse → ModelResponse → W → Generating W
  release_completed none response w = done (ok response) w
  release_completed (some completed) response w =
      release (same completed response) completed response w

  abbrev pub validate_unlatched :
      Option ProtocolError → StreamForwarder → ModelResponse → W → Generating W
  validate_unlatched (some e) f response w = done (err (protocol e)) w
  validate_unlatched none f response w = release_completed f.completed_event response w

  -- `_StreamForwarder.validate_response`, and the return of the response.
  unfoldable pub validate_response : StreamForwarder → ModelResponse → W → Generating W
  validate_response f response w = validate_unlatched f.protocol_error f response w

  -- After the backend: `_require_model_response`, and the validation.
  abbrev pub conclude : StreamForwarder → Result Exc (Option ModelResponse) → W → Generating W
  conclude f (err e) w = done (err (backend_raised e)) w
  conclude f (ok none) w = done (err not_a_response) w
  conclude f (ok (some response)) w = validate_response f response w

  abbrev pub answer_emit :
      Verdict → W → (StreamForwarder → Result EmitError ⊤ → W → Generating W) → Generating W
  answer_emit (rejected e f) w again = again f (err (protocol e)) w
  answer_emit (withheld f) w again = again f (ok tt) w
  answer_emit (forwarded event f) w again =
      progress event w (λ told w'. again f (told_backend told) w')

  -- A backend at work, with the forwarder as its callback.
  unfoldable pub forward_all : StreamForwarder → Generation W → Generating W
  forward_all f (generated r w) = conclude f r w
  forward_all f (emits value w go) =
      answer_emit (forward f value) w (λ f' told w'. forward_all f' (go told w'))

  abbrev pub conclude_silent : Result Exc (Option ModelResponse) × W → Generating W
  conclude_silent (err e, w) = done (err (backend_raised e)) w
  conclude_silent (ok none, w) = done (err not_a_response) w
  conclude_silent (ok (some response), w) = done (ok response) w

  -- `Generate.execute`
  unfoldable pub generate_execute : Backend W → String → ModelRequest → Bool → W → Generating W
  generate_execute backend name request true w =
      forward_all new_forwarder (backend.streaming request name w)
  generate_execute backend name request false w = conclude_silent (backend.silent request name w)
