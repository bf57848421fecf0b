-- ===== src/Models/Streaming/Latching.antt =====
-- The first protocol error stays.
use purrcept_core.Base.{
  ◌≡◌, refl, ap, ◌∙◌, ⊤, Bool, true, false, Option, none, some, Result, ok, err,
}
use mathlib.Core.Path.{subst}
use purrcept_core.Runtime.Exceptions.{Exc}
use purrcept_core.Models.Messages.{ModelResponse}
use purrcept_core.Models.Streaming.{
  ModelStreamEvent, stream_started, text_delta, reasoning_delta, tool_call_delta, usage_update,
  stream_completed, provider_event, ProtocolError, GenerateError, protocol, backend_raised,
  not_a_response, Generation, generated, emits, Generating, done, StreamForwarder, Verdict,
  rejected, judge_open, judge_event, judge_value, forward, validate_response, conclude, answer_emit,
  forward_all,
}

abbrev pub suppressed :
    ProtocolError → Result Exc (Option ModelResponse) → Result GenerateError ModelResponse
suppressed e (err raised) = err (backend_raised raised)
suppressed e (ok none) = err not_a_response
suppressed e (ok (some response)) = err (protocol e)

-- A backend whose every call of the callback raises the one error: nothing is reported, and a
-- response is replaced by the error.
abbrev pub silenced : {W : Type 0} → ProtocolError → Generation W → Generating W
silenced e (generated r w) = done (suppressed e r) w
silenced e (emits value w go) = silenced e (go (err (protocol e)) w)

-- A verdict that rejects has latched its error.
abbrev Latches : Verdict → Type 0
Latches (rejected e f) = f.protocol_error ≡ some e
Latches _ = Unit

judge_open-Latches :
    (b : Bool) (event : ModelStreamEvent) (f : StreamForwarder) → Latches (judge_open b event f)
judge_open-Latches true (stream_started x y z) f = refl
judge_open-Latches false (stream_started x y z) f = tt
judge_open-Latches true (text_delta d) f = tt
judge_open-Latches false (text_delta d) f = tt
judge_open-Latches true (reasoning_delta d) f = tt
judge_open-Latches false (reasoning_delta d) f = tt
judge_open-Latches true (tool_call_delta d) f = tt
judge_open-Latches false (tool_call_delta d) f = tt
judge_open-Latches true (usage_update u) f = tt
judge_open-Latches false (usage_update u) f = tt
judge_open-Latches true (stream_completed r) f = tt
judge_open-Latches false (stream_completed r) f = tt
judge_open-Latches true (provider_event o) f = tt
judge_open-Latches false (provider_event o) f = tt

judge_event-Latches :
    (o : Option ModelResponse) (event : ModelStreamEvent) (f : StreamForwarder)
    → Latches (judge_event o event f)
judge_event-Latches (some r) event f = refl
judge_event-Latches none event f = judge_open-Latches f.seen_event event f

judge_value-Latches :
    (o : Option ProtocolError) (value : Option ModelStreamEvent) (f : StreamForwarder)
    → f.protocol_error ≡ o
    → Latches (judge_value o value f)
judge_value-Latches (some e) value f h = h
judge_value-Latches none none f h = refl
judge_value-Latches none (some event) f h = judge_event-Latches f.completed_event event f

forward-Latches :
    (f : StreamForwarder) (value : Option ModelStreamEvent) → Latches (forward f value)
unfolding forward
forward-Latches f value = judge_value-Latches f.protocol_error value f refl

forward-latched :
    (e : ProtocolError) (f : StreamForwarder) (value : Option ModelStreamEvent)
    → f.protocol_error ≡ some e
    → forward f value ≡ rejected e f
unfolding forward
forward-latched e f value h = ap (λ o. judge_value o value f) h

module _ {W : Type 0} (same : ModelResponse → ModelResponse → Bool) where
  conclude-latched :
      (e : ProtocolError) (f : StreamForwarder) (r : Result Exc (Option ModelResponse)) (w : W)
      → f.protocol_error ≡ some e
      → conclude same f r w ≡ done (suppressed e r) w
  unfolding validate_response
  conclude-latched e f (err raised) w h = refl
  conclude-latched e f (ok none) w h = refl
  conclude-latched e f (ok (some response)) w h = rw (h) refl

  forward_all-latched :
      (e : ProtocolError) (f : StreamForwarder) (g : Generation W)
      → f.protocol_error ≡ some e
      → forward_all same f g ≡ silenced e g
  unfolding forward_all
  forward_all-latched e f (generated r w) h = conclude-latched e f r w h
  forward_all-latched e f (emits value w go) h =
      ap (λ v. answer_emit same v w (λ f' told w'. forward_all same f' (go told w')))
        (forward-latched e f value h)
      ∙ forward_all-latched e f (go (err (protocol e)) w) h

  -- Once the forwarder has rejected an event of a backend with an error, the generation reports
  -- nothing more, every later call of the callback raises that error, and where the backend returns a
  -- response in spite of it, the generation fails with that error; an error that the backend raises
  -- is the outcome.
  pub protocol_error_latched :
      (e : ProtocolError) (f f' : StreamForwarder) (value : Option ModelStreamEvent) (w : W)
      (go : Result GenerateError ⊤ → W → Generation W)
      → forward f value ≡ rejected e f'
      → forward_all same f (emits value w go) ≡ silenced e (go (err (protocol e)) w)
  unfolding forward_all
  protocol_error_latched e f f' value w go h =
      ap (λ v. answer_emit same v w (λ f'' told w'. forward_all same f'' (go told w'))) h
      ∙ forward_all-latched e f' (go (err (protocol e)) w)
          (subst Latches h (forward-Latches f value))
