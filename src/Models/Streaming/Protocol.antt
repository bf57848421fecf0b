-- ===== src/Models/Streaming/Protocol.antt =====
-- What a context hears of a stream.
use purrcept_core.Base.{
  String, Bool, true, false, ◌≡◌, refl, Option, none, some, Result, ok, err, ⊤,
}
use mathlib.Core.Path.{subst}
use purrcept_core.Runtime.Exceptions.{Exc}
use purrcept_core.Models.Messages.{ModelResponse}
use purrcept_core.Models.Prompt.Request.{ModelRequest}
use purrcept_core.Models.Streaming.{
  ModelStreamEvent, stream_started, text_delta, reasoning_delta, tool_call_delta, usage_update,
  stream_completed, provider_event, ProtocolError, GenerateError, protocol, Generation, generated,
  emits, Generating, done, progress, StreamForwarder, new_forwarder, Verdict, rejected, withheld,
  forwarded, judge_open, judge_event, judge_value, forward, told_backend, told_caller, release,
  release_completed, validate_unlatched, validate_response, conclude, answer_emit, forward_all,
  conclude_silent, Backend, generate_execute,
}

-- The event may be forwarded, by whether others were before it.
abbrev Forwardable : Bool → ModelStreamEvent → Type 0
Forwardable seen (stream_started model response_id metadata) = seen ≡ false
Forwardable seen (stream_completed response) = ⊥
Forwardable seen _ = Unit

abbrev VerdictFits : Bool → Verdict → Type 0
VerdictFits seen (rejected e f) = f.seen_event ≡ seen
VerdictFits seen (withheld f) = f.seen_event ≡ true
VerdictFits seen (forwarded event f) = (f.seen_event ≡ true) × Forwardable seen event

judge_open-VerdictFits :
    (seen : Bool) (event : ModelStreamEvent) (f : StreamForwarder)
    → f.seen_event ≡ seen
    → VerdictFits seen (judge_open seen event f)
judge_open-VerdictFits true (stream_started a b c) f e = e
judge_open-VerdictFits false (stream_started a b c) f e = (refl, refl)
judge_open-VerdictFits true (text_delta d) f e = (refl, tt)
judge_open-VerdictFits false (text_delta d) f e = (refl, tt)
judge_open-VerdictFits true (reasoning_delta d) f e = (refl, tt)
judge_open-VerdictFits false (reasoning_delta d) f e = (refl, tt)
judge_open-VerdictFits true (tool_call_delta d) f e = (refl, tt)
judge_open-VerdictFits false (tool_call_delta d) f e = (refl, tt)
judge_open-VerdictFits true (usage_update u) f e = (refl, tt)
judge_open-VerdictFits false (usage_update u) f e = (refl, tt)
judge_open-VerdictFits true (stream_completed r) f e = refl
judge_open-VerdictFits false (stream_completed r) f e = refl
judge_open-VerdictFits true (provider_event o) f e = (refl, tt)
judge_open-VerdictFits false (provider_event o) f e = (refl, tt)

judge_event-VerdictFits :
    (o : Option ModelResponse) (event : ModelStreamEvent) (f : StreamForwarder)
    → VerdictFits f.seen_event (judge_event o event f)
judge_event-VerdictFits (some r) event f = refl
judge_event-VerdictFits none event f = judge_open-VerdictFits f.seen_event event f refl

judge_value-VerdictFits :
    (o : Option ProtocolError) (value : Option ModelStreamEvent) (f : StreamForwarder)
    → VerdictFits f.seen_event (judge_value o value f)
judge_value-VerdictFits (some e) value f = refl
judge_value-VerdictFits none none f = refl
judge_value-VerdictFits none (some event) f = judge_event-VerdictFits f.completed_event event f

forward-VerdictFits :
    (f : StreamForwarder) (value : Option ModelStreamEvent)
    → VerdictFits f.seen_event (forward f value)
unfolding forward
forward-VerdictFits f value = judge_value-VerdictFits f.protocol_error value f

module _ {W : Type 0} (same : ModelResponse → ModelResponse → Bool) where
  -- What is reported obeys the protocol, whatever the reports return: a start only as the first
  -- event, and a completion only as the last, after which the effect ends at once, with a response
  -- that equals the one of the completion, or with the error of the report.
  abbrev pub Legal : Bool → Generating W → Type 0
  Legal seen (done r w) = Unit
  Legal seen (progress (stream_started model response_id metadata) w go) =
      (seen ≡ false) × ((told : Result Exc ⊤) (w' : W) → Legal true (go told w'))
  Legal seen (progress (stream_completed completed) w go) =
      (response : ModelResponse) × (same completed response ≡ true)
      × ((told : Result Exc ⊤) (w' : W) → go told w' ≡ done (told_caller response told) w')
  Legal seen (progress event w go) = (told : Result Exc ⊤) (w' : W) → Legal true (go told w')

  Legal-weaken : (seen : Bool) (x : Generating W) → Legal true x → Legal seen x
  Legal-weaken seen (done r w) h = h
  Legal-weaken seen (progress (stream_started a b c) w go) h = absurd (true_false h.0)
    where
      true_false : true ≡ false → ⊥
      true_false e = cc
  Legal-weaken seen (progress (stream_completed r) w go) h = h
  Legal-weaken seen (progress (text_delta d) w go) h = h
  Legal-weaken seen (progress (reasoning_delta d) w go) h = h
  Legal-weaken seen (progress (tool_call_delta d) w go) h = h
  Legal-weaken seen (progress (usage_update u) w go) h = h
  Legal-weaken seen (progress (provider_event o) w go) h = h

  Forwardable-Legal :
      (seen : Bool) (event : ModelStreamEvent) (w : W) (go : Result Exc ⊤ → W → Generating W)
      → Forwardable seen event
      → ((told : Result Exc ⊤) (w' : W) → Legal true (go told w'))
      → Legal seen (progress event w go)
  Forwardable-Legal seen (stream_started a b c) w go h next = (h, next)
  Forwardable-Legal seen (stream_completed r) w go h next = absurd h
  Forwardable-Legal seen (text_delta d) w go h next = next
  Forwardable-Legal seen (reasoning_delta d) w go h next = next
  Forwardable-Legal seen (tool_call_delta d) w go h next = next
  Forwardable-Legal seen (usage_update u) w go h next = next
  Forwardable-Legal seen (provider_event o) w go h next = next

  answer_emit-Legal :
      (seen : Bool) (v : Verdict) (w : W)
      (again : StreamForwarder → Result GenerateError ⊤ → W → Generating W)
      → VerdictFits seen v
      → ((f : StreamForwarder) (told : Result GenerateError ⊤) (w' : W)
          → Legal f.seen_event (again f told w'))
      → Legal seen (answer_emit same v w again)
  answer_emit-Legal seen (rejected e f) w again h next =
      subst (λ b. Legal b (again f (err (protocol e)) w)) h (next f (err (protocol e)) w)
  answer_emit-Legal seen (withheld f) w again h next =
      Legal-weaken seen (again f (ok tt) w)
        (subst (λ b. Legal b (again f (ok tt) w)) h (next f (ok tt) w))
  answer_emit-Legal seen (forwarded event f) w again (h, allowed) next =
      Forwardable-Legal seen event w (λ told w'. again f (told_backend told) w') allowed
        (λ told w'.
          subst (λ b. Legal b (again f (told_backend told) w')) h (next f (told_backend told) w'))

  release-Legal :
      (seen b : Bool) (completed response : ModelResponse) (w : W)
      → same completed response ≡ b
      → Legal seen (release same b completed response w)
  release-Legal seen true completed response w e = (response, e, λ told w'. refl)
  release-Legal seen false completed response w e = tt

  release_completed-Legal :
      (seen : Bool) (o : Option ModelResponse) (response : ModelResponse) (w : W)
      → Legal seen (release_completed same o response w)
  release_completed-Legal seen none response w = tt
  release_completed-Legal seen (some completed) response w =
      release-Legal seen (same completed response) completed response w refl

  validate_unlatched-Legal :
      (seen : Bool) (o : Option ProtocolError) (f : StreamForwarder) (response : ModelResponse)
      (w : W)
      → Legal seen (validate_unlatched same o f response w)
  validate_unlatched-Legal seen none f response w =
      release_completed-Legal seen f.completed_event response w
  validate_unlatched-Legal seen (some e) f response w = tt

  conclude-Legal :
      (seen : Bool) (f : StreamForwarder) (r : Result Exc (Option ModelResponse)) (w : W)
      → Legal seen (conclude same f r w)
  unfolding validate_response
  conclude-Legal seen f (err e) w = tt
  conclude-Legal seen f (ok none) w = tt
  conclude-Legal seen f (ok (some response)) w =
      validate_unlatched-Legal seen f.protocol_error f response w

  forward_all-Legal :
      (f : StreamForwarder) (g : Generation W) → Legal f.seen_event (forward_all same f g)
  unfolding forward_all
  forward_all-Legal f (generated r w) = conclude-Legal f.seen_event f r w
  forward_all-Legal f (emits value w go) =
      answer_emit-Legal f.seen_event (forward f value) w
        (λ f' told w'. forward_all same f' (go told w')) (forward-VerdictFits f value)
        (λ f' told w'. forward_all-Legal f' (go told w'))

  conclude_silent-Legal :
      (t : Result Exc (Option ModelResponse) × W) → Legal false (conclude_silent same t)
  conclude_silent-Legal (err e, w) = tt
  conclude_silent-Legal (ok none, w) = tt
  conclude_silent-Legal (ok (some response), w) = tt

  -- Whatever a backend emits and returns, and whatever the reports return, the events that a
  -- generation reports obey the protocol: a start is reported only as the first event, and a
  -- completion only as the last one, when the backend has returned a response equal to the
  -- completion's.
  pub generate_protocol :
      (backend : Backend W) (name : String) (request : ModelRequest) (emit : Bool) (w : W)
      → Legal false (generate_execute same backend name request emit w)
  unfolding generate_execute
  generate_protocol backend name request true w =
      forward_all-Legal new_forwarder (backend.streaming request name w)
  generate_protocol backend name request false w =
      conclude_silent-Legal (backend.silent request name w)
