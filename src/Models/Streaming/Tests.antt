-- ===== src/Models/Streaming/Tests.antt =====
-- Tests of the streaming: a backend that emits a start, a text and the completion, and one that starts
-- twice and returns a response all the same.
use purrcept_core.Base.{
  ℕ, suc, Bool, true, false, ◌≡◌, refl, none, some, [], ◌∷◌, Result, ok, err, ⊤,
}
use purrcept_core.Base.Int.{pos}
use purrcept_core.Models.Messages.{ModelResponse, assistant, text_block}
use purrcept_core.Models.Prompt.Request.{ModelRequest}
use purrcept_core.Models.Streaming.{
  ModelStreamEvent, stream_started, text_delta, stream_completed, late_start, GenerateError,
  protocol, Generation, generated, emits, Generating, done, progress, StreamForwarder,
  new_forwarder, rejected, forward, forward_all, validate_response, Backend, generate_execute,
}
use purrcept_core.Models.Streaming.Protocol.{Legal, generate_protocol}
use purrcept_core.Models.Streaming.Latching.{silenced, protocol_error_latched}

abbrev response : ModelResponse
response = record {
  message = record { role = assistant; content = text_block "hi" ∷ []; name = none; metadata = 0 };
  continuation = none;
}

abbrev same : ModelResponse → ModelResponse → Bool
same a b = true

abbrev request : ModelRequest
request = record {
  messages = [];
  instructions = [];
  reminders = [];
  tools = [];
  settings = record { requires_tool = false; options = 0 };
  cache = 0;
  continuation = none;
  metadata = 0;
  provider_options = 0;
}

abbrev start : ModelStreamEvent
start = stream_started none none 0

abbrev hi : ModelStreamEvent
hi = text_delta (record { delta = "hi"; index = pos 0 })

-- The world counts the values that are emitted.
abbrev returns : ℕ → Generation ℕ
returns w = generated (ok (some response)) w

abbrev backend : Backend ℕ
backend = record {
  streaming = λ q name w. emits (some start) w (λ a w1.
      emits (some hi) (suc w1)
        (λ b w2. emits (some (stream_completed response)) (suc w2) (λ c w3. returns (suc w3))));
  silent = λ q name w. (ok (some response), w);
}

-- The driver accepts every report.
abbrev accept_reports : ℕ → Generating ℕ → Result GenerateError ModelResponse × ℕ
accept_reports n (done r w) = (r, n)
accept_reports n (progress event w go) = accept_reports (suc n) (go (ok tt) w)

three_reports :
    accept_reports 0 (generate_execute same backend "m" request true 0) ≡ (ok response, 3)
unfolding generate_execute forward_all forward validate_response
three_reports = refl

generate_protocol_example : Legal same false (generate_execute same backend "m" request true 0)
generate_protocol_example = generate_protocol same backend "m" request true 0

abbrev started : StreamForwarder
started = record new_forwarder { seen_event = true }

abbrev started_twice : StreamForwarder
started_twice = record started { protocol_error = some late_start }

starts_twice : forward started (some start) ≡ rejected late_start started_twice
unfolding forward
starts_twice = refl

abbrev go_on : Result GenerateError ⊤ → ℕ → Generation ℕ
go_on told w = returns w

protocol_error_latched_example :
    forward_all same started (emits (some start) 0 go_on)
    ≡ silenced late_start (go_on (err (protocol late_start)) 0)
protocol_error_latched_example =
    protocol_error_latched same late_start started started_twice (some start) 0 go_on starts_twice
