-- ===== src/Models/Tools/Invoke.antt =====
-- What the invocation of a tool returns to the model, and what it raises.
use mathlib.Core.Path.{subst}
use purrcept_core.Base.{
  String, str_eq, eq_iff, Bool, true, false, ◌≡◌, ◌≢◌, refl, sym, ap, ◌∙◌, ◌⊎◌, inl, inr, Option,
  none, some, Result, ok, err, err_same, Bool-cases,
}
use purrcept_core.Runtime.Exceptions.{Obj}
use purrcept_core.Models.Messages.{ToolCall, Error}
use purrcept_core.Models.Loop.{ToolResult}
use purrcept_core.Models.Json.{Json, to_json_value}
use purrcept_core.Models.Tools.{
  ToolError, tool_type_error, tool_value_error, unknown_tool, input_validation, tool_definition,
  encoding_error, tool_raised, is_tool_exception, ToolErrorPolicy, propagate, return_to_model,
  runs_in_thread, FunctionTool, Returned, error_tool_result, encode_tool_result, ToolServices,
  raised_result, after_call, call_validated, invoke_named, invoke, validation_result, invoke_found,
  invoke_tool, returned_result, returned_block, returned_text, returned_none, returned_object,
  dumped, encode_json,
}

str_differ : (a b : String) → a ≢ b → str_eq a b ≡ false
str_differ a b ne = elim (Bool-cases (str_eq a b)) [
  | inl h ↦ absurd (ne ((eq_iff a b).0 h))
  | inr h ↦ h
]

encoded_error :
    (dumps : Json → Option String) (value : Returned) (e : ToolError)
    → encode_tool_result dumps value ≡ err e
    → e ≡ encoding_error
unfolding encode_tool_result
encoded_error dumps (returned_result r) e h = absurd (cc)
encoded_error dumps (returned_block b) e h = absurd (cc)
encoded_error dumps (returned_text t) e h = absurd (cc)
encoded_error dumps returned_none e h = absurd (cc)
encoded_error dumps (returned_object store v) e h = json_error (to_json_value store v) h
  where
    dump_error : (o : Option String) → dumped o ≡ err e → e ≡ encoding_error
    dump_error none q = cc
    dump_error (some text) q = absurd (cc)

    json_error : (r : Result Error Json) → encode_json dumps r ≡ err e → e ≡ encoding_error
    json_error (ok j) q = dump_error (dumps j) q
    json_error (err x) q = cc

module _ {W : Type 0} (services : ToolServices W) where
  -- The function's outcome, for arguments that were accepted.
  abbrev pub called : FunctionTool → Obj → W → Result ToolError Returned × W
  called t arguments w = services.call t.function (runs_in_thread t.sync_policy) arguments w

  -- The ways in which an invocation raises: the adapter raises another error than that of invalid
  -- arguments; the function raises such an error, under the policy to propagate or one that is no
  -- `Exception`; or what the function returned cannot be encoded.
  pub data Raises (t : FunctionTool) (c : ToolCall) (w : W) (e : ToolError) : Type 0 where
    adapter_raises : services.validate t.adapter c ≡ err e → Raises t c w e
    function_raises :
        (arguments : Obj)
        → services.validate t.adapter c ≡ ok arguments
        → (called t arguments w).0 ≡ err e
        → (t.error_policy ≡ propagate) ⊎ (is_tool_exception e ≡ false)
        → Raises t c w e
    not_encoded :
        (arguments : Obj) (value : Returned)
        → services.validate t.adapter c ≡ ok arguments
        → (called t arguments w).0 ≡ ok value
        → e ≡ encoding_error
        → Raises t c w e

  raised_by_policy :
      (p : ToolErrorPolicy) (b : Bool) (x e : ToolError)
      → raised_result services p b x ≡ err e
      → (x ≡ e) × ((p ≡ propagate) ⊎ (b ≡ false))
  raised_by_policy return_to_model true x e h = absurd (cc)
  raised_by_policy return_to_model false x e h = (cc, inr refl)
  raised_by_policy propagate true x e h = (cc, inl refl)
  raised_by_policy propagate false x e h = (cc, inl refl)

  after_call-Raises :
      (t : FunctionTool) (c : ToolCall) (w : W) (e : ToolError) (arguments : Obj)
      (out : Result ToolError Returned × W)
      → services.validate t.adapter c ≡ ok arguments
      → called t arguments w ≡ out
      → (after_call services t out).0 ≡ err e
      → Raises t c w e
  after_call-Raises t c w e arguments (ok value, w') accepted outcome h =
      not_encoded arguments value accepted (ap (λ o. o.0) outcome)
        (encoded_error services.dumps value e h)
  after_call-Raises t c w e arguments (err x, w') accepted outcome h =
      let (same, why) = raised_by_policy t.error_policy (is_tool_exception x) x e h in
      function_raises arguments accepted (ap (λ o. o.0) outcome ∙ ap err same)
        (subst (λ y. (t.error_policy ≡ propagate) ⊎ (is_tool_exception y ≡ false)) same why)

  validated-Raises :
      (t : FunctionTool) (c : ToolCall) (w : W) (e : ToolError) (r : Result ToolError Obj)
      → services.validate t.adapter c ≡ r
      → (call_validated services t r w).0 ≡ err e
      → Raises t c w e
  validated-Raises t c w e (err x) outcome h =
      adapter_raises
        (outcome ∙ ap err (err_same (call_validated services t (err x) w).0 x e refl h))
  validated-Raises t c w e (ok arguments) outcome h =
      after_call-Raises t c w e arguments (called t arguments w) outcome refl h

  invoke-Raises :
      (t : FunctionTool) (c : ToolCall) (w : W) (e : ToolError)
      → str_eq c.name t.name ≡ true
      → (invoke services t c w).0 ≡ err e
      → Raises t c w e
  unfolding invoke
  invoke-Raises t c w e same h =
      validated-Raises t c w e (services.validate t.adapter c) refl
        (ap (λ b. (invoke_named services b t c w).0) (sym same) ∙ h)

  validation_result-err :
      (out : Result ToolError ToolResult × W) (e : ToolError)
      → (validation_result services out).0 ≡ err e
      → (out.0 ≡ err e) × (e ≢ input_validation)
  validation_result-err (ok r, w) e h = absurd (cc)
  validation_result-err (err tool_type_error, w) e h = (h, λ q. cc)
  validation_result-err (err tool_value_error, w) e h = (h, λ q. cc)
  validation_result-err (err unknown_tool, w) e h = (h, λ q. cc)
  validation_result-err (err input_validation, w) e h = absurd (cc)
  validation_result-err (err tool_definition, w) e h = (h, λ q. cc)
  validation_result-err (err encoding_error, w) e h = (h, λ q. cc)
  validation_result-err (err (tool_raised x), w) e h = (h, λ q. cc)

  found-Raises :
      (b : Bool) (t : FunctionTool) (c : ToolCall) (w : W) (e : ToolError)
      → str_eq t.name c.name ≡ b
      → (invoke_found services b t c w).0 ≡ err e
      → (t.name ≡ c.name) × (e ≢ input_validation) × Raises t c w e
  found-Raises false t c w e named h = absurd (cc)
  found-Raises true t c w e named h =
      let same = (eq_iff t.name c.name).0 named in
      let (raised, other) = validation_result-err (invoke services t c w) e h in
      (same, other, invoke-Raises t c w e ((eq_iff c.name t.name).1 (sym same)) raised)

  -- The effect of a tool call raises only where a tool of the call's name was found, and only an error
  -- other than that of invalid arguments, in one of three ways: the adapter raises it; the function
  -- raises it, under the policy to propagate or as no `Exception`; or it is the error that the
  -- function's value cannot be encoded.
  pub invoke_tool-Raises :
      (found : Option FunctionTool) (c : ToolCall) (w : W) (e : ToolError)
      → (invoke_tool services found c w).0 ≡ err e
      → (t : FunctionTool) × (found ≡ some t)
        × (t.name ≡ c.name)
        × (e ≢ input_validation)
        × Raises t c w e
  unfolding invoke_tool
  invoke_tool-Raises none c w e h = absurd (cc)
  invoke_tool-Raises (some t) c w e h =
      let (same, other, how) = found-Raises (str_eq t.name c.name) t c w e refl h in
      (t, refl, same, other, how)

  unusual_raised :
      (p : ToolErrorPolicy) (e : ToolError) (w : W)
      → is_tool_exception e ≡ false
      → validation_result services (raised_result services p (is_tool_exception e) e, w)
        ≡ (err e, w)
  unusual_raised propagate (tool_raised x) w h = refl
  unusual_raised return_to_model (tool_raised x) w h =
      ap
        (λ b.
          validation_result services (raised_result services return_to_model b (tool_raised x), w))
        h
  unusual_raised p tool_type_error w h = absurd (cc)
  unusual_raised p tool_value_error w h = absurd (cc)
  unusual_raised p unknown_tool w h = absurd (cc)
  unusual_raised p input_validation w h = absurd (cc)
  unusual_raised p tool_definition w h = absurd (cc)
  unusual_raised p encoding_error w h = absurd (cc)

  -- An unknown tool, a tool of another name, and arguments that the adapter finds invalid are answered
  -- with an error result, without a call of the function; so is an `Exception` that the function
  -- raises under the policy to return it, with its text. What the function raises and is no
  -- `Exception` is raised under either policy.
  invoke_tool_answers :
      (t : FunctionTool) (c : ToolCall) (w : W)
      → (invoke_tool services none c w ≡ (ok (error_tool_result services.message unknown_tool), w))
        × (t.name ≢ c.name
            → invoke_tool services (some t) c w
              ≡ (ok (error_tool_result services.message unknown_tool), w))
        × (t.name ≡ c.name
            → services.validate t.adapter c ≡ err input_validation
            → invoke_tool services (some t) c w
              ≡ (ok (error_tool_result services.message input_validation), w))
        × ((arguments : Obj) (e : ToolError) (w' : W)
            → t.name ≡ c.name
            → services.validate t.adapter c ≡ ok arguments
            → called t arguments w ≡ (err e, w')
            → t.error_policy ≡ return_to_model
            → is_tool_exception e ≡ true
            → invoke_tool services (some t) c w ≡ (ok (error_tool_result services.message e), w'))
        × ((arguments : Obj) (e : ToolError) (w' : W)
            → t.name ≡ c.name
            → services.validate t.adapter c ≡ ok arguments
            → called t arguments w ≡ (err e, w')
            → is_tool_exception e ≡ false
            → invoke_tool services (some t) c w ≡ (err e, w'))
  unfolding invoke_tool invoke
  invoke_tool_answers t c w = (
    refl,
    λ other. ap (λ b. invoke_found services b t c w) (str_differ t.name c.name other),
    λ same invalid.
        ap (λ b. invoke_found services b t c w) ((eq_iff t.name c.name).1 same)
        ∙ ap (λ b. validation_result services (invoke_named services b t c w))
            ((eq_iff c.name t.name).1 (sym same))
        ∙ ap (λ r. validation_result services (call_validated services t r w)) invalid,
    λ arguments e w' same valid outcome returns ordinary.
        ap (λ b. invoke_found services b t c w) ((eq_iff t.name c.name).1 same)
        ∙ ap (λ b. validation_result services (invoke_named services b t c w))
            ((eq_iff c.name t.name).1 (sym same))
        ∙ ap (λ r. validation_result services (call_validated services t r w)) valid
        ∙ ap (λ out. validation_result services (after_call services t out)) outcome
        ∙ ap
            (λ p. validation_result services (raised_result services p (is_tool_exception e) e, w'))
            returns
        ∙ ap (λ b. validation_result services (raised_result services return_to_model b e, w'))
            ordinary,
    λ arguments e w' same valid outcome unusual.
        ap (λ b. invoke_found services b t c w) ((eq_iff t.name c.name).1 same)
        ∙ ap (λ b. validation_result services (invoke_named services b t c w))
            ((eq_iff c.name t.name).1 (sym same))
        ∙ ap (λ r. validation_result services (call_validated services t r w)) valid
        ∙ ap (λ out. validation_result services (after_call services t out)) outcome
        ∙ unusual_raised t.error_policy e w' unusual,
  )
