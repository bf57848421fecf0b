-- ===== src/Models/Prompt/Trimming.antt =====
-- The retries of `TurnPromptSession.compile` under a request budget: they end, and drop only the
-- oldest complete turns.
use purrcept_core.Base.{
  String, ℕ, zero, suc, ◌-◌, ◌≤◌, ◌<◌, Bool, true, false, ◌≡◌, refl, sym, ap, ◌∙◌, Option, none,
  some, List, [], ◌∷◌, ◌++◌, map, arith, length, drop, drop-nil, ◌≢◌, keep_if, Result, ok, err, ⊤,
  ltb, ltb→ge, Bool-cases, inl, inr, raise_if, leb,
}
use mathlib.Core.Path.{subst}
use purrcept_core.Models.Messages.{Message, Model, Error, value_error}
use purrcept_core.Models.Context.{
  PreparedContext, count_reply, make_prepared, drop_oldest, drop_first,
}
use purrcept_core.Models.Context.Turns.{Turn, flat, length-offsets, Represents}
use purrcept_core.Models.Context.Window.{drop_oldest_turns}
use purrcept_core.Models.Reminders.{SystemReminder}
use purrcept_core.Models.Prompt.Request.{ModelRequest}
use purrcept_core.Models.Prompt.Compiler.{
  PromptDraft, CompiledPrompt, Hashes, compile, is_next_request,
}
use purrcept_core.Models.Prompt.Session.{
  TurnPromptSession, RequestTokenBudget, Compiled, Verdict, accepted, retry, trim, judge,
  resolve_sources, active_reminders, check_budget, attempt, annotate, accept_prompt,
  finish_consuming, finish_emitting, consume, install, emit_prompt_trace, prompt_compiled, follow,
  reminder_consumed, consume_if, with_history, compile_loop, session_compile, Step, continue_with,
  ◌then_do◌, give,
}

length-map : (f : ℕ → ℕ) (xs : List ℕ) → length (map f xs) ≡ length xs
length-map f [] = refl
length-map f (x ∷ xs) = ap suc (length-map f xs)

make_prepared-boundaries :
    (ms : List Message) (c : Option ℕ) (bs : List ℕ) (p : PreparedContext)
    → make_prepared ms c bs ≡ ok p
    → p.turn_boundaries ≡ bs
unfolding make_prepared
make_prepared-boundaries ms c bs p h = ground arith

first_dropped-shorter :
    (bs : List ℕ) (h p : PreparedContext)
    → drop_first bs h ≡ some (ok p)
    → length p.turn_boundaries < length bs
first_dropped-shorter [] h p e = absurd (cc)
first_dropped-shorter (b ∷ bs) h p e = omega (
  arith,
  length-map (λ n. n - b) bs,
  ap length
      (make_prepared-boundaries (drop b h.messages) h.continuation (map (λ n. n - b) bs) p (cc)),
)

-- Every retry has one boundary less.
pub drop_oldest-shorter :
    (h p : PreparedContext)
    → drop_oldest h ≡ some (ok p)
    → length p.turn_boundaries < length h.turn_boundaries
unfolding drop_oldest
drop_oldest-shorter h p e = first_dropped-shorter h.turn_boundaries h p e

compile-messages :
    (hashes : Hashes) (draft : PromptDraft) (stored turn dynamic : List SystemReminder)
    (ids : List String) (n : ℕ) (c : CompiledPrompt)
    → compile hashes draft stored turn dynamic ids n ≡ ok c
    → c.request.messages ≡ draft.history.messages
unfolding compile
compile-messages hashes draft stored turn dynamic ids n c h = ground arith

nil_ne_cons : (t : Turn) (later : List Turn) → [] ≢ t ∷ later
nil_ne_cons t later p = cc

drop-next :
    (k : ℕ) (ts : List Turn) (t : Turn) (later : List Turn)
    → drop k ts ≡ t ∷ later
    → (drop (suc k) ts ≡ later) × (k < length ts)
drop-next k [] t later e = absurd (nil_ne_cons t later (sym (drop-nil k) ∙ e))
drop-next zero (u ∷ us) t later e = (ap (drop 1) e, omega arith)
drop-next (suc k) (u ∷ us) t later e =
    let (next, inside) = drop-next k us t later e in (next, omega (arith, inside))

-- A retry drops the oldest of the turns that are left.
retry-Represents :
    (history p : PreparedContext) (ts : List Turn) (current : Turn)
    → Represents history.messages history.turn_boundaries ts current
    → drop_oldest history ≡ some (ok p)
    → (t : Turn) × (later : List Turn) × (ts ≡ t ∷ later)
      × Represents p.messages p.turn_boundaries later current
retry-Represents history p [] current h e =
    let nothing : drop_oldest history ≡ none = (drop_oldest_turns history [] current h).0 refl in
    absurd (cc)
retry-Represents history p (t ∷ later) current h e =
    let (r, found, (q, same, rest, _)) =
      (drop_oldest_turns history (t ∷ later) current h).1 t later refl in
    let agreed : q ≡ p = cc in
    (
      t,
      later,
      refl,
      subst (λ (x : PreparedContext). Represents x.messages x.turn_boundaries later current) agreed
          rest,
    )

-- Every error, and this one prompt, has the property.
record Tolerates (P : Result Error CompiledPrompt → Type 0) (c : CompiledPrompt) : Type 1 where
  on_error : (e : Error) → P (err e)
  on_prompt : P (ok c)

module _ {W : Type 0} where
  -- The count of an accepted request is what the counter replied for it, in the world it was called
  -- in, and within the budget.
  abbrev pub Within : Option (RequestTokenBudget W) → Model → ModelRequest → Option ℕ → Type 0
  Within none model request tokens = tokens ≡ none
  Within (some b) model request tokens =
      (n : ℕ) × (w : W) × (tokens ≡ some n)
      × (count_reply (b.counter request model w).0 ≡ ok n)
      × (n ≤ b.max_tokens)

  abbrev pub Sound :
      PromptDraft → Option (RequestTokenBudget W) → Model → Result Error Verdict → Type 0
  Sound draft budget model (err e) = Unit
  Sound draft budget model (ok (accepted c tokens)) =
      (c.request.messages ≡ draft.history.messages) × Within budget model c.request tokens
  Sound draft budget model (ok (retry history)) = drop_oldest draft.history ≡ some (ok history)

  -- A chain of steps has a property of results if its last step has it.
  continue-holds :
      {A B : Type 0} (P : Result Error B → Type 0) (f : A → Step W B) (r : Result Error A × W)
      → ((e : Error) → P (err e))
      → ((a : A) → r.0 ≡ ok a → P (f a r.1).0)
      → P (continue_with f r).0
  continue-holds P f (ok a, w) he h = h a refl
  continue-holds P f (err e, w) he h = he e

  trim-Sound :
      (draft : PromptDraft) (budget : Option (RequestTokenBudget W)) (model : Model)
      (limit tokens : ℕ) (o : Option (Result Error PreparedContext))
      → drop_oldest draft.history ≡ o
      → Sound draft budget model (trim limit tokens o)
  trim-Sound draft budget model limit tokens none e = tt
  trim-Sound draft budget model limit tokens (some (ok p)) e = e
  trim-Sound draft budget model limit tokens (some (err x)) e = tt

  judge-Sound :
      (draft : PromptDraft) (b : RequestTokenBudget W) (model : Model) (c : CompiledPrompt) (w : W)
      (r : Result Error ℕ)
      → c.request.messages ≡ draft.history.messages
      → count_reply (b.counter c.request model w).0 ≡ r
      → Sound draft (some b) model (judge b.max_tokens c draft.history r)
  judge-Sound draft b model c w (err e) same counted = tt
  judge-Sound draft b model c w (ok tokens) same counted =
      elim (Bool-cases (ltb b.max_tokens tokens)) [
        | inl over ↦
            rw (over, judge)
              (trim-Sound draft (some b) model b.max_tokens tokens (drop_oldest draft.history) refl)
        | inr fits ↦
            rw (fits, judge) (same, (tokens, w, refl, counted, ltb→ge b.max_tokens tokens fits))
      ]

  check_budget-Sound :
      (budget : Option (RequestTokenBudget W)) (model : Model) (c : CompiledPrompt)
      (draft : PromptDraft) (w : W)
      → c.request.messages ≡ draft.history.messages
      → Sound draft budget model (check_budget budget model c draft.history w).0
  unfolding check_budget
  check_budget-Sound none model c draft w same = (same, refl)
  check_budget-Sound (some b) model c draft w same =
      judge-Sound draft b model c w (count_reply (b.counter c.request model w).0) same refl

  resolved-Sound :
      (hashes : Hashes) (s : TurnPromptSession W) (draft : PromptDraft) (model : Model) (n : ℕ)
      (budget : Option (RequestTokenBudget W)) (w : W)
      → Sound draft budget model
          ((resolve_sources s.trace_sink s.sources draft.history n then_do λ found.
              give (compile hashes draft (active_reminders s) [] found.0 found.1 n)
              then_do λ compiled. check_budget budget model compiled draft.history)
            w).0
  resolved-Sound hashes s draft model n budget w =
      continue-holds (Sound draft budget model)
        (λ found w'.
          continue_with (λ c. check_budget budget model c draft.history)
            (compile hashes draft (active_reminders s) [] found.0 found.1 n, w'))
        (resolve_sources s.trace_sink s.sources draft.history n w) (λ e. tt)
        (λ found resolved.
          continue-holds (Sound draft budget model) (λ c. check_budget budget model c draft.history)
            (
              compile hashes draft (active_reminders s) [] found.0 found.1 n,
              (resolve_sources s.trace_sink s.sources draft.history n w).1,
            )
            (λ e. tt)
            (λ c compiled.
              check_budget-Sound budget model c draft
                (resolve_sources s.trace_sink s.sources draft.history n w).1
                (compile-messages hashes draft (active_reminders s) [] found.0 found.1 n c
                  compiled)))

  pub attempt-Sound :
      (hashes : Hashes) (s : TurnPromptSession W) (draft : PromptDraft) (model : Model) (n : ℕ)
      (budget : Option (RequestTokenBudget W)) (w : W)
      → Sound draft budget model (attempt hashes s draft model n budget w).0
  unfolding attempt
  attempt-Sound hashes s draft model n budget w =
      continue-holds (Sound draft budget model)
        (λ _. resolve_sources s.trace_sink s.sources draft.history n then_do λ found.
          give (compile hashes draft (active_reminders s) [] found.0 found.1 n) then_do λ compiled.
          check_budget budget model compiled draft.history)
        (raise_if (leb n 0) value_error, w) (λ e. tt)
        (λ _ positive. resolved-Sound hashes s draft model n budget w)

  finish_consuming-holds :
      (P : Result Error CompiledPrompt → Type 0) (c : CompiledPrompt) (s : TurnPromptSession W)
      (r : Result Error ⊤ × W)
      → Tolerates P c
      → P (finish_consuming c s r).0
  finish_consuming-holds P c s (err e, w) h = h.on_error e
  finish_consuming-holds P c s (ok _, w) h = with_left (consume s)
    where
      with_left : (o : Result Error (TurnPromptSession W)) → P (install c s w o).0
      with_left (ok s') = h.on_prompt
      with_left (err e) = h.on_error e

  finish_emitting-holds :
      (P : Result Error CompiledPrompt → Type 0) (n : ℕ) (c : CompiledPrompt)
      (s : TurnPromptSession W) (r : Result Error ⊤ × W)
      → Tolerates P c
      → P (finish_emitting n c s r).0
  finish_emitting-holds P n c s (err e, w) h = h.on_error e
  finish_emitting-holds P n c s (ok _, w) h = decided c.consumed_next_request
    where
      decided : (b : Bool) → P (consume_if b n c s w).0
      decided true =
          finish_consuming-holds P c s
            (emit_prompt_trace s.trace_sink
              (reminder_consumed n
                (map (λ r. r.key) (keep_if is_next_request s.remaining.reminders)))
              w)
            h
      decided false = h.on_prompt

  -- What a compiled prompt under a budget is, for a history of these turns: all but the oldest
  -- `trimmed_turns` of them, and the counter's reply for it, which is within the budget.
  abbrev pub Trimmed :
      Option (RequestTokenBudget W)
      → Model
      → List Turn
      → Turn
      → Result Error CompiledPrompt
      → Type 0
  Trimmed budget model ts current (err e) = Unit
  Trimmed budget model ts current (ok c) =
      (c.diagnostics.trimmed_turns ≤ length ts)
      × (c.request.messages ≡ flat (drop c.diagnostics.trimmed_turns ts) ++ current)
      × Within budget model c.request c.diagnostics.estimated_tokens

  accept_prompt-Trimmed :
      (draft : PromptDraft) (budget : Option (RequestTokenBudget W)) (model : Model)
      (ts : List Turn) (current : Turn) (k n : ℕ) (c : CompiledPrompt) (tokens : Option ℕ)
      (s : TurnPromptSession W) (w : W)
      → k ≤ length ts
      → Represents draft.history.messages draft.history.turn_boundaries (drop k ts) current
      → (c.request.messages ≡ draft.history.messages) × Within budget model c.request tokens
      → Trimmed budget model ts current (accept_prompt n (annotate c tokens k) s w).0
  unfolding accept_prompt
  accept_prompt-Trimmed draft budget model ts current k n c tokens s w le h (same, within) =
      finish_emitting-holds (Trimmed budget model ts current) n (annotate c tokens k) s
        (emit_prompt_trace s.trace_sink (prompt_compiled (annotate c tokens k).diagnostics) w)
        (record { on_error = λ e. tt; on_prompt = (le, same ∙ h.joined, within) })

  -- A pass gives a trimmed prompt, if every next pass does.
  abbrev Gives :
      Option (RequestTokenBudget W) → Model → List Turn → Turn → Option (Compiled W) → Type 0
  Gives budget model ts current o =
      (r : Compiled W) × (o ≡ some r) × Trimmed budget model ts current r.0

  follow-Trimmed :
      (again : PreparedContext → W → Option (Compiled W)) (s : TurnPromptSession W)
      (draft : PromptDraft) (n : ℕ) (budget : Option (RequestTokenBudget W)) (model : Model) (k : ℕ)
      (ts : List Turn) (current : Turn) (v : Result Error Verdict) (w : W)
      → k ≤ length ts
      → Represents draft.history.messages draft.history.turn_boundaries (drop k ts) current
      → Sound draft budget model v
      → ((p : PreparedContext) (w' : W)
          → suc k ≤ length ts
          → Represents p.messages p.turn_boundaries (drop (suc k) ts) current
          → Gives budget model ts current (again p w'))
      → Gives budget model ts current (follow again n k s v w)
  follow-Trimmed again s draft n budget model k ts current (err e) w le h sound next =
      ((err e, s, w), refl, tt)
  follow-Trimmed again s draft n budget model k ts current (ok (accepted c tokens)) w le h sound
        next =
      (
        accept_prompt n (annotate c tokens k) s w,
        refl,
        accept_prompt-Trimmed draft budget model ts current k n c tokens s w le h sound,
      )
  follow-Trimmed again s draft n budget model k ts current (ok (retry p)) w le h sound next =
      let (t, later, split, rest) = retry-Represents draft.history p (drop k ts) current h sound in
      let (shorter, inside) = drop-next k ts t later split in next p w inside (rw shorter rest)

  loop-Trimmed :
      (fuel : ℕ) (hashes : Hashes) (s : TurnPromptSession W) (draft : PromptDraft) (model : Model)
      (n : ℕ) (budget : Option (RequestTokenBudget W)) (k : ℕ) (w : W) (ts : List Turn)
      (current : Turn)
      → k ≤ length ts
      → length ts - k < fuel
      → Represents draft.history.messages draft.history.turn_boundaries (drop k ts) current
      → Gives budget model ts current (compile_loop fuel hashes s draft model n budget k w)
  unfolding compile_loop
  loop-Trimmed zero hashes s draft model n budget k w ts current le enough h = absurd (omega arith)
  loop-Trimmed (suc fuel) hashes s draft model n budget k w ts current le enough h =
      follow-Trimmed
        (λ history w'.
          compile_loop fuel hashes s (with_history draft history) model n budget (suc k) w')
        s draft n budget model k ts current (attempt hashes s draft model n budget w).0
        (attempt hashes s draft model n budget w).1 le h
        (attempt-Sound hashes s draft model n budget w)
        (λ p w' inside rest.
          loop-Trimmed fuel hashes s (with_history draft p) model n budget (suc k) w' ts current
            inside (omega arith) rest)

  -- For a history that stands for the complete turns `ts` and a turn in progress, compile always ends
  -- (it returns or raises); a prompt that it returns has dropped only the oldest complete turns, as
  -- many as its diagnostics say, and kept the whole turn in progress; and its diagnostics hold, if
  -- there is a budget, what the counter replied for the very request that is returned, in the world
  -- it was called in, a count within the budget, and no count if there is no budget.
  pub compile_trims :
      (hashes : Hashes) (s : TurnPromptSession W) (draft : PromptDraft) (model : Model) (n : ℕ)
      (budget : Option (RequestTokenBudget W)) (w : W) (ts : List Turn) (current : Turn)
      → Represents draft.history.messages draft.history.turn_boundaries ts current
      → (r : Compiled W) × (session_compile hashes s draft model n budget w ≡ some r)
        × Trimmed budget model ts current r.0
  unfolding session_compile
  compile_trims hashes s draft model n budget w ts current h =
      let same : length draft.history.turn_boundaries ≡ length ts =
        ap length h.ends ∙ length-offsets 0 ts in
      loop-Trimmed (suc (length draft.history.turn_boundaries)) hashes s draft model n budget 0 w ts
        current (omega arith) (omega (arith, same)) h
