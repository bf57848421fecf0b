-- ===== src/Models/Context/Budget.antt =====
-- The token budget: which turns are kept, and when the turn in progress does not fit.
use purrcept_core.Base.{
  ℕ, zero, suc, ◌≤◌, ◌<◌, ◌≡◌, refl, ap, ◌∙◌, ◌⊎◌, inl, inr, List, [], ◌∷◌, ◌++◌, arith, length,
  drop, get_or, Result, ok, err, Bool-cases, ltb, ltb→lt, ltb→ge, lt→ltb, ge→ltb,
}
use mathlib.Core.Path.{subst}
use purrcept_core.Models.Messages.{Message, Model, Error, budget_exceeded}
use purrcept_core.Models.Context.{
  ConversationState, Counter, counted, turn_start, last_or, extend_back, token_budget,
}
use purrcept_core.Models.Context.Turns.{
  Turn, flat, Represents, length-offsets, turn_start-offsets, drop-flat,
}
use purrcept_core.Models.Context.Retain.{Selects, retain-Selects}

last_or-get_or : (d k : ℕ) (bs : List ℕ) → length bs ≡ suc k → last_or d bs ≡ get_or bs k 0
unfolding last_or
last_or-get_or d k [] h = absurd (omega (arith, h))
last_or-get_or d zero (b ∷ []) h = refl
last_or-get_or d zero (b ∷ c ∷ bs) h = absurd (omega (arith, h))
last_or-get_or d (suc k) (b ∷ []) h = absurd (omega (arith, h))
last_or-get_or d (suc k) (b ∷ c ∷ bs) h = last_or-get_or b k (c ∷ bs) (omega (arith, h))

last_or-turn_start : (bs : List ℕ) → last_or 0 bs ≡ turn_start bs (length bs)
unfolding last_or
last_or-turn_start [] = refl
last_or-turn_start (b ∷ bs) = last_or-get_or 0 (length bs) (b ∷ bs) refl

drop-length : (ts : List Turn) → drop (length ts) ts ≡ []
drop-length [] = refl
drop-length (t ∷ ts) = drop-length ts

le_split : (j n : ℕ) → j < suc n → (j < n) ⊎ (j ≡ n)
le_split j n h = elim (Bool-cases (ltb j n)) [
  | inl e ↦ inl (ltb→lt j n e)
  | inr e ↦ inr (omega (arith, ltb→ge j n e))
]

module _ (max_tokens : ℕ) (counter : Counter) (model : Model) (f : List Message → ℕ)
    (counts : (ms : List Message) → counter ms model ≡ counted (f ms)) where
  -- The loop stops at turn `k`: everything from there on to turn `n` fitted, and one turn more did
  -- not, or there is none.
  abbrev pub Stops : ConversationState → ℕ → Result Error (ℕ × ℕ) → Type 0
  Stops s n r =
      (k : ℕ) × (r ≡ ok (turn_start s.turn_boundaries k, k))
      × (k ≤ n)
      × ((j : ℕ)
          → k ≤ j
          → j < n
          → f (drop (turn_start s.turn_boundaries j) s.messages) ≤ max_tokens)
      × ((j : ℕ) → k ≡ suc j → max_tokens < f (drop (turn_start s.turn_boundaries j) s.messages))

  extend_back-Stops :
      (s : ConversationState) (n : ℕ)
      → Stops s n (extend_back max_tokens counter model s n (turn_start s.turn_boundaries n) n)
  unfolding extend_back
  extend_back-Stops s zero =
      (0, refl, omega arith, λ j a b. absurd (omega arith), λ j e. absurd (omega (arith, e)))
  extend_back-Stops s (suc n) =
      let here = drop (turn_start s.turn_boundaries n) s.messages in
      let (k, found, le, fits, stop) = extend_back-Stops s n in
      elim (Bool-cases (ltb max_tokens (f here))) [
        | inl over ↦ (
          suc n,
          rw (counts here, over, extend_back) refl,
          omega arith,
          λ j a b. absurd (omega arith),
          λ j e. let same : j ≡ n = omega (arith, e) in rw same (ltb→lt max_tokens (f here) over),
        )
        | inr fit ↦ (
          k,
          rw (counts here, fit, extend_back) found,
          omega arith,
          λ j a b. elim (le_split j n b) [
            | inl below ↦ fits j a below
            | inr same ↦ rw same (ltb→ge max_tokens (f here) fit)
          ],
          stop,
        )
      ]

  -- What the budget keeps, from turn `k` on.
  abbrev pub Keeps : ConversationState → List Turn → Turn → Type 0
  Keeps s ts current =
      (k : ℕ) × (k ≤ length ts)
      × Selects (token_budget max_tokens counter model s) (drop k ts) current s.continuation
      × ((j : ℕ) → k ≤ j → j ≤ length ts → f (flat (drop j ts) ++ current) ≤ max_tokens)
      × ((j : ℕ) → k ≡ suc j → max_tokens < f (flat (drop j ts) ++ current))

  -- For a state that stands for the complete turns `ts` and a turn in progress, and a counter that
  -- never fails, TokenBudgetContext raises its budget error, with the count, if the turn in progress
  -- alone is over the budget; otherwise it returns, for some k, the turns from k on and the turn in
  -- progress: every suffix that it tried, from turn k on and shorter, is within the budget, and
  -- adding one more turn would exceed it, unless k is 0.
  pub token_budget_selects :
      (s : ConversationState) (ts : List Turn) (current : Turn)
      → Represents s.messages s.turn_boundaries ts current
      → (max_tokens < f current
          → token_budget max_tokens counter model s ≡ err (budget_exceeded max_tokens (f current)))
        × (f current ≤ max_tokens → Keeps s ts current)
  unfolding token_budget
  token_budget_selects s ts current h =
      let n : ℕ = length s.turn_boundaries in
      let same : n ≡ length ts = ap length h.ends ∙ length-offsets 0 ts in
      let cut : (j : ℕ)
          → j ≤ length ts
          → drop (turn_start s.turn_boundaries j) s.messages ≡ flat (drop j ts) ++ current =
        λ j le. rw (h.ends, turn_start-offsets j ts le, h.joined) (drop-flat j ts current le) in
      let whole : (drop (last_or 0 s.turn_boundaries) s.messages) ≡ current =
        rw (last_or-turn_start s.turn_boundaries, same)
          (cut (length ts) (omega arith) ∙ ap (λ us. flat us ++ current) (drop-length ts)) in
      (
        λ over. rw (whole, counts current, lt→ltb max_tokens (f current) over) refl,
        λ fit.
            let (k, found, le, fits, stop) = extend_back-Stops s n in
            (
              k,
              omega (arith, le, same),
              rw
                  (
                    whole,
                    counts current,
                    ge→ltb max_tokens (f current) fit,
                    last_or-turn_start s.turn_boundaries,
                    found,
                  )
                  (retain-Selects s ts current k h (omega (arith, le, same))),
              λ j a b. elim (le_split j (length ts) (omega arith)) [
                | inl below ↦
                    subst (λ ms. f ms ≤ max_tokens) (cut j b) (fits j a (omega (arith, same)))
                | inr last ↦ rw (last, drop-length ts) fit
              ],
              λ j e. subst (λ ms. max_tokens < f ms) (cut j (omega (arith, le, same))) (stop j e),
            ),
      )
