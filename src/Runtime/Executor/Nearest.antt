-- ===== src/Runtime/Executor/Nearest.antt =====
-- The choice of a handler along the method resolution order.
use purrcept_core.Base.{
  ◌≡◌, refl, ap, ◌∙◌, ◌⊎◌, inl, inr, none, some, List, [], ◌∷◌, ◌++◌, All, err, Option-cases,
}
use purrcept_core.Runtime.Exceptions.{Obj, unsupported_effect}
use purrcept_core.Runtime.Driver.Monad.{finished, Context}
use purrcept_core.Runtime.Executor.{
  Executor, Handler, Class, dict_get, DispatchExecutor, Objects, resolve_result, find_handler,
  dispatch_execute,
}

-- The classes without a handler.
abbrev pub Unhandled : {W : Type 0} → List (Class × Handler W) → List Class → Type 0
Unhandled handlers = All (λ c. dict_get handlers c ≡ none)

-- A class of the order that has a handler, where no class before it has one.
pub record Nearest {W : Type 0} (handlers : List (Class × Handler W)) (mro : List Class)
    (handler : Handler W) : Type 0 where
  pub before : List Class
  pub class : Class
  pub after : List Class
  pub split : mro ≡ before ++ class ∷ after
  pub skipped : Unhandled handlers before
  pub handles : dict_get handlers class ≡ some handler

module _ {W : Type 0} (handlers : List (Class × Handler W)) where
  find_hit :
      (c : Class) (mro : List Class) (h : Handler W)
      → dict_get handlers c ≡ some h
      → find_handler handlers (c ∷ mro) ≡ some h
  unfolding find_handler
  find_hit c mro h e = rw (e) refl

  find_miss :
      (c : Class) (mro : List Class)
      → dict_get handlers c ≡ none
      → find_handler handlers (c ∷ mro) ≡ find_handler handlers mro
  unfolding find_handler
  find_miss c mro e = rw (e) refl

  abbrev Found : List Class → Type 0
  Found mro =
      ((h : Handler W) × (find_handler handlers mro ≡ some h) × Nearest handlers mro h)
      ⊎ ((find_handler handlers mro ≡ none) × Unhandled handlers mro)

  later : (c : Class) (mro : List Class) → dict_get handlers c ≡ none → Found mro → Found (c ∷ mro)
  later c mro e (inl (h, found, near)) = inl (
    h,
    find_miss c mro e ∙ found,
    record {
      before = c ∷ near.before;
      class = near.class;
      after = near.after;
      split = ap (λ cs. c ∷ cs) near.split;
      skipped = (e, near.skipped);
      handles = near.handles;
    },
  )
  later c mro e (inr (missed, free)) = inr (find_miss c mro e ∙ missed, (e, free))

  find_handler-cases : (mro : List Class) → Found mro
  unfolding find_handler
  find_handler-cases [] = inr (refl, tt)
  find_handler-cases (c ∷ mro) =
      let rest = find_handler-cases mro in
      elim (Option-cases (dict_get handlers c)) [
        | inl e ↦ later c mro e rest
        | inr (h, e) ↦ inl (
          h,
          find_hit c mro h e,
          record { before = []; class = c; after = mro; split = refl; skipped = tt; handles = e },
        )
      ]

-- An effect goes to the handler of the nearest class of its method resolution order that has one,
-- and what that handler gives is the outcome. Where no class of the order has a handler, the
-- fallback executes the effect, and without a fallback it fails with `UnsupportedEffectError`.
pub dispatch-Nearest :
    {W : Type 0} (objects : Objects W) (d : DispatchExecutor W) (effect : Obj) (context : Context)
    (w : W)
    → ((h : Handler W) × Nearest d.handlers (objects.mro effect) h
        × (dispatch_execute objects d effect context w ≡ resolve_result (h effect context w)))
      ⊎ (Unhandled d.handlers (objects.mro effect)
          × ((f : Executor W)
              → d.fallback ≡ some f
              → dispatch_execute objects d effect context w ≡ f effect context w)
          × (d.fallback ≡ none
              → dispatch_execute objects d effect context w ≡ finished (err unsupported_effect) w))
unfolding dispatch_execute
dispatch-Nearest objects d effect context w =
    elim (find_handler-cases d.handlers (objects.mro effect)) [
      | inl (h, found, near) ↦ inl (h, near, rw (found) refl)
      | inr (missed, free) ↦ inr (free, (λ f e. rw (missed, e) refl), λ e. rw (missed, e) refl)
    ]
