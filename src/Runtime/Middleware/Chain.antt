-- ===== src/Runtime/Middleware/Chain.antt =====
-- The order of the middlewares in a chain.
use purrcept_core.Base.{◌≡◌, refl, sym, ap, ◌∙◌, List, [], ◌∷◌, ◌++◌, append-nil, append_assoc}
use purrcept_core.Runtime.Exceptions.{Obj}
use purrcept_core.Runtime.Driver.Monad.{Context}
use purrcept_core.Runtime.Executor.{Executor}
use purrcept_core.Runtime.Middleware.{
  Middleware, wrap_middleware, reversed, wrap_each, middleware_executor,
}

module _ {W : Type 0} where
  wrap_each-append :
      (base : Executor W) (ms ns : List (Middleware W))
      → wrap_each base (ms ++ ns) ≡ wrap_each (wrap_each base ms) ns
  wrap_each-append base [] ns = refl
  wrap_each-append base (m ∷ ms) ns = wrap_each-append (wrap_middleware m base) ms ns

  reversed-append : (ms ns : List (Middleware W)) → reversed (ms ++ ns) ≡ reversed ns ++ reversed ms
  reversed-append [] ns = sym (append-nil (reversed ns))
  reversed-append (m ∷ ms) ns =
      ap (λ xs. xs ++ m ∷ []) (reversed-append ms ns)
      ∙ append_assoc (reversed ns) (reversed ms) (m ∷ [])

  middleware_executor-append :
      (base : Executor W) (ms ns : List (Middleware W))
      → middleware_executor base (ms ++ ns) ≡ middleware_executor (middleware_executor base ns) ms
  unfolding middleware_executor
  middleware_executor-append base ms ns =
      ap (wrap_each base) (reversed-append ms ns)
      ∙ wrap_each-append base (reversed ns) (reversed ms)

  -- The first configured middleware is the outermost: it is called with the effect, and its
  -- continuation is the chain of the others. A chain without middlewares is the base executor, and
  -- two chains one inside the other are the chain of both lists, the outer's first.
  pub chain_order :
      (base : Executor W) (m : Middleware W) (ms ns : List (Middleware W)) (effect : Obj)
      (context : Context) (w : W)
      → (middleware_executor base (m ∷ ms) effect context w
          ≡ m effect context (middleware_executor base ms) w)
        × (middleware_executor base [] ≡ base)
        × (middleware_executor base (ms ++ ns)
            ≡ middleware_executor (middleware_executor base ns) ms)
  unfolding middleware_executor
  chain_order base m ms ns effect context w = (
    ap (λ f. f effect context w) (wrap_each-append base (reversed ms) (m ∷ [])),
    refl,
    middleware_executor-append base ms ns,
  )
