-- ===== src/Runtime/Dispatcher.antt =====
-- internal/runtime/commands/dispatcher.go. A handler takes a command and a state of the world, which
-- stands for all that handlers can change, and returns a response or an error and the next state.
use piccolod.Common.{
  ◌≡◌, refl, String, Option, none, some, List, [], ◌∷◌, ◌++◌, Result, err, Eq-string, ◌==◌,
  if◌then◌else◌, arith, ap, ◌∙◌, Option-cases, inl, inr, reverse,
}
use mathlib.Core.List.{reverse-cons}
use piccolod.Common.Map.{Map, lookup, contains, insert, lookup-insert, contains-lookup}

pub data DispatchError (E : Type 0) : Type 0 where
  unknown_command : String → DispatchError E
  handler_error : E → DispatchError E

-- The world, the commands, the responses and the errors of the handlers.
module _ (W C R E : Type 0) (command_name : C → String) where
  abbrev pub Handler : Type 0
  Handler = C → W → Result (DispatchError E) R × W

  -- A middleware is given the command and the next handler, and may leave that out.
  abbrev pub Middleware : Type 0
  Middleware = Handler → Handler

  pub record Dispatcher : Type 0 where
    pub handlers : Map String Handler
    pub middleware : List Middleware

  pub new_dispatcher : Dispatcher
  new_dispatcher = record { handlers = []; middleware = [] }

  -- Nothing stands for the panic of a second registration of a name.
  pub register : Dispatcher → String → Handler → Option Dispatcher
  register d name h =
      if contains name d.handlers
      then none
      else some (record d { handlers = insert name h d.handlers })

  pub use_middleware : Dispatcher → Middleware → Dispatcher
  use_middleware d m = record d { middleware = d.middleware ++ m ∷ [] }

  -- The loop from the last middleware to the first: `rest` is the list in that order.
  wrap : List Middleware → Handler → Handler
  wrap [] final = final
  wrap (m ∷ rest) final = wrap rest (m final)

  pub dispatch : Dispatcher → Handler
  unfolding wrap
  dispatch d cmd w = elim (lookup (command_name cmd) d.handlers) [
    | none ↦ (err (unknown_command (command_name cmd)), w)
    | some h ↦ wrap (reverse d.middleware) h cmd w
  ]

  -- Every middleware around the handler, the first registered one outermost.
  pub nest : List Middleware → Handler → Handler
  nest [] h = h
  nest (m ∷ ms) h = m (nest ms h)

  wrap-append : (xs ys : List Middleware) (h : Handler) → wrap (xs ++ ys) h ≡ wrap ys (wrap xs h)
  unfolding wrap
  wrap-append [] ys h = refl
  wrap-append (m ∷ xs) ys h = wrap-append xs ys (m h)

  wrap-reverse : (ms : List Middleware) (h : Handler) → wrap (reverse ms) h ≡ nest ms h
  unfolding nest wrap
  wrap-reverse [] h = refl
  wrap-reverse (m ∷ ms) h =
      ap (λ xs. wrap xs h) (reverse-cons m ms)
      ∙ (wrap-append (reverse ms) (m ∷ []) h ∙ ap m (wrap-reverse ms h))

  -- What dispatch does with a command, by what is registered under its name.
  abbrev pub Dispatched : Dispatcher → C → W → Option Handler → Type 0
  Dispatched d cmd w none = dispatch d cmd w ≡ (err (unknown_command (command_name cmd)), w)
  Dispatched d cmd w (some h) = dispatch d cmd w ≡ nest d.middleware h cmd w

  dispatch-found :
      (d : Dispatcher) (cmd : C) (w : W) (o : Option Handler)
      → lookup (command_name cmd) d.handlers ≡ o
      → Dispatched d cmd w o
  unfolding dispatch
  dispatch-found d cmd w none e = ground (arith, e)
  dispatch-found d cmd w (some h) e =
      rw (e, dispatch) (ap (λ (f : Handler). f cmd w) (wrap-reverse d.middleware h))

  -- A command whose name has no handler is refused as unknown, no middleware sees it, and nothing
  -- changes. Any other goes through the middleware in the order of registration, the first one
  -- outermost, to the handler of its name.
  pub dispatch-Dispatched :
      (d : Dispatcher) (cmd : C) (w : W) → Dispatched d cmd w (lookup (command_name cmd) d.handlers)
  dispatch-Dispatched d cmd w = dispatch-found d cmd w (lookup (command_name cmd) d.handlers) refl

  -- Registration adds a handler under a name that has none, and takes no other handler away.
  pub lookup-register :
      (d d' : Dispatcher) (name other : String) (h : Handler)
      → register d name h ≡ some d'
      → (lookup name d.handlers ≡ none)
        × (lookup other d'.handlers ≡ (if other == name then some h else lookup other d.handlers))
  unfolding register
  lookup-register d d' name other h e = elim (Option-cases (lookup name d.handlers)) [
    | inl q ↦ (
      q,
      ground (arith, e, q, contains-lookup name d.handlers, lookup-insert name other h d.handlers),
    )
    | inr (x, q) ↦ absurd (ground (arith, e, q, contains-lookup name d.handlers))
  ]
