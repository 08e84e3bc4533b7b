-- ===== src/Callback/Handler.antt =====
-- What `callback` of lua-extension/glirc-lua.c asks of the extension's module, and what it makes of
-- the answer.
use irc_core.Base.{
  Bytes, ℕ, suc, ◌+◌, ◌≡◌, refl, ap, ◌∙◌, Bool, false, Option, some, List, [], ◌∷◌, ◌++◌, length,
  append_assoc, if◌then◌else◌, arith,
}
use irc_core.Client.{Client, pass_message, drop_message, error_message}
use irc_core.Lua.Value.{
  callback_worker, Value, nil, truthy, str, table, cfunction, View, Fields, name as key, at, below,
}
use irc_core.Lua.Api.{Lua, returned, raised, is_nil}
use irc_core.Lua.Laws.{at_enter, at_push, at_gettop, at_insert, at_insert_bottom, at_rawgetp}
use irc_core.Callback.{bodies, callback, after, worker, after_lookup}
use irc_core.Callback.Balance.{stack_before}

module _ (G : Client) (L : Lua G.World) where
  open G use {World, glirc_print}
  open L use {
    State, view, enter, view-enter, lua_push, lua_insert, lua_call, lua_pcall, pcall-returned,
    pcall-raised, toboolean_lem, tolstring_lem, module_key, lua_gettable, gettable-plain, text_of,
  }

  -- The worker has looked up its function, and has either found none or calls it.
  worker_step :
      (s0 : State) (w : World) (x : View) (name : Bytes) (args : List Value) (t : ℕ) (f : Fields)
      → view s0 ≡ x
      → x.stack ≡ str name ∷ args
      → x.registry module_key ≡ table t
      → x.tables t ≡ some f
      → (s' : State) × (view s' ≡ record x { stack = f (key name) ∷ args ++ table t ∷ [] })
        × (worker G L s0 w ≡ after_lookup G L (suc (length args)) (is_nil (f (key name))) s' w)
  unfolding worker
  worker_step s0 w x name args t f e top module_is fields =
      let looked = at_rawgetp L e module_key in
      let moved =
        at_insert_bottom L looked {v = table t} {xs = str name ∷ args} (rw (module_is, top) refl) in
      let (s', got, at_s') =
        gettable-plain _ w name t f args (ap (λ (y : View). y.stack) moved)
          (ap (λ (y : View). y.tables t) moved ∙ fields) in
      (
        s',
        at_s' ∙ ap (λ (y : View). record y { stack = f (key name) ∷ args ++ table t ∷ [] }) moved,
        rw got (
            ap (λ (k : ℕ). after_lookup G L k (is_nil (f (key name))) s' w)
              (at_gettop L e ∙ ap (λ (ys : List Value). length ys) top)),
      )

  -- The state in which the worker starts.
  abbrev pub entered : Bytes → ℕ → State → List Value → State
  entered name nargs s args = enter (str name ∷ args) (
      lua_push (str name) (lua_insert (below (nargs + 1)) (lua_push (cfunction callback_worker) s)))

  module _ (name : Bytes) (nargs : ℕ) (s : State) (w : World) (args xs : List Value)
      (h : (view s).stack ≡ args ++ xs) (n : length args ≡ nargs) where
    -- The worker returned the value on its stack's top.
    returned-callback :
        (s' : State) (w' : World) (v : Value) (vs : List Value)
        → worker G L (entered name nargs s args) w ≡ returned 1 s' w'
        → (view s').stack ≡ v ∷ vs
        → let (r, s'', w'') = callback G L name nargs s w in
          (r ≡ (if truthy v then drop_message else pass_message)) × (w'' ≡ w')
    unfolding callback bodies after
    returned-callback s' w' v vs ran top =
        let call =
          pcall-returned (bodies G L) (1 + nargs) 1 _ s' w w' (str name ∷ args) callback_worker xs 1
            (stack_before G L name nargs s args xs h n) (omega arith) ran in
        let read =
          toboolean_lem (enter (v ∷ xs) s') v xs
            (ap (λ (x : View). x.stack) (at_enter L {s = s'} refl (v ∷ xs))) in
        rw (call, top) (ap (λ (b : Bool). if b then drop_message else pass_message) read, refl)

    raised-callback :
        (s' : State) (w' : World) (e : Value)
        → worker G L (entered name nargs s args) w ≡ raised e s' w'
        → let (r, s'', w'') = callback G L name nargs s w in
          (r ≡ pass_message) × (w'' ≡ glirc_print error_message (text_of e) w')
    unfolding callback bodies after
    raised-callback s' w' e ran =
        let call =
          pcall-raised (bodies G L) (1 + nargs) 1 _ s' w w' (str name ∷ args) callback_worker xs e
            (stack_before G L name nargs s args xs h n) (omega arith) ran in
        let (v', text, popped) =
          tolstring_lem (enter (e ∷ xs) s') e xs
            (ap (λ (x : View). x.stack) (at_enter L {s = s'} refl (e ∷ xs))) in
        rw call (refl, ap (λ (t : Option Bytes). glirc_print error_message t w') text)

    view-entered : view (entered name nargs s args) ≡ record (view s) { stack = str name ∷ args }
    view-entered =
        at_enter L
          (at_push L
            (at_insert L (at_push L {s = s} refl (cfunction callback_worker)) (below (nargs + 1))
              refl)
            (str name))
          (str name ∷ args)

    -- A module that is a plain table without the function: the message passes and the client's
    -- state does not change.
    callback_absent :
        (t : ℕ) (f : Fields)
        → (view s).registry module_key ≡ table t
        → (view s).tables t ≡ some f
        → f (key name) ≡ nil
        → let (r, s', w') = callback G L name nargs s w in (r ≡ pass_message) × (w' ≡ w)
    unfolding after_lookup
    callback_absent t f module_is fields absent =
        let (s', at_s', ran) =
          worker_step (entered name nargs s args) w _ name args t f view-entered refl module_is
            fields in
        let nothing : after_lookup G L (suc (length args)) (is_nil (f (key name))) s' w
            ≡ returned 1 s' w =
          rw absent refl in
        returned-callback s' w nil (args ++ table t ∷ []) (ran ∙ nothing)
          (ap (λ (y : View). y.stack) at_s' ∙ rw absent refl)

    -- A module that is a plain table with the function `g`: it is called with the module and the
    -- arguments, in a state that differs from the caller's in the stack alone. If the call returns a
    -- value, the message is dropped exactly when the value counts as true. If it fails, the error's
    -- text is printed and the message passes.
    pub callback_called :
        (t : ℕ) (f : Fields)
        → (view s).registry module_key ≡ table t
        → (view s).tables t ≡ some f
        → is_nil (f (key name)) ≡ false
        → (s' : State) × (view s' ≡ record (view s) { stack = args ++ table t ∷ f (key name) ∷ [] })
          × ((s'' : State) (w' : World) (v : Value)
              → lua_call (suc nargs) 1 s' w ≡ returned tt s'' w'
              → (view s'').stack ≡ v ∷ []
              → let (r, s₁, w₁) = callback G L name nargs s w in
                (r ≡ (if truthy v then drop_message else pass_message)) × (w₁ ≡ w'))
          × ((s'' : State) (w' : World) (e : Value)
              → lua_call (suc nargs) 1 s' w ≡ raised e s'' w'
              → let (r, s₁, w₁) = callback G L name nargs s w in
                (r ≡ pass_message) × (w₁ ≡ glirc_print error_message (text_of e) w'))
    unfolding after_lookup
    callback_called t f module_is fields present =
        let (s', at_s', ran) =
          worker_step (entered name nargs s args) w _ name args t f view-entered refl module_is
            fields in
        let moved = at_insert_bottom L at_s' {v = f (key name)} {xs = args ++ table t ∷ []} refl in
        let calls : worker G L (entered name nargs s args) w
            ≡ after_lookup G L (suc nargs) false s' w =
          ran ∙ rw (present, n) refl in
        (
          lua_insert (at 1) s',
          moved
              ∙ ap (λ (ys : List Value). record (view s) { stack = ys })
                  (append_assoc args (table t ∷ []) (f (key name) ∷ [])),
          λ s'' w' v called top. returned-callback s'' w' v [] (calls ∙ rw called refl) top,
          λ s'' w' e called. raised-callback s'' w' e (calls ∙ rw called refl),
        )
