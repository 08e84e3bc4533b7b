-- ===== src/Callback/Balance.antt =====
-- `callback` of lua-extension/glirc-lua.c keeps the interpreter's stack in balance.
use irc_core.Base.{
  Bytes, ◌-◌, ℕ, ◌+◌, ◌≡◌, refl, ap, ◌∙◌, Bool, true, false, List, [], ◌∷◌, ◌++◌, length, drop,
  take_of_append, drop_of_append, if◌then◌else◌, arith,
}
use irc_core.Client.{Client}
use irc_core.Lua.Value.{callback_worker, Value, str, cfunction, View, below}
use irc_core.Lua.Api.{Lua}
use irc_core.Lua.Laws.{at_push, at_insert, at_pop}
use irc_core.Callback.{bodies, callback, after}

same : (ok : Bool) → ◌≡◌ {A = ℕ} (if ok then 1 else 1) 1
same true = refl
same false = refl

module _ (G : Client) (L : Lua G.World) where
  open G use {World}
  open L use {State, view, lua_push, lua_insert, lua_pcall, pcall-stack, tolstring_lem}

  -- The stack that the protected call of the worker finds.
  pub stack_before :
      (name : Bytes) (nargs : ℕ) (s : State) (args xs : List Value)
      → (view s).stack ≡ args ++ xs
      → length args ≡ nargs
      → (view (
          lua_push
            (str name)
            (lua_insert (below (nargs + 1)) (lua_push (cfunction callback_worker) s)))).stack
        ≡ (str name ∷ args) ++ cfunction callback_worker ∷ xs
  stack_before name nargs s args xs h n =
      let k : nargs + 1 - 1 ≡ length args = omega arith in
      let e =
        at_push L
          (at_insert L (at_push L {s = s} refl (cfunction callback_worker)) (below (nargs + 1))
            refl)
          (str name) in
      ap (λ (x : View). x.stack) e ∙ rw (k, h, take_of_append, drop_of_append) refl

  stack-after :
      (ok : Bool) (s : State) (w : World) (results xs : List Value)
      → (view s).stack ≡ results ++ xs
      → length results ≡ 1
      → (view (after G L ok s w).1).stack ≡ xs
  unfolding after
  stack-after ok s w [] xs h n = absurd (omega arith)
  stack-after ok s w (v ∷ u ∷ vs) xs h n = absurd (omega arith)
  stack-after true s w (v ∷ []) xs h n =
      ap (λ (x : View). x.stack) (at_pop L {s = s} refl 1) ∙ ap (drop 1) h
  stack-after false s w (v ∷ []) xs h n =
      let (v', text, e) = tolstring_lem s v xs h in ap (λ (x : View). x.stack) (at_pop L e 1)

  -- Whatever the Lua code does, `callback` takes its arguments off the stack and leaves the rest of
  -- it as it was.
  pub stack-callback :
      (name : Bytes) (nargs : ℕ) (s : State) (w : World) (args xs : List Value)
      → (view s).stack ≡ args ++ xs
      → length args ≡ nargs
      → (view (callback G L name nargs s w).1).stack ≡ xs
  unfolding callback
  stack-callback name nargs s w args xs h n =
      let before = stack_before name nargs s args xs h n in
      let (results, e, one) =
        pcall-stack (bodies G L) (1 + nargs) 1 _ w (str name ∷ args) (cfunction callback_worker) xs
          before (omega (arith, n)) in
      stack-after _ _ _ results xs e (one ∙ same _)
