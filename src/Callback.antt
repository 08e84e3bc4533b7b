-- ===== src/Callback.antt =====
-- lua-extension/glirc-lua.c: how an event of the client reaches the extension's Lua module, and how
-- the extension starts.
pub mod Balance
pub mod Handler
pub mod Events
pub mod Start
pub mod Interface
use irc_core.Base.{
  Bytes, ℕ, zero, suc, ◌+◌, ◌≡◌, refl, Bool, true, false, Option, none, some, List, [], ◌∷◌, ◌++◌,
  length, if◌then◌else◌,
}
use irc_core.Client.{Client, ProcessResult, pass_message, drop_message, error_message}
use irc_core.Script.{initialize_lua}
use irc_core.Lua.Value.{
  CFunction, callback_worker, initializer, Value, str, cfunction, View, at, below,
}
use irc_core.Lua.Api.{Lua, Outcome, returned, raised}
use irc_core.Lua.Run.{◌>>=◌, ◌>>◌, return, lua}

module _ (G : Client) (L : Lua G.World) where
  open G use {World, glirc_print}
  open L use {
    State, view, lua_push, lua_gettop, lua_pop, lua_insert, lua_rawgetp, module_key, lua_gettable,
    lua_call, lua_pcall, lua_tolstring, lua_toboolean,
  }

  -- The function, if there is one, goes to the bottom and is called with `n` arguments.
  after_lookup : ℕ → Bool → State → World → Outcome State World ℕ
  after_lookup n true = return 1
  after_lookup n false = do lua (lua_insert (at 1)); lua_call n 1; return 1

  -- Calls the module's function with the module and the arguments. One value is returned: the
  -- function's result, or nil.
  worker : State → World → Outcome State World ℕ
  unfolding after_lookup
  worker s =
      let n = lua_gettop s in
      (do
        lua (lua_rawgetp module_key)
        lua (lua_insert (at 1))
        absent ← lua_gettable
        after_lookup n absent)
        s

  -- The result of a call that ended well is read and dropped.
  on_result : State → World → ProcessResult × State × World
  on_result s w = (if lua_toboolean s then drop_message else pass_message, lua_pop 1 s, w)

  -- The error of a call that failed is printed and dropped.
  on_error : State → World → ProcessResult × State × World
  on_error s w =
      let (msg, s') = lua_tolstring s in
      (pass_message, lua_pop 1 s', glirc_print error_message msg w)

  -- The code behind the pointers that are given to the interpreter.
  unfoldable pub bodies : CFunction → State → World → Outcome State World ℕ
  unfolding worker
  bodies callback_worker = worker
  bodies (initializer path args) = initialize_lua G L path args

  after : Bool → State → World → ProcessResult × State × World
  unfolding on_result on_error
  after true = on_result
  after false = on_error

  -- `nargs` arguments lie on the stack; `name` is that of the module's function.
  pub callback : Bytes → ℕ → State → World → ProcessResult × State × World
  unfolding bodies after
  callback name nargs s w =
      let worker_pushed = lua_push (cfunction callback_worker) s in
      let inserted = lua_insert (below (nargs + 1)) worker_pushed in
      let (ok, s', w') = lua_pcall bodies (1 + nargs) 1 (lua_push (str name) inserted) w in
      after ok s' w'
