-- ===== src/Callback/Start.antt =====
-- The entry point of lua-extension/glirc-lua.c for the start of the extension.
pub mod Outcomes
use irc_core.Base.{
  Bytes, ℕ, codes, c_string, Bool, true, false, Option, none, some, List, [], ◌∷◌, length,
}
use irc_core.Client.{Client, error_message}
use irc_core.Lua.Value.{integer, light_userdata, cfunction, initializer}
use irc_core.Lua.Api.{Lua}
use irc_core.Callback.{bodies}

module _ (G : Client) (L : Lua G.World) where
  open G use {World, glirc_print}
  open L use {State, lua_push, lua_pcall, lua_tolstring, lua_close, lual_newstate}

  -- What `start` comes to: the extension's handle, which is the interpreter or NULL; or `none`, for a
  -- read through a null pointer.
  abbrev pub Handle : Type 0
  Handle = Option (Option State × World)

  unfoldable pub close : Option State → World → World
  close none w = w
  close (some s) w = lua_close s w

  -- The label `cleanup`; the error's text is read by `strlen`.
  unfoldable pub cleanup : Option Bytes → Option State → World → Handle
  unfolding close
  cleanup none o w = none
  cleanup (some err) o w = some (none, close o (glirc_print error_message (some (c_string err)) w))

  unfoldable pub after_pcall : Bool × State × World → Handle
  unfolding cleanup
  after_pcall (true, s, w) = some (some s, w)
  after_pcall (false, s, w) = let (err, s') = lua_tolstring s in cleanup err (some s') w

  -- The path and the arguments are given by their addresses.
  abbrev pub called : ℕ → ℕ → Bytes → List Bytes → State → State
  called path_at args_at path args s =
      let worker = lua_push (cfunction (initializer path args)) s in
      let with_path = lua_push (light_userdata path_at) worker in
      lua_push (integer (length args)) (lua_push (light_userdata args_at) with_path)

  unfoldable pub start_in : ℕ → ℕ → Bytes → List Bytes → Option State → World → Handle
  unfolding cleanup after_pcall
  start_in path_at args_at path args none w =
      cleanup (some (codes "Failed to allocate Lua interpreter")) none w
  start_in path_at args_at path args (some s) w =
      after_pcall (lua_pcall (bodies G L) 3 0 (called path_at args_at path args s) w)

  unfoldable pub start : ℕ → ℕ → Bytes → List Bytes → World → Handle
  unfolding start_in
  start path_at args_at path args w = start_in path_at args_at path args (lual_newstate w) w
