-- ===== src/Script.antt =====
-- lua-extension/glirc-lua.c: how the script is found, read and run. A copy of the path is taken to fit
-- into memory.
pub mod Path
pub mod Prepared
pub mod Loaded
use irc_core.Base.{Bytes, ℕ, codes, Bool, true, false, Option, none, some, List, [], ◌∷◌, ◌++◌}
use irc_core.Client.{Client}
use irc_core.Lua.Value.{Value, nil, str, at}
use irc_core.Lua.Api.{Lua, Outcome, returned, raised}
use irc_core.Lua.Run.{◌>>=◌, ◌>>◌, return, lua, client}
use irc_core.Marshal.{push_items}
use irc_core.Marshal.Arrays.{string_or_nil}
use irc_core.Library.Install.{glirc_install_lib}
use irc_core.Script.Path.{dirname}

-- The arguments behind the first, which is the script's name.
abbrev pub behind_first : List Bytes → List Bytes
behind_first [] = []
behind_first (a ∷ args) = args

abbrev pub top : List Value → Value
top [] = nil
top (v ∷ xs) = v

module _ (G : Client) (L : Lua G.World) where
  open G use {World, glirc_resolve_path, glirc_free_string}
  open L use {
    State, view, lua_push, lua_pop, lua_gettop, lua_createtable, lua_insert, lua_rawseti,
    lua_setglobal, lua_rawsetp, lua_call, lua_tolstring, lual_checkversion, lual_loadfile,
    lual_openlibs, module_key,
  }

  abbrev pub Does : Type 0 → Type 0
  Does A = State → World → Outcome State World A

  -- With no arguments the script is glirc.lua, beside the extension's library.
  unfoldable pub push_scriptname : Bytes → List Bytes → Does (Unit {0})
  push_scriptname path [] s w =
      returned tt (lua_push (str (dirname path ++ codes "/glirc.lua")) s) w
  push_scriptname path (a ∷ args) s w =
      let (script, w') = glirc_resolve_path a w in
      returned tt (lua_push (string_or_nil script) s) (glirc_free_string script w')

  unfoldable pub push_args_table : List Bytes → State → State
  push_args_table args s = push_items L (behind_first args) 0 (lua_createtable s)

  -- `luaL_checkversion`
  unfoldable pub check_version : Option Value → Does (Unit {0})
  check_version none s w = returned tt s w
  check_version (some e) s w = raised e s w

  -- `lua_settop(L, 0)`
  abbrev pub clear : State → State
  clear s = lua_pop (lua_gettop s) s

  -- `lua_tostring(L, 2)`, at the top of the stack
  abbrev pub read_text : Does (Option Bytes)
  read_text s w = let (text, s') = lua_tolstring s in returned text s' w

  abbrev pub load : Option Bytes → Does Bool
  load path s w = let (ok, s', w') = lual_loadfile path s w in returned ok s' w'

  -- `lua_error`
  unfoldable pub raise_unless : Bool → Does (Unit {0})
  raise_unless true s w = returned tt s w
  raise_unless false s w = raised (top (view s).stack) s w

  -- The script's path is under its function; both leave the stack for the call.
  abbrev pub place : State → State
  place s =
      let arg = lua_setglobal (codes "arg") (lua_rawseti 0 (lua_insert (at 1) s)) in
      glirc_install_lib L (lual_openlibs arg)

  unfoldable pub execute : Does ℕ
  execute = do lua_call 0 1; lua (lua_rawsetp module_key); return 0

  abbrev pub after_load : Bool → Does ℕ
  after_load loaded = do raise_unless loaded; lua place; execute

  unfoldable pub load_script : Option Bytes → Does ℕ
  unfolding raise_unless execute
  load_script scriptpath = do loaded ← load scriptpath; after_load loaded

  abbrev pub after_name : Does ℕ
  after_name = do scriptpath ← read_text; load_script scriptpath

  abbrev pub after_check : Bytes → List Bytes → Does ℕ
  after_check path args = do
    lua clear
    lua (push_args_table args)
    push_scriptname path args
    after_name

  unfoldable pub initialize_lua : Bytes → List Bytes → Does ℕ
  unfolding push_scriptname push_args_table check_version load_script
  initialize_lua path args s w = (do check_version (lual_checkversion s); after_check path args) s w
