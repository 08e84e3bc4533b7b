-- ===== src/Library/Install.antt =====
-- lua-extension/glirc-lib.c: the module `glirc` as a table, with the version and the formatting codes,
-- and its installation under the global names `glirc` and `print`.
pub mod Made
use irc_core.Base.{ℕ, ◌≡◌, ◌≢◌, refl, ap, ◌∙◌, subst, sym, List, [], ◌∷◌, map, Bytes, codes}
use irc_core.Lua.Value.{Value, integer, str, table, name, Fields, no_fields, set_key, View}
use irc_core.Lua.Api.{Lua}
use irc_core.Lua.Laws.{at_push}
use irc_core.Marshal.Objects.{Built, Built-stack, Built-create, Built-value, Built-nest}

-- The functions: the name in Lua, and the function's name in C.
abbrev pub glirc_lib : List (Bytes × Bytes)
glirc_lib =
    (codes "send_message", codes "glirc_lua_send_message")
    ∷ (codes "inject_chat", codes "glirc_lua_inject_chat")
    ∷ (codes "print", codes "glirc_lua_print_string")
    ∷ (codes "error", codes "glirc_lua_error")
    ∷ (codes "identifier_cmp", codes "glirc_lua_identifier_cmp")
    ∷ (codes "list_networks", codes "glirc_lua_list_networks")
    ∷ (codes "list_channels", codes "glirc_lua_list_channels")
    ∷ (codes "list_channel_users", codes "glirc_lua_list_channel_users")
    ∷ (codes "my_nick", codes "glirc_lua_my_nick")
    ∷ (codes "user_account", codes "glirc_lua_user_account")
    ∷ (codes "user_channel_modes", codes "glirc_lua_user_channel_modes")
    ∷ (codes "channel_modes", codes "glirc_lua_channel_modes")
    ∷ (codes "channel_masks", codes "glirc_lua_channel_masks")
    ∷ (codes "mark_seen", codes "glirc_lua_mark_seen")
    ∷ (codes "clear_window", codes "glirc_lua_clear_window")
    ∷ (codes "current_focus", codes "glirc_lua_current_focus")
    ∷ (codes "set_focus", codes "glirc_lua_set_focus")
    ∷ (codes "is_logged_on", codes "glirc_lua_is_logged_on")
    ∷ (codes "is_channel", codes "glirc_lua_is_channel")
    ∷ (codes "resolve_path", codes "glirc_lua_resolve_path")
    ∷ (codes "set_timer", codes "glirc_lua_set_timer")
    ∷ (codes "cancel_timer", codes "glirc_lua_cancel_timer")
    ∷ (codes "window_lines", codes "glirc_lua_window_lines")
    ∷ (codes "system", codes "glirc_lua_system")
    ∷ []

-- The formatting codes; a color is the byte 3 and two digits.
abbrev color : Bytes → Bytes → Bytes × Value
color key code = (key, str (3 ∷ code))

abbrev pub formats : List (Bytes × Value)
formats =
    (codes "reset", str (15 ∷ []))
    ∷ (codes "underline", str (31 ∷ []))
    ∷ (codes "italic", str (29 ∷ []))
    ∷ (codes "bold", str (2 ∷ []))
    ∷ (codes "reverse", str (22 ∷ []))
    ∷ color (codes "white") (codes "00")
    ∷ color (codes "black") (codes "01")
    ∷ color (codes "blue") (codes "02")
    ∷ color (codes "green") (codes "03")
    ∷ color (codes "red") (codes "04")
    ∷ color (codes "brown") (codes "05")
    ∷ color (codes "purple") (codes "06")
    ∷ color (codes "orange") (codes "07")
    ∷ color (codes "yellow") (codes "08")
    ∷ color (codes "light_green") (codes "09")
    ∷ color (codes "cyan") (codes "10")
    ∷ color (codes "light_cyan") (codes "11")
    ∷ color (codes "light_blue") (codes "12")
    ∷ color (codes "pink") (codes "13")
    ∷ color (codes "gray") (codes "14")
    ∷ color (codes "light_gray") (codes "15")
    ∷ []

module _ {W : Type 0} (L : Lua W) where
  open L use {State, lua_push, lua_createtable, lua_setfield, lua_setglobal, library_function}

  -- The values become the fields of the table on top of the stack, one by one.
  pub set_values : List (Bytes × Value) → State → State
  set_values [] s = s
  set_values ((k, v) ∷ kvs) s = set_values kvs (lua_setfield k (lua_push v s))

  pub new_formatting_table : State → State
  unfolding set_values
  new_formatting_table s = set_values formats (lua_createtable s)

  pub new_version_table : State → State
  new_version_table s =
      let major = lua_setfield (codes "major") (lua_push (integer 2) (lua_createtable s)) in
      lua_setfield (codes "minor") (lua_push (integer 0) major)

  -- The values of the functions.
  abbrev pub functions : List (Bytes × Value)
  functions = map (λ (e : Bytes × Bytes). (e.0, library_function e.1)) glirc_lib

  -- `luaL_newlib` makes a table with the functions.
  pub new_module : State → State
  unfolding set_values new_formatting_table new_version_table
  new_module s =
      let lib = set_values functions (lua_createtable s) in
      let version = lua_setfield (codes "version") (new_version_table lib) in
      lua_setfield (codes "format") (new_formatting_table version)

  pub glirc_install_lib : State → State
  unfolding new_module
  glirc_install_lib s =
      let named = lua_setglobal (codes "glirc") (new_module s) in
      lua_setglobal (codes "print") (lua_push (library_function (codes "glirc_lua_print")) named)
