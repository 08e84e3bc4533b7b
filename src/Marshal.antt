-- ===== src/Marshal.antt =====
-- lua-extension/glirc-marshal.c: client data on the interpreter's stack. The sizes that are given to
-- `lua_createtable` are hints and change nothing; so the loop that counts a list is left out.
pub mod Arrays
pub mod Objects
pub mod Messages
use irc_core.Base.{
  codes, Bytes, ℕ, suc, ◌+◌, ◌≡◌, ap, Bool, true, false, Option, none, some, List, [], ◌∷◌,
  get_elem?, reverse,
}
use irc_core.Lua.Value.{Value, str}
use irc_core.Lua.Api.{Lua, Outcome}
use irc_core.Lua.Run.{◌>>=◌, ◌>>◌, lua, client}
use irc_core.Client.{Client, Message, Chat, Command}

-- The names of the fields.
abbrev pub network_key : Bytes
network_key = codes "network"

abbrev pub nick_key : Bytes
nick_key = codes "nick"

abbrev pub user_key : Bytes
user_key = codes "user"

abbrev pub host_key : Bytes
host_key = codes "host"

abbrev pub prefix_key : Bytes
prefix_key = codes "prefix"

abbrev pub command_key : Bytes
command_key = codes "command"

abbrev pub params_key : Bytes
params_key = codes "params"

abbrev pub tags_key : Bytes
tags_key = codes "tags"

abbrev pub target_key : Bytes
target_key = codes "target"

abbrev pub message_key : Bytes
message_key = codes "message"

-- `!s->str`
abbrev is_null : Option Bytes → Bool
is_null none = true
is_null (some b) = false

module _ {W : Type 0} (L : Lua W) where
  open L use {
    State, view, lua_push, lua_createtable, lua_setfield, lua_rawseti, lua_rawset, text_of,
    lua_tolstring_at, tolstring_at-text,
  }

  -- The text of an argument, and whether there is none.
  get_glirc_string : ℕ → State → Bool × Option Bytes × State
  get_glirc_string i s = let (text, s') = lua_tolstring_at i s in (is_null text, text, s')

  get_glirc_string_lem :
      (i : ℕ) (s : State) (v : Value)
      → get_elem? (reverse (view s).stack) i ≡ some v
      → let (failed, text, s') = get_glirc_string (suc i) s in
        (failed ≡ is_null (text_of v)) × (text ≡ text_of v)
  unfolding get_glirc_string
  get_glirc_string_lem i s v h = let text = tolstring_at-text i s v h in (ap is_null text, text)

  abbrev pub push_glirc_string : Bytes → State → State
  push_glirc_string b = lua_push (str b)

  -- A string goes into the table below it as the field of this name.
  pub string_field : Bytes → Bytes → State → State
  string_field k b s = lua_setfield k (push_glirc_string b s)

  -- `for (i = 0; ...; i++)`: the strings become the elements from `i + 1` on.
  pub push_items : List Bytes → ℕ → State → State
  push_items [] i s = s
  push_items (b ∷ bs) i s = push_items bs (i + 1) (lua_rawseti (i + 1) (push_glirc_string b s))

  pub push_tags : List (Bytes × Bytes) → State → State
  push_tags [] s = s
  push_tags ((k, v) ∷ kvs) s =
      push_tags kvs (lua_rawset (push_glirc_string v (push_glirc_string k s)))

  pub push_glirc_command : Command → State → State
  unfolding string_field
  push_glirc_command cmd s = string_field command_key cmd.command (lua_createtable s)

  pub push_prefix : Message → State → State
  unfolding string_field
  push_prefix msg s = string_field host_key msg.prefix_host (
      string_field user_key msg.prefix_user
        (string_field nick_key msg.prefix_nick (lua_createtable s)))

  pub push_glirc_message : Message → State → State
  unfolding push_prefix string_field push_items push_tags
  push_glirc_message msg s =
      let network = string_field network_key msg.network (lua_createtable s) in
      let prefix = lua_setfield prefix_key (push_prefix msg network) in
      let command = string_field command_key msg.command prefix in
      let params = lua_setfield params_key (push_items msg.params 0 (lua_createtable command)) in
      lua_setfield tags_key (push_tags msg.tags (lua_createtable params))

  pub push_glirc_chat : Chat → State → State
  unfolding string_field
  push_glirc_chat chat s = string_field message_key chat.message (
      string_field target_key chat.target
        (string_field network_key chat.network (lua_createtable s)))

module _ (G : Client) (L : Lua G.World) where
  pub import_string_array : List Bytes → L.State → G.World → Outcome L.State G.World (Unit {0})
  import_string_array list = do
    lua L.lua_createtable
    lua (push_items L list 0)
    client (G.glirc_free_strings list)
