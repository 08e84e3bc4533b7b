-- ===== src/Marshal/Messages.antt =====
-- The tables that lua-extension/glirc-marshal.c makes of messages, chats and commands.
use irc_core.Base.{Bytes, ℕ, List, [], ◌∷◌}
use irc_core.Lua.Value.{Value, str, table, name, Fields, no_fields, set_key}
use irc_core.Client.{Message, Chat, Command}
use irc_core.Lua.Api.{Lua}
use irc_core.Marshal.{
  push_glirc_command, push_glirc_chat, push_glirc_message, push_prefix, network_key, nick_key,
  user_key, host_key, prefix_key, command_key, params_key, tags_key, target_key, message_key,
}
use irc_core.Marshal.Arrays.{IsArray, set_items, set_items-IsArray}
use irc_core.Marshal.Objects.{
  Built, set_tags, Built-create, Built-string, Built-nest, Built-items, Built-tags,
}

-- The table with these fields and no other; of two fields of one name the first counts.
abbrev pub named : List (Bytes × Value) → Fields
named [] = no_fields
named ((k, v) ∷ kvs) = set_key (named kvs) (name k) v

-- What the tables of a command, of a chat message and of a prefix hold.
abbrev pub command_fields : Command → Fields
command_fields cmd = named ((command_key, str cmd.command) ∷ [])

abbrev pub chat_fields : Chat → Fields
chat_fields chat = named (
    (message_key, str chat.message)
    ∷ (target_key, str chat.target)
    ∷ (network_key, str chat.network)
    ∷ [])

abbrev pub prefix_fields : Message → Fields
prefix_fields msg = named (
    (host_key, str msg.prefix_host)
    ∷ (user_key, str msg.prefix_user)
    ∷ (nick_key, str msg.prefix_nick)
    ∷ [])

-- With the addresses of the tables of the prefix, the parameters and the tags.
abbrev pub message_fields : Message → ℕ → ℕ → ℕ → Fields
message_fields msg prefix params tags = named (
    (tags_key, table tags)
    ∷ (params_key, table params)
    ∷ (command_key, str msg.command)
    ∷ (prefix_key, table prefix)
    ∷ (network_key, str msg.network)
    ∷ [])

module _ {W : Type 0} (L : Lua W) where
  open L use {State, view, lua_createtable, lua_setfield}

  pub push_glirc_command_lem :
      (cmd : Command) (s : State)
      → (t : ℕ) × Built (view s) (view (push_glirc_command L cmd s)) t (command_fields cmd) []
  unfolding push_glirc_command
  push_glirc_command_lem cmd s = (_, Built-string L (Built-create L s) command_key cmd.command)

  pub push_glirc_chat_lem :
      (chat : Chat) (s : State)
      → (t : ℕ) × Built (view s) (view (push_glirc_chat L chat s)) t (chat_fields chat) []
  unfolding push_glirc_chat
  push_glirc_chat_lem chat s =
      let network = Built-string L (Built-create L s) network_key chat.network in
      let target = Built-string L network target_key chat.target in
      (_, Built-string L target message_key chat.message)

  push_prefix_lem :
      (msg : Message) (s : State)
      → (t : ℕ) × Built (view s) (view (push_prefix L msg s)) t (prefix_fields msg) []
  unfolding push_prefix
  push_prefix_lem msg s =
      let nick = Built-string L (Built-create L s) nick_key msg.prefix_nick in
      let user = Built-string L nick user_key msg.prefix_user in
      (_, Built-string L user host_key msg.prefix_host)

  -- A message is pushed as one new table: its network and command are strings, and its prefix, its
  -- parameters and its tags are new tables of their own, with the three parts of the prefix, the
  -- Lua array of the parameters, and the tags by their names. What was there before is as it was.
  pub push_glirc_message_lem :
      (msg : Message) (s : State)
      → (t p a b : ℕ) × (params : Fields) × Built
          (view s)
          (view (push_glirc_message L msg s))
          t
          (message_fields msg p a b)
          ((b, set_tags no_fields msg.tags) ∷ (a, params) ∷ (p, prefix_fields msg) ∷ [])
        × IsArray params msg.params
  unfolding push_glirc_message
  push_glirc_message_lem msg s =
      let network = Built-string L (Built-create L s) network_key msg.network in
      let (p, prefix) = push_prefix_lem msg _ in
      let named_prefix = Built-nest L network prefix_key prefix in
      let command = Built-string L named_prefix command_key msg.command in
      let params = Built-items L msg.params 0 _ _ _ _ (Built-create L _) in
      let named_params = Built-nest L command params_key params in
      let tags = Built-tags L msg.tags _ _ _ _ (Built-create L _) in
      (
        _,
        p,
        _,
        _,
        set_items no_fields msg.params 0,
        Built-nest L named_params tags_key tags,
        set_items-IsArray msg.params,
      )
