-- ===== src/Examples/Events.antt =====
-- Events of the client at concrete inputs.
use irc_core.Base.{ℕ, refl, some, true, List, [], ◌∷◌}
use irc_core.Client.{Message, Chat}
use irc_core.Lua.Value.{boolean, table, other, Fields, no_fields, name, set_key}
use irc_core.Lua.Api.{Lua}
use irc_core.Marshal.{push_glirc_message}
use irc_core.Marshal.Arrays.{IsArray}
use irc_core.Marshal.Objects.{Built, set_tags}
use irc_core.Marshal.Messages.{push_glirc_message_lem, message_fields, prefix_fields}
use irc_core.Callback.Events.{
  process_message, process_chat, message_entrypoint, Answers, Calling, message_entrypoint_lem,
}
use irc_core.Extension
use irc_core.Extension.{message_event, command_event, chat_event, deliver_all}
use irc_core.Callback.Interface.{extension, Alive, events-Alive}
use irc_core.Examples.Interpreter.{Memory, view}
use irc_core.Examples.Instance.{interpreter}
use irc_core.Examples.Console.{console, Event, net, chan}

abbrev L : Lua (List Event)
L = interpreter

abbrev message : Message
message = record {
  network = net;
  prefix_nick = chan;
  prefix_user = chan;
  prefix_host = net;
  command = net;
  params = chan ∷ net ∷ [];
  tags = (net, chan) ∷ [];
}

abbrev chat : Chat
chat = record { network = net; target = chan; message = net }

-- A module with both functions.
abbrev functions : Fields
functions =
    set_key (set_key no_fields (name process_message) (other 1)) (name process_chat) (other 2)

abbrev loaded : Memory
loaded = record {
  stack = boolean true ∷ [];
  tables = (5, functions) ∷ [];
  registry = (0, table 5) ∷ [];
  users = [];
  globals = [];
}

push_glirc_message_lem_example :
    (t p a b : ℕ) × (params : Fields) × Built
      (view loaded)
      (view (push_glirc_message L message loaded))
      t
      (message_fields message p a b)
      ((b, set_tags no_fields message.tags) ∷ (a, params) ∷ (p, prefix_fields message) ∷ [])
    × IsArray params (chan ∷ net ∷ [])
push_glirc_message_lem_example = push_glirc_message_lem L message loaded

-- A message, a command and a chat.
abbrev history : List Extension.Event
history = message_event message ∷ command_event (record { command = net }) ∷ chat_event chat ∷ []

events-Alive_example :
    Alive console L 7 8 loaded (deliver_all (extension console L 7 8) history (some loaded) [])
events-Alive_example = events-Alive console L 7 8 history loaded []

message_entrypoint_lem_example :
    (s' : Memory) × (t p a b : ℕ) × (params : Fields) × Calling console L
      (view loaded)
      5
      (other 1)
      t
      (message_fields message p a b)
      ((b, set_tags no_fields message.tags) ∷ (a, params) ∷ (p, prefix_fields message) ∷ [])
      s'
    × IsArray params (chan ∷ net ∷ [])
    × Answers console L (message_entrypoint console L message (some loaded) []) s' []
message_entrypoint_lem_example =
    message_entrypoint_lem console L message loaded [] 5 functions refl refl refl
