-- ===== src/Examples/Scripts.antt =====
-- The functions of the Lua extension at concrete inputs.
use irc_core.Base.{
  Bytes, ℕ, ◌≡◌, ◌≢◌, refl, true, false, none, List, [], ◌∷◌, ◌<◌, ◌≤◌, ◌==◌, if◌then◌else◌,
}
use irc_core.Client.{outgoing, pass_message, drop_message, error_message}
use irc_core.Lua.Value.{
  Value, nil, boolean, str, table, other, userdata, truthy, Fields, no_fields, name, set_key,
}
use irc_core.Lua.Api.{Lua, returned, raised}
use irc_core.Lua.Auxlib.{Raised}
use irc_core.Lua.Tables.{with_table}
use irc_core.Thread.{
  new_thread_state, thread_state_value, free_thread_state, thread_state_round_trip,
  thread_state_kept,
}
use irc_core.Callback.{callback}
use irc_core.Callback.Balance.{stack-callback}
use irc_core.Callback.Handler.{callback_called}
use irc_core.Marshal.{import_string_array}
use irc_core.Marshal.Arrays.{IsArray, import_string_array_lem}
use irc_core.Library.Messages.{send_message, send_message_lem, Reports}
use irc_core.Examples.Interpreter.{Memory, view}
use irc_core.Examples.Instance.{interpreter}
use irc_core.Examples.Checks.{checks}
use irc_core.Examples.Console.{console, Event, net, chan}

abbrev L : Lua (List Event)
L = interpreter

abbrev memory : List Value → Memory
memory xs = record { stack = xs; tables = []; registry = []; users = []; globals = [] }

-- "process_message", and a module that has it
abbrev handler : Bytes
handler = b'p' ∷ b'm' ∷ []

abbrev module_fields : Fields
module_fields = set_key no_fields (name handler) (other 1)

abbrev with_module : Fields → List Value → Memory
with_module f xs = record {
  stack = xs;
  tables = (5, f) ∷ [];
  registry = (0, table 5) ∷ [];
  users = [];
  globals = [];
}

thread_state_round_trip_example :
    let m = memory (other 1 ∷ boolean true ∷ []) in
    let (st, m') = new_thread_state L 8 m in
    let m'' = thread_state_value L st m' in
    let freed = free_thread_state L st m'' in
    (m'.stack ≡ boolean true ∷ [])
    × (m''.stack ≡ other 1 ∷ boolean true ∷ [])
    × (freed.stack ≡ other 1 ∷ boolean true ∷ [])
    × ((p : ℕ) → (view freed).registry p ≡ (if st == p then nil else nil))
    × ((t : ℕ) → (view freed).tables t ≡ none)
thread_state_round_trip_example =
    thread_state_round_trip L 8 {s = memory (other 1 ∷ boolean true ∷ [])} (other 1)
      (boolean true ∷ []) refl

abbrev one_kept : Memory
one_kept = record {
  stack = other 2 ∷ [];
  tables = [];
  registry = (3, userdata 3) ∷ [];
  users = (3, other 1) ∷ [];
  globals = [];
}

thread_state_kept_example :
    let (st, m') = new_thread_state L 8 one_kept in
    (st ≢ 3)
    × ((thread_state_value L 3 m').stack ≡ other 1 ∷ [])
    × ((view m').registry 3 ≡ userdata 3)
thread_state_kept_example = thread_state_kept L 8 3 {s = one_kept} (other 2) [] refl refl

abbrev message_waiting : Memory
message_waiting = with_module module_fields (table 6 ∷ boolean false ∷ [])

stack-callback_example :
    (callback console L handler 1 message_waiting []).1.stack ≡ boolean false ∷ []
stack-callback_example =
    stack-callback console L handler 1 message_waiting [] (table 6 ∷ []) (boolean false ∷ []) refl
      refl

callback_called_example :
    (s' : Memory) × (view s'
      ≡ record (view message_waiting) { stack = table 6 ∷ table 5 ∷ other 1 ∷ [] })
    × ((s'' : Memory) (w' : List Event) (v : Value)
        → L.lua_call 2 1 s' [] ≡ returned tt s'' w'
        → s''.stack ≡ v ∷ []
        → let (r, s₁, w₁) = callback console L handler 1 message_waiting [] in
          (r ≡ (if truthy v then drop_message else pass_message)) × (w₁ ≡ w'))
    × ((s'' : Memory) (w' : List Event) (e : Value)
        → L.lua_call 2 1 s' [] ≡ raised e s'' w'
        → let (r, s₁, w₁) = callback console L handler 1 message_waiting [] in
          (r ≡ pass_message) × (w₁ ≡ Event.printed error_message (L.text_of e) ∷ w'))
callback_called_example =
    callback_called console L handler 1 message_waiting [] (table 6 ∷ []) (boolean false ∷ []) refl
      refl 5 module_fields refl refl refl

import_string_array_lem_example :
    (s' : Memory) × (f : Fields) × (import_string_array console L (net ∷ chan ∷ []) (memory []) []
      ≡ returned tt s' [])
    × (view s' ≡ with_table (view (memory [])) (table 1 ∷ []) 1 f)
    × IsArray f (net ∷ chan ∷ [])
import_string_array_lem_example = import_string_array_lem console L (net ∷ chan ∷ []) (memory []) []

abbrev three : Memory
three = memory (str chan ∷ str handler ∷ str net ∷ [])

send_message_lem_example :
    (1 ≤ 15
      → (s' : Memory) × (let (failed, w') =
            console.glirc_send_message (outgoing net handler (chan ∷ [])) [] in
          Reports console L checks failed (send_message console L checks three []) s' w'))
    × (15 < 1 → Raised (send_message console L checks three []) [])
send_message_lem_example = send_message_lem console L checks three [] net handler (chan ∷ []) refl
